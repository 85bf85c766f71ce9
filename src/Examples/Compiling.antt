-- ===== src/Examples/Compiling.antt =====
-- The compilation of a corpus at concrete sources (internal/corpus, cmd/corpusc).
use mathlib.Core.List.{[]}
use mathlib.Core.Option
use ai_k8s.Prelude.{
  none, false, String, ◌∷◌, ok, ◌≡◌, ◌≢◌, refl, ◌==◌, Eq-string, if◌then◌else◌, Result, All,
}
use ai_k8s.Scc.{blank}
use ai_k8s.Text.{
  trim_space, trim, trim_left, trim_right, is_space, strip_prefix, strip_suffix, has_prefix,
  trim_prefix, equal_fold, fold, split, split_from, trim_suffix,
}
use ai_k8s.Text.Format.{
  decimal, digits_from, digit, pick, digits_value, atoi, quote, quote_from, quoted,
}
use ai_k8s.Corpus.Index.{
  Index, checkov, threat, decision, control, parse_parts, parse_id, add, lookup, lookup_entry,
  insert, checkov_id, threat_id, decision_id, control_id,
}
use ai_k8s.Corpus.Mapping.{
  categories_of, insert_text, sort_texts, cite_problems, pairing_problems, pairings_problems,
  category_problems, mapping_problems, validate_index,
}
use ai_k8s.Corpus.Load.Files.{Stream, Control, Files, decode_strict, scan, scan_pieces}
use ai_k8s.Corpus.Load.Checkov.{checkov_entry, add_checks, add_findings, add_failed, load_checkov}
use ai_k8s.Corpus.Load.Markdown.{
  decision_prefix, decision_entry, flush, decision_line, decision_lines, decision_end,
  decision_scanned, load_decisions, anchor, anchor_from, anchored_char,
}
use ai_k8s.Corpus.Load.Threats.{
  split_row, threat_entry, take_row, threat_line, threat_lines, threat_end, threat_scanned,
  load_threat_model, row_of,
}
use ai_k8s.Corpus.Load.Yaml.{
  partial_name, control_problem, control_entry, add_controls, load_controls, cites_of, pairings_of,
  map_categories, load_mapping,
}
use ai_k8s.Corpus.Load.Compile.{Sources, steps_of, run_steps, validated, compile}
use ai_k8s.Corpus.Load.Compiled.{IsCompiled, compile-IsCompiled}
use ai_k8s.Corpus.Load.Anchors.{parse_id-anchor}
use ai_k8s.Corpus.Load.Silent.{load_decisions-silent}

abbrev threat_text : String
threat_text =
    "# Model\n## Findings\n| # | Boundary | Finding | Response | Status |\n|---|---|---|---|---|\n| 1 | node | Keys leak | Rotate | open |\n## Boundaries\n| 1 | a | b | c | d |\n"

abbrev decisions_text : String
decisions_text = "### One node\nDecision: One pool is enough.\n### Later\nNothing yet.\n"

abbrev silent : Stream
silent = record { text = "### Later\nNothing yet.\n"; broken = none }

abbrev stream_at : String → Result Stream
stream_at path =
    if path == "threats"
    then ok (record { text = threat_text; broken = none })
    else if path == "decisions"
    then ok (record { text = decisions_text; broken = none })
    else if path == "silent"
    then ok silent
    else ok (record { text = path; broken = none })

abbrev bucket_control : Control
bucket_control = record {
  slug = "private_buckets";
  statement = "Buckets are private.";
  proof = "worklog 7";
  applies_to = "//storage.googleapis.com/" ∷ [];
}

abbrev pub files : Files
files = record {
  read_file = λ path. ok "{}";
  open_file = stream_at;
  baseline = λ raw. ok (
      record {
        file = "/main.tf";
        findings = record { resource = "pool"; check_ids = "CKV_1" ∷ [] } ∷ [];
      }
      ∷ []);
  controls = λ stream. ok (bucket_control ∷ []);
  mapping = λ stream. ok (
      (
        "SINGLE_ZONE",
        record { resource = "//container/pool"; cite = "decision:one-node" ∷ []; why = "Enough." }
            ∷ [],
      )
      ∷ []);
}

abbrev pub sources : Sources
sources = record {
  checkov_baseline = "baseline";
  threat_model = "threats";
  decisions = "decisions";
  controls = "controls";
  mapping = "mapping";
}

abbrev pub compiled_corpus : Index
compiled_corpus = record {
  entries =
      (
        "checkov:CKV_1:pool",
        record {
          id = "checkov:CKV_1:pool";
          kind = checkov;
          summary = "CKV_1 is accepted against pool, recorded in the checkov baseline.";
          source = ".checkov.baseline, for /main.tf";
          applies_to = [];
        },
      )
      ∷ (
        "threat:1",
        record {
          id = "threat:1";
          kind = threat;
          summary = "Keys leak. Proposed response: Rotate. Status: open";
          source = "reference/threat-model.md#findings, boundary node";
          applies_to = [];
        },
      )
      ∷ (
        "decision:one-node",
        record {
          id = "decision:one-node";
          kind = decision;
          summary = "One pool is enough.";
          source = "decisions.md#one-node, \"One node\"";
          applies_to = [];
        },
      )
      ∷ (
        "control:private_buckets",
        record {
          id = "control:private_buckets";
          kind = control;
          summary = "Buckets are private.";
          source = "worklog 7";
          applies_to = "//storage.googleapis.com/" ∷ [];
        },
      )
      ∷ [];
  mapping =
      (
        "SINGLE_ZONE",
        record { resource = "//container/pool"; cite = "decision:one-node" ∷ []; why = "Enough." }
            ∷ [],
      )
      ∷ [];
  skipped_decisions = "Later" ∷ [];
}

pub compile_run : compile files sources ≡ ok compiled_corpus
unfolding compile steps_of run_steps validated load_checkov add_failed add_findings add_checks
    checkov_entry load_threat_model threat_scanned threat_lines threat_line threat_end take_row
    threat_entry row_of split_row load_decisions decision_scanned decision_lines decision_line
    decision_end flush decision_entry anchor anchor_from anchored_char load_controls add_controls
    control_problem partial_name control_entry load_mapping map_categories pairings_of cites_of
    decode_strict scan scan_pieces add parse_id parse_parts lookup_entry lookup insert blank
    trim_space trim trim_left trim_right is_space strip_prefix strip_suffix has_prefix trim_prefix
    trim_suffix equal_fold fold split split_from decimal digits_from digit pick digits_value atoi
    quote quote_from quoted checkov_id threat_id decision_id control_id validate_index
    mapping_problems sort_texts insert_text categories_of category_problems pairings_problems
    pairing_problems cite_problems Option.bind
compile_run = refl

compile-IsCompiled_example : IsCompiled files sources compiled_corpus
compile-IsCompiled_example = compile-IsCompiled files sources compiled_corpus compile_run

scan-silent :
    ((scan 1048576 silent).failure ≡ none)
    × All (λ line. has_prefix line decision_prefix ≡ false) (scan 1048576 silent).lines
unfolding scan scan_pieces split split_from trim_suffix strip_suffix has_prefix strip_prefix
scan-silent = (refl, (refl, (refl, tt)))

load_decisions-silent_example :
    (idx : Index) × (load_decisions files compiled_corpus "silent" ≡ ok idx)
    × (idx.entries ≡ compiled_corpus.entries)
load_decisions-silent_example =
    load_decisions-silent files compiled_corpus "silent" silent refl scan-silent.0 scan-silent.1
      refl

one_node_anchor : anchor "One node" ≢ ""
unfolding anchor anchor_from anchored_char trim_space trim trim_left trim_right is_space
one_node_anchor h = cc h

parse_id-anchor_example : parse_id (decision_id (anchor "One node")) ≡ ok decision
parse_id-anchor_example = parse_id-anchor "One node" one_node_anchor
