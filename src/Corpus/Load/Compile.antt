-- ===== src/Corpus/Load/Compile.antt =====
-- internal/corpus/compile.go, and what cmd/corpusc gives it: the whole index.
use mathlib.Core.List.{[]}
use ai_k8s.Prelude.{
  ◌<>◌, ℕ, ◌+◌, String, none, some, List, ◌∷◌, ◌++◌, if◌then◌else◌, is_empty, length, ◌==◌,
  Eq-string, ltb, Result, ok, err, failed, wrap,
}
use ai_k8s.Text.{join}
use ai_k8s.Text.Format.{decimal}
use ai_k8s.Corpus.Index.{
  Kind, checkov, threat, decision, control, EntryId, Entry, Pairing, Index, new_index,
}
use ai_k8s.Corpus.Mapping.{validate_index}
use ai_k8s.Corpus.Load.Files.{Files}
use ai_k8s.Corpus.Load.Checkov.{load_checkov}
use ai_k8s.Corpus.Load.Markdown.{load_decisions}
use ai_k8s.Corpus.Load.Threats.{load_threat_model}
use ai_k8s.Corpus.Load.Yaml.{load_controls, load_mapping}

pub record Sources : Type 0 where
  pub checkov_baseline : String
  pub threat_model : String
  pub decisions : String
  pub controls : String
  pub mapping : String

pub record LoadStep : Type 0 where
  pub name : String
  pub load : Index → String → Result Index
  pub path : String

-- The steps of `Compile`.
unfoldable pub steps_of : Files → Sources → List LoadStep
unfolding load_checkov load_threat_model load_decisions load_controls load_mapping
steps_of files s =
    record { name = "checkov baseline"; load = load_checkov files; path = s.checkov_baseline }
    ∷ record { name = "threat model"; load = load_threat_model files; path = s.threat_model }
    ∷ record { name = "decisions"; load = load_decisions files; path = s.decisions }
    ∷ record { name = "controls"; load = load_controls files; path = s.controls }
    ∷ record { name = "mapping"; load = load_mapping files; path = s.mapping }
    ∷ []

unfoldable pub run_steps : List LoadStep → Index → Result Index
run_steps [] idx = ok idx
run_steps (step ∷ steps) idx =
    if step.path == ""
    then err (failed ("no path given for the " <> step.name))
    else elim (step.load idx step.path) [
      | err why ↦ err (wrap step.name why)
      | ok loaded ↦ run_steps steps loaded
    ]

-- `Validate` at the end of `Compile` and of `Unmarshal`.
unfoldable pub validated : Index → Result Index
unfolding validate_index
validated idx = elim (validate_index idx) [ none ↦ ok idx | some problem ↦ err (failed problem) ]

-- `Compile`
unfoldable pub compile : Files → Sources → Result Index
unfolding steps_of run_steps validated
compile files s = elim (run_steps (steps_of files s) new_index) [
  | err why ↦ err why
  | ok idx ↦ validated idx
]

-- `Unmarshal`, over the decoder of its JSON, which gives an absent map as an empty one.
unfoldable pub unmarshal : (String → Result Index) → String → Result Index
unfolding validated
unmarshal decode body = elim (decode body) [
  | err why ↦ err (wrap "parse the compiled corpus" why)
  | ok idx ↦ validated idx
]

abbrev counts : Kind → Kind → ℕ
counts checkov checkov = 1
counts threat threat = 1
counts decision decision = 1
counts control control = 1
counts _ _ = 0

-- How many entries are of a kind.
unfoldable pub count_kind : Kind → List (EntryId × Entry) → ℕ
count_kind k [] = 0
count_kind k ((id, e) ∷ entries) = counts k e.kind + count_kind k entries

unfoldable pub count_pairings : List (String × List Pairing) → ℕ
count_pairings [] = 0
count_pairings ((category, pairings) ∷ mapping) = length pairings + count_pairings mapping

-- `%-9s`, of a text of at most nine characters: the kinds' own.
abbrev padded : Kind → String
padded checkov = "checkov  "
padded threat = "threat   "
padded decision = "decision "
padded control = "control  "

abbrev kind_line : List (EntryId × Entry) → Kind → List String
kind_line entries k =
    let n = count_kind k entries in
    if ltb 0 n then ("  " <> (padded k <> (" " <> decimal n))) ∷ [] else []

-- `Report`; the lines of the kinds stand in the order of their names, which sorting gives them.
unfoldable pub report : Index → String
unfolding count_kind count_pairings join
report idx =
    let kinds =
      kind_line idx.entries checkov
      ++ (kind_line idx.entries control
          ++ (kind_line idx.entries decision ++ kind_line idx.entries threat)) in
    "corpus entries: "
    <> (decimal (length idx.entries)
        <> ("\n"
            <> (join kinds "\n"
                <> ("\nmapping: "
                    <> (decimal (length idx.mapping)
                        <> (" categories, "
                            <> (decimal (count_pairings idx.mapping)
                                <> (" pairings\n"
                                    <> (if is_empty idx.skipped_decisions
                                        then ""
                                        else "decisions headings carrying no Decision line, skipped: "
                                          <> (join idx.skipped_decisions ", " <> "\n"))))))))))
