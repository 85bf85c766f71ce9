-- ===== src/Verdict/Record.antt =====
-- internal/verdict/record.go: the verdict record and the contract that `Validate` enforces.
use mathlib.Core.List.{[]}
use ai_k8s.Prelude.{
  ℕ, ◌<>◌, String, Bool, true, false, not, Option, none, some, List, ◌∷◌, ◌++◌, if◌then◌else◌,
  problem_if, is_empty, ◌==◌, Eq-nat, Eq-string,
}
use ai_k8s.Text.{join}
use ai_k8s.Text.Format.{quote}
use ai_k8s.Scc.{blank}
use ai_k8s.Corpus.Index.{EntryId, Entry, Index, lookup_entry}

-- The closed set of four verdicts; `other` is any other text, the unset verdict "" among them.
pub data Value : Type 0 where
  accepted contradicts_decision new insufficient_evidence : Value
  other : String → Value

abbrev pub value_text : Value → String
value_text accepted = "accepted"
value_text contradicts_decision = "contradicts_decision"
value_text new = "new"
value_text insufficient_evidence = "insufficient_evidence"
value_text (other s) = s

-- The conversion `Value(s)`.
unfoldable pub value_of : String → Value
value_of s =
    if s == "accepted"
    then accepted
    else if s == "contradicts_decision"
    then contradicts_decision
    else if s == "new"
    then new
    else if s == "insufficient_evidence"
    then insufficient_evidence
    else other s

pub data CorpusMatch : Type 0 where
  matched unmatched unset : CorpusMatch

abbrev pub is_matched : CorpusMatch → Bool
is_matched matched = true
is_matched _ = false

abbrev pub is_unmatched : CorpusMatch → Bool
is_unmatched unmatched = true
is_unmatched _ = false

abbrev pub schema_version : String
schema_version = "triage.v1"

abbrev pub settled_by_rules : String
settled_by_rules = "rules"

abbrev pub settled_by_model : String
settled_by_model = "model"

pub record Citation : Type 0 where
  pub id : EntryId
  pub summary : String
  pub source : String

pub record FindingRef : Type 0 where
  pub canonical_name : String
  pub name : String
  pub category : String
  pub resource_name : String
  pub severity : String
  pub state : String
  pub event_time : String
  pub class : String
  pub digest : String

pub record ToolCall : Type 0 where
  pub name : String
  pub result : String

pub record Provenance : Type 0 where
  pub corpus_commit : String
  pub agent_commit : String
  pub image_digest : String
  pub model : String
  pub model_params : String
  pub prompt_digest : String
  pub input_tokens : ℕ
  pub output_tokens : ℕ
  pub cost_estimate : String

-- `Record`; `record` is the language's own word.
pub record VerdictRecord : Type 0 where
  pub schema : String
  pub verdict : Value
  pub finding : FindingRef
  pub corpus_match : CorpusMatch
  pub citations : List Citation
  pub reasoning : String
  pub missing_evidence : List String
  pub recommended_action : String
  pub confidence : String
  pub settled_by : String
  pub tool_calls : List ToolCall
  pub provenance : Provenance

-- The checks of `Validate` on every record.
unfoldable pub common_problems : VerdictRecord → List String
unfolding blank
common_problems r =
    problem_if (blank r.schema) "no schema_version"
    ++ (problem_if (blank r.settled_by) "does not say whether rules or the model settled it"
        ++ (problem_if (blank r.finding.digest) "no digest of the finding body"
            ++ (problem_if (blank r.finding.category)
                  "no finding category, which the metric extracts as a label"
                ++ problem_if (blank r.finding.severity)
                    "no finding severity, which the metric extracts as a label")))

-- The `switch` of `Validate`.
unfoldable pub verdict_problems : Value → VerdictRecord → List String
verdict_problems accepted r =
    problem_if (is_empty r.citations)
      "accepted cites nothing, and it asserts something about a recorded decision"
    ++ (problem_if (not (is_matched r.corpus_match)) "accepted requires corpus_match: matched"
        ++ problem_if (r.settled_by == settled_by_model)
            "the model never settles a finding as accepted")
verdict_problems contradicts_decision r =
    problem_if (is_empty r.citations)
      "contradicts_decision cites nothing, and it asserts something about a recorded decision"
verdict_problems new r =
    problem_if (not (is_unmatched r.corpus_match))
      "new requires corpus_match: none recorded explicitly"
    ++ problem_if (not (is_empty r.citations))
        "new cites a corpus entry, so resolution found a match and the verdict is not new"
verdict_problems insufficient_evidence r =
    problem_if (is_empty r.missing_evidence) "insufficient_evidence lists no missing evidence"
verdict_problems (other s) r = ("verdict " <> (quote s <> " is outside the closed set")) ∷ []

-- `Record.Validate`; `none` is the nil error.
unfoldable pub validate : VerdictRecord → Option String
validate r =
    let problems = common_problems r ++ verdict_problems r.verdict r in
    if is_empty problems then none else some ("verdict record is invalid: " <> join problems "; ")

unfoldable pub unresolved : Index → List Citation → List String
unresolved idx [] = []
unresolved idx (c ∷ cs) = elim (lookup_entry idx c.id) [
  | none ↦ c.id ∷ unresolved idx cs
  | some e ↦ unresolved idx cs
]

abbrev pub citation_of : Entry → Citation
citation_of e = record { id = e.id; summary = e.summary; source = e.source }

unfoldable pub resolved_citations : Index → List Citation → List Citation
resolved_citations idx [] = []
resolved_citations idx (c ∷ cs) = elim (lookup_entry idx c.id) [
  | none ↦ c ∷ resolved_citations idx cs
  | some e ↦ citation_of e ∷ resolved_citations idx cs
]

-- `Record.ResolveCitations`: the record as the loop leaves it, and the error.
unfoldable pub resolve_citations : Index → VerdictRecord → VerdictRecord × Option String
resolve_citations idx r =
    let r' = record r { citations = resolved_citations idx r.citations } in
    let bad = unresolved idx r.citations in
    if is_empty bad then (r', none) else (r', some ("citations do not resolve: " <> join bad ", "))
