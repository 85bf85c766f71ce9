-- ===== src/Eval/Results.antt =====
-- internal/eval/results.go and cmd/triage-eval/main.go: whether a committed result still describes the
-- tree.
use mathlib.Core.List.{[]}
use ai_k8s.Prelude.{
  ◌<>◌, ℕ, String, Bool, true, false, not, List, ◌∷◌, ◌++◌, if◌then◌else◌, is_empty, less_text,
  ◌==◌, Eq-string, Result, ok, err, failed, problem_if,
}
use ai_k8s.Text.{has_prefix, join}
use ai_k8s.Platform.{Platform}
use ai_k8s.Corpus.Index.{EntryId, Kind, Entry, Pairing, Index}
use ai_k8s.Model.Prompt.{Params, prompt_digest}
use ai_k8s.Eval.Cases.{CaseSet}
use ai_k8s.Eval.Totals.{Summary, CaseResult}

-- `shown`: what a digest of the corpus covers of an entry.
pub record Shown : Type 0 where
  pub id : EntryId
  pub kind : Kind
  pub summary : String
  pub applies_to : List String

abbrev pub is_control_id : EntryId → Bool
is_control_id id = has_prefix id "control:"

abbrev shown : Entry → Shown
shown e = record { id = e.id; kind = e.kind; summary = e.summary; applies_to = e.applies_to }

-- The entries whose ids are controls' ids, or those whose ids are not.
unfoldable pub shown_where : Bool → List (EntryId × Entry) → List Shown
unfolding has_prefix
shown_where mine [] = []
shown_where mine ((id, e) ∷ entries) =
    let rest = shown_where mine entries in
    let own = if mine then is_control_id e.id else not (is_control_id e.id) in
    if own then shown e ∷ rest else rest

-- sort.Slice by id, as an insertion sort: the ids differ, so that any sort gives this list.
unfoldable pub insert_shown : Shown → List Shown → List Shown
insert_shown s [] = s ∷ []
insert_shown s (t ∷ ts) =
    let later = insert_shown s ts in if less_text t.id s.id then t ∷ later else s ∷ t ∷ ts

unfoldable pub sort_shown : List Shown → List Shown
unfolding insert_shown
sort_shown [] = []
sort_shown (s ∷ ss) = insert_shown s (sort_shown ss)

-- `digestOf` of its two inputs: their canonical JSON, hashed.
pub record Digests : Type 0 where
  pub of_local : List (String × List Pairing) → List Shown → String
  pub of_upstream : List Shown → String

-- `CorpusDigests`, the local one and the upstream one.
unfoldable pub corpus_digests : Digests → Index → String × String
unfolding shown_where sort_shown
corpus_digests digests idx = (
  digests.of_local idx.mapping (sort_shown (shown_where true idx.entries)),
  digests.of_upstream (sort_shown (shown_where false idx.entries)),
)

module _ (P : Platform) where
  pub record Header : Type 0 where
    pub set : String
    pub sealed : Bool
    pub set_digest : String
    pub model : String
    pub model_version : String
    pub location : String
    pub params : Params P
    pub prompt_digest : String
    pub local_digest : String
    pub upstream_digest : String
    pub agent_commit : String
    pub corpus_commit : String
    pub repeats : ℕ
    pub ran_at : String

  -- `Results`; a map from a system's name to its cases.
  pub record Results : Type 0 where
    pub header : Header
    pub summaries : List (Summary P.Float)
    pub cases : List (String × List (CaseResult P.Float))

  -- `Check`: what is stale, and the warnings.
  unfoldable pub check_results :
      Digests → Results → CaseSet P.Bytes → Index → List String × List String
  unfolding corpus_digests prompt_digest
  check_results digests r s idx =
      let h = r.header in
      let (local, upstream) = corpus_digests digests idx in
      (
        problem_if (not (h.set_digest == s.digest))
              ("the " <> (s.name <> " cases or their findings changed since the run"))
            ++ (problem_if (not (prompt_digest P h.params == h.prompt_digest))
                  "the instruction, the output schema or the parameters changed since the run"
                ++ problem_if (not (local == h.local_digest))
                    "mapping.yaml or controls.yaml changed since the run"),
        problem_if (not (upstream == h.upstream_digest))
            "k8-lab's half of the corpus changed since the run, so the model is now shown different summaries",
      )

  -- `check` of the command, over the reading of the committed result.
  unfoldable pub check :
      Digests → (String → Result Results) → String → CaseSet P.Bytes → Index → Result (List String)
  unfolding check_results join
  check digests read_results path s idx = elim (read_results path) [
    | err why ↦ err why
    | ok r ↦
        let (stale, warn) = check_results digests r s idx in
        if is_empty stale
        then ok warn
        else err (
            failed (
              path
              <> (" is stale, so rerun the evaluation and commit the result:\n  "
                  <> join stale "\n  ")))
  ]
