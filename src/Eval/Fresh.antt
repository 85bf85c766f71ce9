-- ===== src/Eval/Fresh.antt =====
-- internal/eval/results.go: which changes of the tree make a committed result stale.
use mathlib.Core.List.{[]}
use ai_k8s.Prelude.{◌≡◌, refl, inl, inr, true, false, List, ◌∷◌, ◌++◌, Eq-string, Bool-cases}
use ai_k8s.Platform.{Platform}
use ai_k8s.Corpus.Index.{EntryId, Entry, Index}
use ai_k8s.Model.Prompt.{prompt_digest}
use ai_k8s.Eval.Cases.{CaseSet}
use ai_k8s.Eval.Results.{
  Digests, is_control_id, shown_where, corpus_digests, Results, check_results,
}

shown_where-upstream :
    (before after : List (EntryId × Entry)) (id : EntryId) (e : Entry)
    → is_control_id e.id ≡ false
    → shown_where true (before ++ ((id, e) ∷ after)) ≡ shown_where true (before ++ after)
unfolding shown_where
shown_where-upstream [] after id e h = rw h refl
shown_where-upstream ((i, x) ∷ before) after id e h =
    let below = shown_where-upstream before after id e h in
    elim (Bool-cases (is_control_id x.id)) [
      | inl mine ↦ rw (mine, below) refl
      | inr theirs ↦ rw (theirs, below) refl
    ]

module _ (P : Platform) (digests : Digests) where
  -- The three digests of a result that this repository answers for are those of the tree.
  pub record IsFresh (r : Results P) (s : CaseSet P.Bytes) (idx : Index) : Type 0 where
    pub set : r.header.set_digest ≡ s.digest
    pub prompt : prompt_digest P r.header.params ≡ r.header.prompt_digest
    pub local : (corpus_digests digests idx).0 ≡ r.header.local_digest

  -- An entry that is no control, wherever it stands in the corpus, makes no result stale or fresh.
  pub check_results-upstream :
      (r : Results P) (s : CaseSet P.Bytes) (idx : Index) (before after : List (EntryId × Entry))
      (id : EntryId) (e : Entry)
      → is_control_id e.id ≡ false
      → (check_results P digests r s (record idx { entries = before ++ ((id, e) ∷ after) })).0
        ≡ (check_results P digests r s (record idx { entries = before ++ after })).0
  unfolding check_results corpus_digests
  check_results-upstream r s idx before after id e h =
      rw (shown_where-upstream before after id e h) refl
