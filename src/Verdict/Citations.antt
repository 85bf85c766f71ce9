-- ===== src/Verdict/Citations.antt =====
-- `ResolveCitations` (internal/verdict/record.go): no citation is kept that the corpus lacks.
use mathlib.Core.List.{[], Memᴰ}
use ai_k8s.Prelude.{
  ◌≡◌, refl, inl, inr, String, List, ◌∷◌, none, some, Bool-cases, Option-cases, true, false, All,
  is_empty,
}
use ai_k8s.Corpus.Index.{EntryId, Entry, Index, lookup_entry}
use ai_k8s.Verdict.Record.{
  Citation, VerdictRecord, citation_of, unresolved, resolved_citations, resolve_citations,
}

-- The citation is an entry of the index, under the id that it names, with the entry's own words.
abbrev pub FromCorpus : Index → Citation → Type 0
FromCorpus idx c =
    (id : EntryId) × (e : Entry) × (lookup_entry idx id ≡ some e) × (c ≡ citation_of e)

resolved_citations-FromCorpus :
    (idx : Index) (cs : List Citation)
    → is_empty (unresolved idx cs) ≡ true
    → All (FromCorpus idx) (resolved_citations idx cs)
unfolding unresolved resolved_citations
resolved_citations-FromCorpus idx [] h = tt
resolved_citations-FromCorpus idx (c ∷ cs) h = elim (Option-cases (lookup_entry idx c.id)) [
  | inl missing ↦ cc (rw (missing, unresolved) at h)
  | inr (e, found) ↦
      rw (found, resolved_citations)
        ((c.id, e, found, refl), resolved_citations-FromCorpus idx cs (rw (found, unresolved) at h))
]

pub resolve_citations-verdict :
    (idx : Index) (r : VerdictRecord) → (resolve_citations idx r).0.verdict ≡ r.verdict
unfolding resolve_citations
resolve_citations-verdict idx r = elim (Bool-cases (is_empty (unresolved idx r.citations))) [
  | inl all ↦ rw all
  | inr some_bad ↦ rw some_bad
]

-- Citations that `ResolveCitations` passes all come from the corpus, words included.
pub resolve_citations-FromCorpus :
    (idx : Index) (r : VerdictRecord)
    → (resolve_citations idx r).1 ≡ none
    → All (FromCorpus idx) (resolve_citations idx r).0.citations
unfolding resolve_citations
resolve_citations-FromCorpus idx r h = elim (Bool-cases (is_empty (unresolved idx r.citations))) [
  | inl all ↦ rw all (resolved_citations-FromCorpus idx r.citations all)
  | inr some_bad ↦ cc (rw some_bad at h)
]

unresolved-refused :
    (idx : Index) (cs : List Citation) {c : Citation}
    → Memᴰ c cs
    → lookup_entry idx c.id ≡ none
    → is_empty (unresolved idx cs) ≡ false
unfolding unresolved
unresolved-refused idx [] m missing = elim m [ ]
unresolved-refused idx (d ∷ cs) (Memᴰ.head same) missing = rw (← same, missing, unresolved)
unresolved-refused idx (d ∷ cs) (Memᴰ.tail m) missing =
    elim (Option-cases (lookup_entry idx d.id)) [
      | inl lost ↦ rw (lost, unresolved)
      | inr (e, found) ↦ rw (found, unresolved) (unresolved-refused idx cs m missing)
    ]

-- A citation of an id that the corpus lacks is refused, wherever it stands.
pub resolve_citations-ne-none :
    (idx : Index) (r : VerdictRecord) {c : Citation}
    → Memᴰ c r.citations
    → lookup_entry idx c.id ≡ none
    → (why : String) × ((resolve_citations idx r).1 ≡ some why)
unfolding resolve_citations
resolve_citations-ne-none idx r m missing =
    rw (unresolved-refused idx r.citations m missing) (_, refl)
