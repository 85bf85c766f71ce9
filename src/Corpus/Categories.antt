-- ===== src/Corpus/Categories.antt =====
-- The sorted categories of a mapping, as `Index.Validate` (internal/corpus/index.go) lists them.
use mathlib.Core.List.{[]}
use ai_k8s.Prelude.{
  ◌≡◌, subst, ◌↔◌, inl, inr, String, some, List, ◌∷◌, less_text, All, Bool-cases, ◌==◌, Eq-string,
  eq_iff, eq_refl,
}
use ai_k8s.Corpus.Index.{Pairing, lookup}
use ai_k8s.Corpus.Mapping.{categories_of, insert_text, sort_texts}

module _ (Q : String → Type 0) where
  insert_text-All : (s : String) (ts : List String) → All Q (insert_text s ts) ↔ (Q s × All Q ts)
  unfolding insert_text
  insert_text-All s [] = (λ h. h, λ h. h)
  insert_text-All s (t ∷ ts) =
      let below = insert_text-All s ts in
      elim (Bool-cases (less_text t s)) [
        | inr first ↦ rw first (λ h. h, λ h. h)
        | inl later ↦
            rw later
              (λ h. ((below.0 h.1).0, (h.0, (below.0 h.1).1)), λ h. (h.1.0, below.1 (h.0, h.1.1)))
      ]

  -- What holds of all texts holds of them sorted, and the other way round.
  pub sort_texts-All : (ts : List String) → All Q (sort_texts ts) ↔ All Q ts
  unfolding sort_texts
  sort_texts-All [] = (λ h. h, λ h. h)
  sort_texts-All (s ∷ ss) =
      let below = sort_texts-All ss in
      let here = insert_text-All s (sort_texts ss) in
      (λ h. ((here.0 h).0, below.0 (here.0 h).1), λ h. here.1 (h.0, below.1 h.1))

-- The listed categories are those that the mapping has.
pub categories_of-All :
    (Q : String → Type 0) (table : List (String × List Pairing))
    → All Q (categories_of table)
      ↔ ((c : String) (ps : List Pairing) → lookup c table ≡ some ps → Q c)
unfolding categories_of lookup
categories_of-All Q [] = (λ h c ps found. cc found, λ h. tt)
categories_of-All Q ((d, qs) ∷ table) =
    let below = categories_of-All Q table in
    (
      λ h c ps found. elim (Bool-cases (d == c)) [
        | inl same ↦ subst Q ((eq_iff d c).0 same) h.0
        | inr differ ↦ below.0 h.1 c ps (rw differ at found)
      ],
      λ h.
          let first : Q d = h d qs (rw eq_refl) in
          (
            first,
            below.1 (λ c ps found. elim (Bool-cases (d == c)) [
              | inl same ↦ subst Q ((eq_iff d c).0 same) first
              | inr differ ↦ h c ps (rw differ found)
            ]),
          ),
    )
