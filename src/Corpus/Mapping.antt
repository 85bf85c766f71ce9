-- ===== src/Corpus/Mapping.antt =====
-- internal/corpus/index.go: the check of the mapping against the entries, `Index.Validate`.
use mathlib.Core.Option
use mathlib.Core.List.{[]}
use ai_k8s.Prelude.{
  ℕ, suc, ◌<>◌, String, Option, none, some, List, ◌∷◌, ◌++◌, if◌then◌else◌, is_empty, less_text,
  problem_if,
}
use ai_k8s.Text.{join}
use ai_k8s.Text.Format.{decimal, quote}
use ai_k8s.Scc.{blank}
use ai_k8s.Corpus.Index.{EntryId, Pairing, Index, lookup, lookup_entry}

unfoldable pub categories_of : List (String × List Pairing) → List String
categories_of [] = []
categories_of ((category, pairings) ∷ mapping) = category ∷ categories_of mapping

-- sort.Strings, as an insertion sort: equal texts are the same text, so that any sort gives this list.
unfoldable pub insert_text : String → List String → List String
insert_text s [] = s ∷ []
insert_text s (t ∷ ts) =
    let later = insert_text s ts in if less_text t s then t ∷ later else s ∷ t ∷ ts

unfoldable pub sort_texts : List String → List String
sort_texts [] = []
sort_texts (s ∷ ss) = insert_text s (sort_texts ss)

unfoldable pub cite_problems : Index → String → List EntryId → List String
cite_problems idx place [] = []
cite_problems idx place (id ∷ ids) = elim (lookup_entry idx id) [
  | some e ↦ cite_problems idx place ids
  | none ↦
      (place <> (" cites " <> (quote id <> ", which does not resolve")))
      ∷ cite_problems idx place ids
]

unfoldable pub pairing_problems : Index → String → Pairing → List String
pairing_problems idx place p =
    problem_if (blank p.resource) (place <> " names no resource")
    ++ (problem_if (blank p.why) (place <> " has no justification")
        ++ (problem_if (is_empty p.cite) (place <> " cites nothing")
            ++ cite_problems idx place p.cite))

-- The loop over the pairings of a category, from the i-th on.
unfoldable pub pairings_problems : Index → String → ℕ → List Pairing → List String
pairings_problems idx category i [] = []
pairings_problems idx category i (p ∷ ps) =
    pairing_problems idx (category <> ("[" <> (decimal i <> "]"))) p
    ++ pairings_problems idx category (suc i) ps

unfoldable pub category_problems : Index → String → List String
category_problems idx category =
    if blank category
    then "a mapping is keyed on an empty category" ∷ []
    else pairings_problems idx category 0 (Option.get_or (lookup category idx.mapping) [])

unfoldable pub mapping_problems : Index → List String → List String
mapping_problems idx [] = []
mapping_problems idx (category ∷ categories) =
    category_problems idx category ++ mapping_problems idx categories

-- `Index.Validate`; `none` is the nil error.
unfoldable pub validate_index : Index → Option String
validate_index idx =
    let problems = mapping_problems idx (sort_texts (categories_of idx.mapping)) in
    if is_empty problems
    then none
    else some ("corpus mapping is invalid:\n  " <> join problems "\n  ")
