-- ===== src/Corpus/Checked.antt =====
-- What `Index.Validate` (internal/corpus/index.go) passes, and what resolution finds in it.
use mathlib.Core.List.{[], Memᴰ}
use mathlib.Core.List.Memᴰ
use mathlib.Core.Option
use ai_k8s.Prelude.{
  ℕ, suc, ◌≡◌, ◌≢◌, refl, sym, subst, ◌↔◌, inl, inr, ◌<>◌, String, Bool, true, false, none, some,
  List, ◌∷◌, arith, is_empty, is_empty-append_iff, problem_if, All, Bool-cases, Option-cases,
  Eq-string,
}
use ai_k8s.Text.Format.{decimal}
use ai_k8s.Scc.{blank}
use ai_k8s.Corpus.Index.{EntryId, Entry, Pairing, Index, lookup, lookup_entry, resolve}
use ai_k8s.Corpus.Resolve.{Priced, resolve_iff}
use ai_k8s.Corpus.Mapping.{
  categories_of, sort_texts, cite_problems, pairing_problems, pairings_problems, category_problems,
  mapping_problems, validate_index,
}
use ai_k8s.Corpus.Categories.{sort_texts-All, categories_of-All}

abbrev pub Resolves : Index → EntryId → Type 0
Resolves idx id = (e : Entry) × (lookup_entry idx id ≡ some e)

-- What `Validate` asks of a pairing.
pub record IsJustified (idx : Index) (p : Pairing) : Type 0 where
  pub resource : blank p.resource ≡ false
  pub why : blank p.why ≡ false
  pub cites : p.cite ≢ []
  pub resolves : All (Resolves idx) p.cite

-- And of the mapping.
abbrev pub IsChecked : Index → Type 0
IsChecked idx =
    (category : String) (ps : List Pairing)
    → lookup category idx.mapping ≡ some ps
    → (blank category ≡ false) × All (IsJustified idx) ps

cite_problems-eq-nil :
    (idx : Index) (place : String) (ids : List EntryId)
    → (is_empty (cite_problems idx place ids) ≡ true) ↔ All (Resolves idx) ids
unfolding cite_problems
cite_problems-eq-nil idx place [] = (λ h. tt, λ h. refl)
cite_problems-eq-nil idx place (id ∷ ids) =
    let below = cite_problems-eq-nil idx place ids in
    elim (Option-cases (lookup_entry idx id)) [
      | inl missing ↦ rw (missing, cite_problems) (λ h. cc h, λ h. cc (h.0.1))
      | inr (e, found) ↦ rw (found, cite_problems) (λ h. ((e, refl), below.0 h), λ h. below.1 h.1)
    ]

pairing_problems-eq-nil :
    (idx : Index) (place : String) (p : Pairing)
    → (is_empty (pairing_problems idx place p) ≡ true) ↔ IsJustified idx p
unfolding pairing_problems
pairing_problems-eq-nil idx place p =
    let first =
      is_empty-append_iff (problem_if (blank p.resource) (place <> " names no resource")) _ in
    let second =
      is_empty-append_iff (problem_if (blank p.why) (place <> " has no justification")) _ in
    let third = is_empty-append_iff (problem_if (is_empty p.cite) (place <> " cites nothing")) _ in
    let cites = cite_problems-eq-nil idx place p.cite in
    (
      λ h.
          let (a, rest) = first.0 h in
          let (b, rest') = second.0 rest in
          let (c, d) = third.0 rest' in
          record {
            resource = quiet (blank p.resource) _ a;
            why = quiet (blank p.why) _ b;
            cites = λ e. cc (quiet (is_empty p.cite) _ c, e);
            resolves = cites.0 d;
          },
      λ j. first.1 (
        rw (j.resource) refl,
        second.1 (rw (j.why) refl, third.1 (rw (full p.cite j.cites) refl, cites.1 j.resolves)),
      ),
    )
  where
    quiet : (b : Bool) (s : String) → is_empty (problem_if b s) ≡ true → b ≡ false
    quiet true s h = cc
    quiet false s h = refl

    full : (ids : List EntryId) → ids ≢ [] → is_empty ids ≡ false
    full [] h = absurd (h refl)
    full (id ∷ ids) h = refl

pairings_problems-eq-nil :
    (idx : Index) (category : String) (i : ℕ) (ps : List Pairing)
    → (is_empty (pairings_problems idx category i ps) ≡ true) ↔ All (IsJustified idx) ps
unfolding pairings_problems
pairings_problems-eq-nil idx category i [] = (λ h. tt, λ h. refl)
pairings_problems-eq-nil idx category i (p ∷ ps) =
    let place = category <> ("[" <> (decimal i <> "]")) in
    let both = is_empty-append_iff (pairing_problems idx place p) _ in
    let here = pairing_problems-eq-nil idx place p in
    let below = pairings_problems-eq-nil idx category (suc i) ps in
    (λ h. (here.0 (both.0 h).0, below.0 (both.0 h).1), λ h. both.1 (here.1 h.0, below.1 h.1))

abbrev IsSound : Index → String → Type 0
IsSound idx c = (blank c ≡ false) × All (IsJustified idx) (Option.get_or (lookup c idx.mapping) [])

category_problems-eq-nil :
    (idx : Index) (c : String) → (is_empty (category_problems idx c) ≡ true) ↔ IsSound idx c
unfolding category_problems
category_problems-eq-nil idx c =
    let own = pairings_problems-eq-nil idx c 0 (Option.get_or (lookup c idx.mapping) []) in
    elim (Bool-cases (blank c)) [
      | inl empty ↦ rw empty (λ h. cc h, λ h. cc (h.0))
      | inr named ↦ rw named (λ h. (refl, own.0 h), λ h. own.1 h.1)
    ]

mapping_problems-eq-nil :
    (idx : Index) (cs : List String)
    → (is_empty (mapping_problems idx cs) ≡ true) ↔ All (IsSound idx) cs
unfolding mapping_problems
mapping_problems-eq-nil idx [] = (λ h. tt, λ h. refl)
mapping_problems-eq-nil idx (c ∷ cs) =
    let both = is_empty-append_iff (category_problems idx c) (mapping_problems idx cs) in
    let here = category_problems-eq-nil idx c in
    let below = mapping_problems-eq-nil idx cs in
    (λ h. (here.0 (both.0 h).0, below.0 (both.0 h).1), λ h. both.1 (here.1 h.0, below.1 h.1))

validate_index-eq-none :
    (idx : Index)
    → (validate_index idx ≡ none)
      ↔ (is_empty (mapping_problems idx (sort_texts (categories_of idx.mapping))) ≡ true)
unfolding validate_index
validate_index-eq-none idx = ground arith

-- `Validate` passes an index exactly when each category of its mapping has a name, and each of its
-- pairings a resource, a justification and citations, all of which resolve.
pub validate_index_iff : (idx : Index) → (validate_index idx ≡ none) ↔ IsChecked idx
validate_index_iff idx =
    let whole = validate_index-eq-none idx in
    let each = mapping_problems-eq-nil idx (sort_texts (categories_of idx.mapping)) in
    let sorted = sort_texts-All (IsSound idx) (categories_of idx.mapping) in
    let listed = categories_of-All (IsSound idx) idx.mapping in
    (
      λ h c ps found.
          let sound = listed.0 (sorted.0 (each.0 (whole.0 h))) c ps found in
          (sound.0, subst (λ o. All (IsJustified idx) (Option.get_or o [])) found sound.1),
      λ h. whole.1 (
          each.1 (
            sorted.1 (
              listed.1 (λ c ps found. (
                (h c ps found).0,
                subst (λ o. All (IsJustified idx) (Option.get_or o [])) (sym found)
                    (h c ps found).1,
              ))))),
    )

cited_first :
    (idx : Index) (ids : List EntryId)
    → ids ≢ []
    → All (Resolves idx) ids
    → (id : EntryId) × Memᴰ id ids × Resolves idx id
cited_first idx [] full all = absurd (full refl)
cited_first idx (id ∷ ids) full all = (id, Memᴰ.head refl, all.0)

IsJustified-of_Mem :
    (idx : Index) (p : Pairing) (ps : List Pairing)
    → Memᴰ p ps
    → All (IsJustified idx) ps
    → IsJustified idx p
IsJustified-of_Mem idx p [] m all = absurd (Memᴰ.not-nil m)
IsJustified-of_Mem idx p (q ∷ qs) (Memᴰ.head e) all = subst (IsJustified idx) (sym e) all.0
IsJustified-of_Mem idx p (q ∷ qs) (Memᴰ.tail m) all = IsJustified-of_Mem idx p qs m all.1

-- In an index that `Validate` passes, each pairing prices its resource: the category and the
-- resource of the pairing resolve to something.
pub resolve-ne-nil :
    (idx : Index) (category : String) (ps : List Pairing) (p : Pairing)
    → validate_index idx ≡ none
    → lookup category idx.mapping ≡ some ps
    → Memᴰ p ps
    → resolve idx category p.resource ≢ []
resolve-ne-nil idx category ps p valid found m nothing =
    let j = IsJustified-of_Mem idx p ps m ((validate_index_iff idx).0 valid category ps found).1 in
    let (id, cited, (e, held)) = cited_first idx p.cite j.cites j.resolves in
    let priced : Priced idx (Option.get_or (lookup category idx.mapping) []) p.resource e = record {
      pairing = p;
      listed = subst (λ o. Memᴰ p (Option.get_or o [])) (sym found) m;
      same = refl;
      id = id;
      cited = cited;
      found = held;
    } in
    Memᴰ.not-nil (subst (Memᴰ e) nothing ((resolve_iff idx category p.resource e).1 priced))
