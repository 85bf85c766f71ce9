-- ===== src/Corpus/Resolve.antt =====
-- Resolution (resolve.go) against what it means: category and resource both match a pairing.
use mathlib.Core.Option
use mathlib.Core.List.{[], Memᴰ}
use mathlib.Core.List.Memᴰ
use ai_k8s.Prelude.{
  ◌≡◌, refl, ◌↔◌, inl, inr, ◌⊎◌, eq_refl, String, List, ◌∷◌, some, ◌==◌, Eq-string, eq_iff,
  Bool-cases, Option-cases,
}
use ai_k8s.Corpus.Index.{
  EntryId, Entry, Pairing, Index, lookup, lookup_entry, resolve_cites, resolve_pairings, resolve,
}

-- A pairing of the category, for this resource, cites an id that resolves to the entry.
pub record Priced (idx : Index) (ps : List Pairing) (resource : String) (e : Entry) : Type 0 where
  pub pairing : Pairing
  pub listed : Memᴰ pairing ps
  pub same : pairing.resource ≡ resource
  pub id : EntryId
  pub cited : Memᴰ id pairing.cite
  pub found : lookup_entry idx id ≡ some e

module _ (idx : Index) where
  resolve_cites_sound :
      (ids : List EntryId) {e : Entry}
      → Memᴰ e (resolve_cites idx ids)
      → (id : EntryId) × Memᴰ id ids × (lookup_entry idx id ≡ some e)
  unfolding resolve_cites
  resolve_cites_sound [] h = absurd (Memᴰ.not-nil h)
  resolve_cites_sound (id ∷ ids) {e} h = elim (Option-cases (lookup_entry idx id)) [
    | inl missing ↦
        let (i, m, f) = resolve_cites_sound ids (rw (missing, resolve_cites) at h) in
        (i, Memᴰ.tail m, f)
    | inr (found, f) ↦
        first id ids f (resolve_cites_sound ids) (Memᴰ.cases_cons (rw (f, resolve_cites) at h))
  ]
    where
      first :
          (id : EntryId) (ids : List EntryId) {found : Entry}
          → lookup_entry idx id ≡ some found
          → (Memᴰ e (resolve_cites idx ids)
              → (i : EntryId) × Memᴰ i ids × (lookup_entry idx i ≡ some e))
          → (e ≡ found) ⊎ Memᴰ e (resolve_cites idx ids)
          → (i : EntryId) × Memᴰ i (id ∷ ids) × (lookup_entry idx i ≡ some e)
      first id ids f below (inl same) = (id, Memᴰ.head refl, rw same f)
      first id ids f below (inr m) = let (i, n, g) = below m in (i, Memᴰ.tail n, g)

  resolve_cites_complete :
      (ids : List EntryId) {id : EntryId} {e : Entry}
      → Memᴰ id ids
      → lookup_entry idx id ≡ some e
      → Memᴰ e (resolve_cites idx ids)
  unfolding resolve_cites
  resolve_cites_complete [] h f = elim h [ ]
  resolve_cites_complete (i ∷ ids) (Memᴰ.head same) f =
      rw (← same, f, resolve_cites) (Memᴰ.head refl)
  resolve_cites_complete (i ∷ ids) (Memᴰ.tail m) f = elim (Option-cases (lookup_entry idx i)) [
    | inl missing ↦ rw (missing, resolve_cites) (resolve_cites_complete ids m f)
    | inr (found, g) ↦ rw (g, resolve_cites) (Memᴰ.tail (resolve_cites_complete ids m f))
  ]

  widen :
      {p : Pairing} {ps : List Pairing} {resource : String} {e : Entry}
      → Priced idx ps resource e
      → Priced idx (p ∷ ps) resource e
  widen c = record {
    pairing = c.pairing;
    listed = Memᴰ.tail c.listed;
    same = c.same;
    id = c.id;
    cited = c.cited;
    found = c.found;
  }

  resolve_pairings_sound :
      (resource : String) (ps : List Pairing) {e : Entry}
      → Memᴰ e (resolve_pairings idx resource ps)
      → Priced idx ps resource e
  unfolding resolve_pairings
  resolve_pairings_sound resource [] h = absurd (Memᴰ.not-nil h)
  resolve_pairings_sound resource (p ∷ ps) {e} h = elim (Bool-cases (p.resource == resource)) [
    | inr other ↦ widen (resolve_pairings_sound resource ps (rw other at h))
    | inl same ↦
        first ((eq_iff _ _).0 same) (resolve_pairings_sound resource ps)
          (Memᴰ.append_cases (resolve_cites idx p.cite) (rw same at h))
  ]
    where
      first :
          p.resource ≡ resource
          → (Memᴰ e (resolve_pairings idx resource ps) → Priced idx ps resource e)
          → Memᴰ e (resolve_cites idx p.cite) ⊎ Memᴰ e (resolve_pairings idx resource ps)
          → Priced idx (p ∷ ps) resource e
      first same below (inl m) =
          let (i, cited, found) = resolve_cites_sound p.cite m in
          record {
            pairing = p;
            listed = Memᴰ.head refl;
            same = same;
            id = i;
            cited = cited;
            found = found;
          }
      first same below (inr m) = widen (below m)

  resolve_pairings_complete :
      (resource : String) (ps : List Pairing) {e : Entry} {p : Pairing} {id : EntryId}
      → Memᴰ p ps
      → p.resource ≡ resource
      → Memᴰ id p.cite
      → lookup_entry idx id ≡ some e
      → Memᴰ e (resolve_pairings idx resource ps)
  unfolding resolve_pairings
  resolve_pairings_complete resource [] h same cited found = elim h [ ]
  resolve_pairings_complete resource (q ∷ ps) {e} {p} (Memᴰ.head here) same cited found =
      rw (← here, same, eq_refl) (Memᴰ.append_left _ (resolve_cites_complete p.cite cited found))
  resolve_pairings_complete resource (q ∷ ps) (Memᴰ.tail m) same cited found =
      let below = resolve_pairings_complete resource ps m same cited found in
      elim (Bool-cases (q.resource == resource)) [
        | inl matched ↦ rw matched (Memᴰ.append_right (resolve_cites idx q.cite) below)
        | inr other ↦ rw other below
      ]

  -- An entry is resolved for a finding exactly when a pairing of its category, for its resource
  -- and no other, cites an id that the index holds with that entry.
  pub resolve_iff :
      (category resource : String) (e : Entry)
      → Memᴰ e (resolve idx category resource)
        ↔ Priced idx (Option.get_or (lookup category idx.mapping) []) resource e
  unfolding resolve
  resolve_iff category resource e = (
    λ h. resolve_pairings_sound resource _ h,
    λ c. resolve_pairings_complete resource _ c.listed c.same c.cited c.found,
  )
