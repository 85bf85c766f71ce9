-- ===== src/Corpus/Load/Keeps.antt =====
-- internal/corpus: what one `Add` and a run of them leave of an index, for the loaders' proofs.
use mathlib.Core.List.{[]}
use ai_k8s.Prelude.{
  ◌≡◌, ◌≢◌, refl, sym, ◌∙◌, subst, ◌⊎◌, inl, inr, true, some, List, ◌∷◌, ok, All, ◌==◌, Eq-string,
  eq_iff, Bool-cases,
}
use ai_k8s.Text.{has_prefix}
use ai_k8s.Corpus.Index.{
  Kind, control, EntryId, Entry, Index, new_index, lookup_entry, parse_id, add,
}
use ai_k8s.Corpus.Add.{add_iff, IsWellFormed, add-IsWellFormed, lookup_entry-add, taken}

-- A control names full resources, at least one; no other entry names any.
abbrev pub IsStanding : Entry → Type 0
IsStanding e =
    ((e.kind ≡ control) × (e.applies_to ≢ []) × All (λ r. has_prefix r "//" ≡ true) e.applies_to)
    ⊎ ((e.kind ≢ control) × (e.applies_to ≡ []))

-- What the loaders build up.
pub record IsBuilt (idx : Index) : Type 0 where
  pub formed : IsWellFormed idx
  pub standing : (id : EntryId) (e : Entry) → lookup_entry idx id ≡ some e → IsStanding e

-- Every entry of the one index stands in the other.
abbrev pub Retains : Index → Index → Type 0
Retains idx idx' =
    (id : EntryId) (e : Entry) → lookup_entry idx id ≡ some e → lookup_entry idx' id ≡ some e

-- One index grew out of another by well-formed entries.
pub record Keeps (idx idx' : Index) : Type 0 where
  pub kept : Retains idx idx'
  pub built : IsBuilt idx → IsBuilt idx'
  pub mapping : idx'.mapping ≡ idx.mapping

pub unchanged : (idx : Index) → Keeps idx idx
unchanged idx = record { kept = λ id e h. h; built = λ b. b; mapping = refl }

pub Keeps-trans : {a b c : Index} → Keeps a b → Keeps b c → Keeps a c
Keeps-trans k l = record {
  kept = λ id e h. l.kept id e (k.kept id e h);
  built = λ b. l.built (k.built b);
  mapping = l.mapping ∙ k.mapping;
}

pub new_index-IsBuilt : IsBuilt new_index
unfolding lookup_entry
new_index-IsBuilt = record { formed = λ id e h. cc h; standing = λ id e h. cc h }

-- The entry that `Add` takes in stands under its id, with the kind that its id says.
module _ (idx : Index) (e : Entry) (idx' : Index) (added : add idx e ≡ ok idx') where
  pub lookup_entry_of_add :
      (k : Kind) × (parse_id e.id ≡ ok k) × (lookup_entry idx' e.id ≡ some (taken e k))
  lookup_entry_of_add =
      let a = (add_iff idx e idx').0 added in
      (a.kind, a.parsed, lookup_entry-add a e.id ∙ rw ((eq_iff e.id e.id).1 refl) refl)

  add-kept :
      (id : EntryId) (old : Entry)
      → lookup_entry idx id ≡ some old
      → lookup_entry idx' id ≡ some old
  add-kept id old found =
      let a = (add_iff idx e idx').0 added in
      elim (Bool-cases (e.id == id)) [
        | inr other ↦ lookup_entry-add a id ∙ rw other found
        | inl same ↦ cc ((eq_iff e.id id).0 same, a.fresh)
      ]

  add-IsStanding :
      ((k : Kind) → parse_id e.id ≡ ok k → IsStanding (taken e k))
      → ((id : EntryId) (old : Entry) → lookup_entry idx id ≡ some old → IsStanding old)
      → (id : EntryId) (new : Entry) → lookup_entry idx' id ≡ some new
      → IsStanding new
  add-IsStanding stands before id new found =
      let a = (add_iff idx e idx').0 added in
      elim (Bool-cases (e.id == id)) [
        | inr other ↦ before id new (sym (rw other at (lookup_entry-add a id)) ∙ found)
        | inl same ↦
            let here : taken e a.kind ≡ new = cc (rw same at (lookup_entry-add a id), found) in
            subst IsStanding here (stands a.kind a.parsed)
      ]

  pub add-Keeps : ((k : Kind) → parse_id e.id ≡ ok k → IsStanding (taken e k)) → Keeps idx idx'
  add-Keeps stands = record {
    kept = add-kept;
    built = λ b. record {
      formed = (add-IsWellFormed idx e idx' b.formed added).0;
      standing = add-IsStanding stands b.standing;
    };
    mapping = let a = (add_iff idx e idx').0 added in cc (a.left);
  }

-- The index holds an entry, under its own id.
abbrev pub Holds : Index → Entry → Type 0
Holds idx e = lookup_entry idx e.id ≡ some e

-- A step that adds an entry of a kind without resources.
pub plain-Keeps :
    (k : Kind) (idx : Index) (e : Entry) (idx' : Index)
    → (k ≢ control)
    → (e.applies_to ≡ [])
    → ((j : Kind) → parse_id e.id ≡ ok j → j ≡ k)
    → add idx e ≡ ok idx'
    → Keeps idx idx'
plain-Keeps k idx e idx' off none_named reads added =
    add-Keeps idx e idx' added λ j parsed. inr (λ is. off (sym (reads j parsed) ∙ is), none_named)

pub all_kept :
    {A : Type 0} (idx idx' : Index) (k : Retains idx idx') (xs : List A) (entry : A → Entry)
    → All (λ x. Holds idx (entry x)) xs
    → All (λ x. Holds idx' (entry x)) xs
all_kept idx idx' k [] entry h = tt
all_kept idx idx' k (x ∷ xs) entry h =
    (k (entry x).id (entry x) h.0, all_kept idx idx' k xs entry h.1)
