-- ===== src/Corpus/Add.antt =====
-- `Index.Add` (index.go): when an entry is taken in, and what the index then holds.
use ai_k8s.Prelude.{
  false, ok, ◌≡◌, sym, ◌∙◌, subst, ◌↔◌, inl, inr, none, some, if◌then◌else◌, ◌==◌, Eq-string,
  eq_iff, Bool-cases, Option-cases, Result-cases,
}
use ai_k8s.Scc.{blank}
use ai_k8s.Corpus.Index.{EntryId, Kind, Entry, Index, insert, lookup_entry, parse_id, add}
use ai_k8s.Corpus.Maps.{lookup-insert}

abbrev pub taken : Entry → Kind → Entry
taken e kind = record e { kind = kind }

abbrev grown : Index → Entry → Kind → Index
grown idx e kind = record idx { entries = insert e.id (taken e kind) idx.entries }

-- What `Add` asks of an entry, and the index that it leaves.
pub record Adds (idx : Index) (e : Entry) (idx' : Index) : Type 0 where
  pub kind : Kind
  pub parsed : parse_id e.id ≡ ok kind
  pub says : blank e.summary ≡ false
  pub fresh : lookup_entry idx e.id ≡ none
  pub left : idx' ≡ record idx { entries = insert e.id (record e { kind = kind }) idx.entries }

-- `Add` succeeds exactly on an entry with a well-formed id, a summary and an id that the index
-- lacks, and then it adds that entry under the kind of its id and changes nothing else.
pub add_iff : (idx : Index) (e : Entry) (idx' : Index) → (add idx e ≡ ok idx') ↔ Adds idx e idx'
unfolding add
add_iff idx e idx' = (forth, back)
  where
    forth : add idx e ≡ ok idx' → Adds idx e idx'
    forth h = elim (Result-cases (parse_id e.id)) [
      | inr (why, bad) ↦ cc (rw (bad, add) at h)
      | inl (kind, parsed) ↦ elim (Bool-cases (blank e.summary)) [
        | inl empty ↦ cc (rw (parsed, empty, add) at h)
        | inr says ↦ elim (Option-cases (lookup_entry idx e.id)) [
          | inr (seen, old) ↦ cc (rw (parsed, says, old, add) at h)
          | inl fresh ↦ record {
            kind = kind;
            parsed = parsed;
            says = says;
            fresh = fresh;
            left = cc (rw (parsed, says, fresh, add) at h);
          }
        ]
      ]
    ]

    back : Adds idx e idx' → add idx e ≡ ok idx'
    back a = rw (a.parsed, a.says, a.fresh, add) (rw a.left)

-- Every entry stands under its own id, of its own kind, and says something.
abbrev pub IsWellFormed : Index → Type 0
IsWellFormed idx =
    (id : EntryId) (e : Entry)
    → lookup_entry idx id ≡ some e
    → (e.id ≡ id) × (parse_id id ≡ ok e.kind) × (blank e.summary ≡ false)

pub lookup_entry-add :
    {idx : Index} {e : Entry} {idx' : Index} (a : Adds idx e idx') (id : EntryId)
    → lookup_entry idx' id ≡ (if e.id == id then some (taken e a.kind) else lookup_entry idx id)
unfolding lookup_entry
lookup_entry-add {idx} {e} a id = rw a.left (lookup-insert e.id id (taken e a.kind) idx.entries)

-- `Add` keeps the index well-formed, and every entry that it already held.
pub add-IsWellFormed :
    (idx : Index) (e : Entry) (idx' : Index)
    → IsWellFormed idx
    → add idx e ≡ ok idx'
    → IsWellFormed idx'
      × ((id : EntryId) (old : Entry)
          → lookup_entry idx id ≡ some old
          → lookup_entry idx' id ≡ some old)
add-IsWellFormed idx e idx' wf h =
    let a = (add_iff idx e idx').0 h in
    (λ id new found. entry a id new found, λ id old found. kept a id old found)
  where
    entry :
        Adds idx e idx'
        → (id : EntryId) (new : Entry) → lookup_entry idx' id ≡ some new
        → (new.id ≡ id) × (parse_id id ≡ ok new.kind) × (blank new.summary ≡ false)
    entry a id new found = elim (Bool-cases (e.id == id)) [
      | inr other ↦ wf id new (sym (rw other at (lookup_entry-add a id)) ∙ found)
      | inl same ↦
          let e' : taken e a.kind ≡ new = cc (rw same at (lookup_entry-add a id), found) in
          let at = (eq_iff e.id id).0 same in
          subst (λ x. (x.id ≡ id) × (parse_id id ≡ ok x.kind) × (blank x.summary ≡ false)) e'
            (at, rw (← at) a.parsed, a.says)
    ]

    kept :
        Adds idx e idx'
        → (id : EntryId) (old : Entry) → lookup_entry idx id ≡ some old
        → lookup_entry idx' id ≡ some old
    kept a id old found = elim (Bool-cases (e.id == id)) [
      | inr other ↦ lookup_entry-add a id ∙ rw other found
      | inl same ↦ cc ((eq_iff e.id id).0 same, a.fresh)
    ]
