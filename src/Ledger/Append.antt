-- ===== src/Ledger/Append.antt =====
-- The store is append-only: what one call can do to the objects, faults included.
use mathlib.Core.Path.{subst₂}
use ai_k8s.Prelude.{
  ◌≡◌, refl, sym, ap, ◌∙◌, ◌⊎◌, inl, inr, String, ◌∷◌, true, false, none, some, arith, Option-cases,
  Bool-cases, eq_iff, ◌==◌, Eq-string, if◌then◌else◌, Result, ok, err, exists,
}
use ai_k8s.Corpus.Index.{lookup}
use ai_k8s.Corpus.Maps.{lookup-cons}
use ai_k8s.Ledger.Store.{
  Fault, fine, lost, unsure, next_fault, Store, stepped, create, create_at, list, read,
}

Fault-cases : (f : Fault) → (f ≡ fine) ⊎ ((f ≡ lost) ⊎ (f ≡ unsure))
Fault-cases fine = inl refl
Fault-cases lost = inr (inl refl)
Fault-cases unsure = inr (inr refl)

module _ {Bytes : Type 0} where
  -- A create leaves the objects as they are, or puts one in front under a name that was free.
  abbrev pub Grows : String → Bytes → Store Bytes → Store Bytes → Type 0
  Grows name body st st' =
      (st'.objects ≡ st.objects)
      ⊎ ((lookup name st.objects ≡ none) × (st'.objects ≡ (name, body) ∷ st.objects))

  -- What `Grows` and an answer without an error say together.
  abbrev pub Created : String → Bytes → Store Bytes → Result (Unit {0}) × Store Bytes → Type 0
  Created name body st (r, st') =
      Grows name body st st'
      × (r ≡ ok tt → (lookup name st.objects ≡ none) × (st'.objects ≡ (name, body) ∷ st.objects))

  create_at-Created :
      (name : String) (body : Bytes) (st : Store Bytes)
      → Created name body st (create_at name body st)
  unfolding create_at
  create_at-Created name body st = elim (Option-cases (lookup name st.objects)) [
    | inl free ↦ rw (free, create_at) (inr (refl, refl), λ _. (refl, refl))
    | inr (old, taken) ↦ rw (taken, create_at) (inl refl, λ h. cc h)
  ]

  -- One call of `Create`, however it goes: nothing is overwritten, and success means one new object.
  pub create-Created :
      (name : String) (body : Bytes) (st : Store Bytes) → Created name body st (create name body st)
  unfolding create
  create-Created name body st = elim (Fault-cases (next_fault st.script)) [
    | inl e ↦ rw (e, create) (create_at-Created name body (stepped st))
    | inr (inl e) ↦ rw (e, create) (inl refl, λ h. cc h)
    | inr (inr e) ↦ rw (e, create) ((create_at-Created name body (stepped st)).0, λ h. cc h)
  ]

  create_at-exists :
      (name : String) (body : Bytes) (st : Store Bytes)
      → (create_at name body st).0 ≡ err exists
      → (old : Bytes) × (lookup name st.objects ≡ some old)
  unfolding create_at
  create_at-exists name body st h = elim (Option-cases (lookup name st.objects)) [
    | inl free ↦ cc (rw (free, create_at) at h)
    | inr taken ↦ taken
  ]

  -- `ErrExists` is only said of an object that is there.
  pub create-exists :
      (name : String) (body : Bytes) (st : Store Bytes)
      → (create name body st).0 ≡ err exists
      → (old : Bytes) × (lookup name st.objects ≡ some old)
  unfolding create
  create-exists name body st h = elim (Fault-cases (next_fault st.script)) [
    | inl e ↦ create_at-exists name body (stepped st) (rw (e, create) at h)
    | inr (inl e) ↦ cc (rw (e, create) at h)
    | inr (inr e) ↦ cc (rw (e, create) at h)
  ]

  pub read-ok :
      (name : String) (st : Store Bytes) (body : Bytes)
      → (read name st).0 ≡ ok body
      → lookup name st.objects ≡ some body
  unfolding read
  read-ok name st body h = elim (Option-cases (lookup name st.objects)) [
    | inl missing ↦ ground (arith, missing)
    | inr (old, found) ↦ ground (arith, found)
  ]

  pub list-objects : (prefix : String) (st : Store Bytes) → (list prefix st).1.objects ≡ st.objects
  unfolding list
  list-objects prefix st = ground arith

  pub read-objects : (name : String) (st : Store Bytes) → (read name st).1.objects ≡ st.objects
  unfolding read
  read-objects name st = ground arith

module _ {Bytes : Type 0} (Q : String → Bytes → Type 0) where
  -- Every object is kept as it was, and each new one is of the kind `Q`.
  pub record Within (st st' : Store Bytes) : Type 0 where
    pub kept :
        (name : String) (body : Bytes)
        → lookup name st.objects ≡ some body
        → lookup name st'.objects ≡ some body
    pub new :
        (name : String) (body : Bytes)
        → lookup name st'.objects ≡ some body
        → (lookup name st.objects ≡ some body) ⊎ Q name body

  pub Within-of_eq : {st st' : Store Bytes} → st'.objects ≡ st.objects → Within st st'
  Within-of_eq e = record {
    kept = λ name body h. ap (lookup name) e ∙ h;
    new = λ name body h. inl (ap (lookup name) (sym e) ∙ h);
  }

  pub Within-refl : (st : Store Bytes) → Within st st
  Within-refl st = Within-of_eq refl

  pub Within-trans : {st st' st'' : Store Bytes} → Within st st' → Within st' st'' → Within st st''
  Within-trans {st} {st'} v w = record {
    kept = λ name body h. w.kept name body (v.kept name body h);
    new = λ name body h. step name body (w.new name body h);
  }
    where
      step :
          (name : String) (body : Bytes)
          → (lookup name st'.objects ≡ some body) ⊎ Q name body
          → (lookup name st.objects ≡ some body) ⊎ Q name body
      step name body (inl old) = v.new name body old
      step name body (inr q) = inr q

  pub Within-of_Grows :
      (name : String) (body : Bytes) {st st' : Store Bytes}
      → Q name body
      → Grows name body st st'
      → Within st st'
  Within-of_Grows name body q (inl same) = Within-of_eq same
  Within-of_Grows name body {st} {st'} q (inr (free, more)) = record {
    kept = λ j old h. after j old h (Bool-cases (name == j));
    new = λ j b h. before j b h (Bool-cases (name == j));
  }
    where
      look :
          (j : String)
          → lookup j st'.objects ≡ (if name == j then some body else lookup j st.objects)
      look j = ap (lookup j) more ∙ lookup-cons name j body st.objects

      after :
          (j : String) (old : Bytes)
          → lookup j st.objects ≡ some old
          → ((name == j) ≡ true) ⊎ ((name == j) ≡ false)
          → lookup j st'.objects ≡ some old
      after j old h (inl same) = cc ((eq_iff name j).0 same, free)
      after j old h (inr differ) = look j ∙ rw differ h

      before :
          (j : String) (b : Bytes)
          → lookup j st'.objects ≡ some b
          → ((name == j) ≡ true) ⊎ ((name == j) ≡ false)
          → (lookup j st.objects ≡ some b) ⊎ Q j b
      before j b h (inl same) =
          let e : body ≡ b = cc (rw same at (look j), h) in
          inr (subst₂ Q ((eq_iff name j).0 same) e q)
      before j b h (inr differ) = inl (cc (rw differ at (look j), h))
