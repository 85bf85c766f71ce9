-- ===== src/Ledger/Calm.antt =====
-- A store with no fault to come: its calls do what they should, and it stays without one.
use mathlib.Core.List.{[]}
use ai_k8s.Prelude.{
  ◌≡◌, refl, ap, ◌∙◌, ◌⊎◌, inl, inr, String, Option, some, Option-cases, eq_refl, Eq-string, Result,
  ok, err, exists,
}
use ai_k8s.Corpus.Index.{lookup}
use ai_k8s.Corpus.Maps.{lookup-cons}
use ai_k8s.Ledger.Store.{Store, stepped, rest_faults, create, create_at, list, read}
use ai_k8s.Ledger.State.{State, furthest}

module _ {Bytes : Type 0} where
  -- The create is done, or the object was there.
  abbrev pub Stored : String → Result (Unit {0}) × Store Bytes → Type 0
  Stored name (r, st') =
      ((r ≡ ok tt) ⊎ (r ≡ err exists))
      × (st'.script ≡ [])
      × ((object : Bytes) × (lookup name st'.objects ≡ some object))

  create_at-Stored :
      (name : String) (body : Bytes) (st : Store Bytes)
      → st.script ≡ []
      → Stored name (create_at name body st)
  unfolding create_at
  create_at-Stored name body st calm = elim (Option-cases (lookup name st.objects)) [
    | inl free ↦
        rw (free, create_at)
          (inl refl, calm, (body, lookup-cons name name body st.objects ∙ rw eq_refl))
    | inr (old, taken) ↦ rw (taken, create_at) (inr refl, calm, (old, taken))
  ]

  pub create-Stored :
      (name : String) (body : Bytes) (st : Store Bytes)
      → st.script ≡ []
      → Stored name (create name body st)
  unfolding create
  create-Stored name body st calm =
      rw (calm, create) (create_at-Stored name body (stepped st) (ap rest_faults calm))

  pub read-calm : (name : String) (st : Store Bytes) → st.script ≡ [] → (read name st).1.script ≡ []
  unfolding read
  read-calm name st calm = rw (calm, read) refl

  pub read-found :
      (name : String) (st : Store Bytes) (body : Bytes)
      → st.script ≡ []
      → lookup name st.objects ≡ some body
      → (read name st).0 ≡ ok body
  unfolding read
  read-found name st body calm found = rw (calm, found, read) refl

  -- `Furthest` answers.
  pub furthest-calm :
      (key : String) (st : Store Bytes)
      → st.script ≡ []
      → ((seen : Option State) × ((furthest key st).0 ≡ ok seen))
        × ((furthest key st).1.script ≡ [])
  unfolding furthest list
  furthest-calm key st calm = rw (calm, furthest) ((_, refl), refl)
