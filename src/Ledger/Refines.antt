-- ===== src/Ledger/Refines.antt =====
-- The object store (memStore of cmd/triage-eval/main.go, and a bucket with faults) keeps the contract
-- of ledger.Store.
use mathlib.Core.List.{[]}
use mathlib.Core.Path.{fun_ext}
use ai_k8s.Prelude.{
  ◌<>◌, ◌≡◌, refl, ap, ◌∙◌, subst, inl, inr, String, Option, List, ◌∷◌, Eq-string, Result,
  Option-cases,
}
use ai_k8s.Corpus.Index.{lookup}
use ai_k8s.Corpus.Maps.{lookup-cons}
use ai_k8s.Ledger.Store.{
  Fault, fine, lost, unsure, next_fault, Store, stepped, create_at, create, names_under, list, read,
}
use ai_k8s.Ledger.Furthest.{names_under_sound, names_under_complete}
use ai_k8s.Ledger.Contract.{
  Call, create_call, list_call, read_call, created, listed, got, claim, replay_call, replay,
  first_wins, Agrees, Follows, perform, perform_all, view,
}

module _ {Bytes : Type 0} where
  create_at-view :
      (name : String) (body : Bytes) (st : Store Bytes)
      → ((create_at name body st).0 ≡ first_wins (lookup name st.objects))
        × (view (create_at name body st).1
            ≡ record { holds = claim name body (λ n. lookup n st.objects); script = st.script })
  unfolding create_at
  create_at-view name body st = elim (Option-cases (lookup name st.objects)) [
    | inr (old, there) ↦ rw (create_at, there) (refl, rw (claim, there) refl)
    | inl free ↦
        rw (create_at, free)
          (
            refl,
            rw (claim, free)
                (ap (λ (h : String → Option Bytes). record { holds = h; script = st.script })
                  (fun_ext λ asked. lookup-cons name asked body st.objects)),
          )
  ]

  abbrev CreateKeeps : String → Bytes → Store Bytes → Result (Unit {0}) × Store Bytes → Type 0
  CreateKeeps name body st q =
      Agrees (create_call name body) (view st) (created q.0)
      × (view q.1 ≡ replay_call (create_call name body) (view st))

  create-Keeps :
      (name : String) (body : Bytes) (st : Store Bytes)
      → CreateKeeps name body st (create name body st)
  unfolding create
  create-Keeps name body st = by_fault (next_fault st.script) refl
    where
      by_fault :
          (f : Fault) → next_fault st.script ≡ f → CreateKeeps name body st (create name body st)
      by_fault fine e =
          let (answer, held) = create_at-view name body (stepped st) in
          rw (create, e) ((λ h. answer, λ h. absurd (h refl)), held)
      by_fault lost e = rw (create, e) ((λ h. cc h, λ h. ("write " <> name, refl)), refl)
      by_fault unsure e =
          let (answer, held) = create_at-view name body (stepped st) in
          rw (create, e) ((λ h. cc h, λ h. ("close " <> name, refl)), held)

  read-Keeps :
      (name : String) (st : Store Bytes)
      → Agrees (read_call name) (view st) (got (read name st).0)
        × (view (read name st).1 ≡ replay_call (read_call name) (view st))
  unfolding read
  read-Keeps name st = by_fault (next_fault st.script) refl
    where
      by_fault :
          (f : Fault)
          → next_fault st.script ≡ f
          → Agrees (read_call name) (view st) (got (read name st).0)
            × (view (read name st).1 ≡ replay_call (read_call name) (view st))
      by_fault fine e = rw (read, e) ((λ h. refl, λ h. absurd (h refl)), refl)
      by_fault lost e = rw (read, e) ((λ h. cc h, λ h. ("read " <> name, refl)), refl)
      by_fault unsure e = rw (read, e) ((λ h. cc h, λ h. ("read " <> name, refl)), refl)

  list-Keeps :
      (prefix : String) (st : Store Bytes)
      → Agrees (list_call prefix) (view st) (listed (list prefix st).0)
        × (view (list prefix st).1 ≡ replay_call (list_call prefix) (view st))
  unfolding list
  list-Keeps prefix st = by_fault (next_fault st.script) refl
    where
      by_fault :
          (f : Fault)
          → next_fault st.script ≡ f
          → Agrees (list_call prefix) (view st) (listed (list prefix st).0)
            × (view (list prefix st).1 ≡ replay_call (list_call prefix) (view st))
      by_fault fine e =
          rw (list, e)
            (
              (
                λ h. (
                  names_under prefix st.objects,
                  refl,
                  λ name. (
                    λ m. names_under_sound prefix st.objects m,
                    λ k. names_under_complete prefix st.objects name k.0 k.1.1,
                  ),
                ),
                λ h. absurd (h refl),
              ),
              refl,
            )
      by_fault lost e = rw (list, e) ((λ h. cc h, λ h. ("list " <> prefix, refl)), refl)
      by_fault unsure e = rw (list, e) ((λ h. cc h, λ h. ("list " <> prefix, refl)), refl)

  perform-Keeps :
      (call : Call Bytes) (st : Store Bytes)
      → Agrees call (view st) (perform call st).0
        × (view (perform call st).1 ≡ replay_call call (view st))
  perform-Keeps (create_call name body) st = create-Keeps name body st
  perform-Keeps (list_call prefix) st = list-Keeps prefix st
  perform-Keeps (read_call name) st = read-Keeps name st

  -- Through any calls and faults, the store answers as a map does that is written once for each name,
  -- and ends as that map: a create claims a free name and is told `exists` on another, a read finds what
  -- its name holds, and a list gives the names with the prefix; a call that fails does so without a
  -- sentinel, and a create that fails may have claimed its name.
  pub perform_all-Follows :
      (calls : List (Call Bytes)) (st : Store Bytes)
      → Follows calls (view st) (perform_all calls st).0
        × (view (perform_all calls st).1 ≡ replay calls (view st))
  unfolding perform_all replay
  perform_all-Follows [] st = (tt, refl)
  perform_all-Follows (call ∷ calls) st =
      let (agrees, held) = perform-Keeps call st in
      let (rest, last) = perform_all-Follows calls (perform call st).1 in
      (
        (agrees, subst (λ c. Follows calls c (perform_all calls (perform call st).1).0) held rest),
        last ∙ ap (replay calls) held,
      )
