-- ===== src/Ledger/Contract.antt =====
-- The contract of ledger.Store: a map that is written once for each name. The store of
-- cmd/triage-eval/main.go keeps it, with a bucket's faults in between.
use mathlib.Core.List.{[], Memᴰ}
use ai_k8s.Prelude.{
  ◌≡◌, ◌≢◌, ◌↔◌, String, true, Option, none, some, List, ◌∷◌, if◌then◌else◌, ◌==◌, Eq-string,
  Result, ok, err, exists, failed,
}
use ai_k8s.Text.{has_prefix}
use ai_k8s.Corpus.Index.{lookup}
use ai_k8s.Ledger.Store.{
  Fault, fine, lost, unsure, next_fault, rest_faults, Store, create, list, found_or, read,
}

-- An error without a sentinel.
abbrev pub Fails : {A : Type 0} → Result A → Type 0
Fails r = (why : String) × (r ≡ err (failed why))

module _ (Bytes : Type 0) where
  pub data Call : Type 0 where
    create_call : String → Bytes → Call
    list_call : String → Call
    read_call : String → Call

  pub data Answer : Type 0 where
    created : Result (Unit {0}) → Answer
    listed : Result (List String) → Answer
    got : Result Bytes → Answer

  -- The abstract store: what each name holds, and how the calls to come will go.
  pub record Contents : Type 0 where
    pub holds : String → Option Bytes
    pub script : List Fault

module _ {Bytes : Type 0} where
  -- A name takes its first value and keeps it.
  abbrev pub claim : String → Bytes → (String → Option Bytes) → String → Option Bytes
  claim name body holds = elim (holds name) [
    | some old ↦ holds
    | none ↦ λ asked. if name == asked then some body else holds asked
  ]

  abbrev pub claims : Fault → String → Bytes → (String → Option Bytes) → String → Option Bytes
  claims lost name body holds = holds
  claims fine name body holds = claim name body holds
  claims unsure name body holds = claim name body holds

  -- What a call makes of the abstract store.
  abbrev pub replay_call : Call Bytes → Contents Bytes → Contents Bytes
  replay_call (create_call name body) c = record {
    holds = claims (next_fault c.script) name body c.holds;
    script = rest_faults c.script;
  }
  replay_call (list_call prefix) c = record c { script = rest_faults c.script }
  replay_call (read_call name) c = record c { script = rest_faults c.script }

  unfoldable pub replay : List (Call Bytes) → Contents Bytes → Contents Bytes
  replay [] c = c
  replay (call ∷ calls) c = replay calls (replay_call call c)

  abbrev pub first_wins : Option Bytes → Result (Unit {0})
  first_wins none = ok tt
  first_wins (some old) = err exists

  -- What a call may answer.
  abbrev pub Agrees : Call Bytes → Contents Bytes → Answer Bytes → Type 0
  Agrees (create_call name body) c (created r) =
      (next_fault c.script ≡ fine → r ≡ first_wins (c.holds name))
      × (next_fault c.script ≢ fine → Fails r)
  Agrees (list_call prefix) c (listed r) =
      (next_fault c.script ≡ fine
        → (names : List String) × (r ≡ ok names)
          × ((name : String)
              → Memᴰ name names ↔ (
                  (has_prefix name prefix ≡ true) × ((body : Bytes) × (c.holds name ≡ some body)))))
      × (next_fault c.script ≢ fine → Fails r)
  Agrees (read_call name) c (got r) =
      (next_fault c.script ≡ fine → r ≡ found_or (c.holds name))
      × (next_fault c.script ≢ fine → Fails r)
  Agrees _ _ _ = ⊥

  abbrev pub Follows : List (Call Bytes) → Contents Bytes → List (Answer Bytes) → Type 0
  Follows [] c [] = Unit
  Follows [] c (a ∷ others) = ⊥
  Follows (call ∷ calls) c [] = ⊥
  Follows (call ∷ calls) c (a ∷ others) =
      Agrees call c a × Follows calls (replay_call call c) others

  -- The store's own calls.
  abbrev pub perform : Call Bytes → Store Bytes → Answer Bytes × Store Bytes
  perform (create_call name body) st = let (r, st') = create name body st in (created r, st')
  perform (list_call prefix) st = let (r, st') = list prefix st in (listed r, st')
  perform (read_call name) st = let (r, st') = read name st in (got r, st')

  unfoldable pub perform_all : List (Call Bytes) → Store Bytes → List (Answer Bytes) × Store Bytes
  perform_all [] st = ([], st)
  perform_all (call ∷ calls) st =
      let (a, st') = perform call st in
      let (others, st'') = perform_all calls st' in (a ∷ others, st'')

  -- What a store holds, as a map.
  abbrev pub view : Store Bytes → Contents Bytes
  view st = record { holds = λ name. lookup name st.objects; script = st.script }
