-- ===== src/Ledger/Store.antt =====
-- The object store (ledger.Store): what `memStore` of cmd/triage-eval/main.go does, and the
-- failures of a remote bucket, which a script names call by call.
use mathlib.Core.List.{[]}
use ai_k8s.Prelude.{
  ◌<>◌, String, Bool, true, false, Option, none, some, List, ◌∷◌, if◌then◌else◌, Eq-string, Result,
  ok, err, exists, not_found, failed,
}
use ai_k8s.Text.{has_prefix}
use ai_k8s.Corpus.Index.{lookup}

-- How one call goes: as it should; lost, with no effect and an error; or unsure, where the store
-- does the work and the answer is an error all the same.
pub data Fault : Type 0 where
  fine lost unsure : Fault

abbrev pub next_fault : List Fault → Fault
next_fault [] = fine
next_fault (f ∷ fs) = f

abbrev pub rest_faults : List Fault → List Fault
rest_faults [] = []
rest_faults (f ∷ fs) = fs

abbrev pub is_fine : Fault → Bool
is_fine fine = true
is_fine _ = false

module _ (Bytes : Type 0) where
  -- The objects, the newest first, and the faults of the calls to come; past its end the script
  -- has no fault.
  pub record Store : Type 0 where
    pub objects : List (String × Bytes)
    pub script : List Fault

module _ {Bytes : Type 0} where
  abbrev pub stepped : Store Bytes → Store Bytes
  stepped st = record st { script = rest_faults st.script }

  abbrev pub with_object : String → Bytes → Store Bytes → Store Bytes
  with_object name body st = record st { objects = (name, body) ∷ st.objects }

  -- A create that reaches the store: it refuses an object that is there.
  unfoldable pub create_at : String → Bytes → Store Bytes → Result (Unit {0}) × Store Bytes
  create_at name body st = elim (lookup name st.objects) [
    | some old ↦ (err exists, st)
    | none ↦ (ok tt, with_object name body st)
  ]

  abbrev unanswered : String → Result (Unit {0}) × Store Bytes → Result (Unit {0}) × Store Bytes
  unanswered name (r, st) = (err (failed ("close " <> name)), st)

  -- `Store.Create`: create-only.
  unfoldable pub create : String → Bytes → Store Bytes → Result (Unit {0}) × Store Bytes
  create name body st = elim (next_fault st.script) [
    | fine ↦ create_at name body (stepped st)
    | lost ↦ (err (failed ("write " <> name)), stepped st)
    | unsure ↦ unanswered name (create_at name body (stepped st))
  ]

  unfoldable pub names_under : String → List (String × Bytes) → List String
  names_under prefix [] = []
  names_under prefix ((name, body) ∷ objects) =
      let rest = names_under prefix objects in if has_prefix name prefix then name ∷ rest else rest

  -- `Store.List`
  unfoldable pub list : String → Store Bytes → Result (List String) × Store Bytes
  unfolding names_under
  list prefix st =
      if is_fine (next_fault st.script)
      then (ok (names_under prefix st.objects), stepped st)
      else (err (failed ("list " <> prefix)), stepped st)

  abbrev pub found_or : Option Bytes → Result Bytes
  found_or none = err not_found
  found_or (some body) = ok body

  -- `Store.Read`
  unfoldable pub read : String → Store Bytes → Result Bytes × Store Bytes
  read name st =
      if is_fine (next_fault st.script)
      then (found_or (lookup name st.objects), stepped st)
      else (err (failed ("read " <> name)), stepped st)
