-- ===== src/Worker/Reuse.antt =====
-- What `Handle` (internal/worker/worker.go) never does: change what is recorded, or settle a finding
-- that is classified.
use ai_k8s.Prelude.{
  ◌≡◌, refl, sym, ◌∙◌, String, Bool-cases, false, Option, some, inl, inr, Result, ok, err, Error,
  ok-injective,
}
use ai_k8s.Platform.{Platform}
use ai_k8s.Scc.{Envelope, key}
use ai_k8s.Corpus.Index.{lookup}
use ai_k8s.Ledger.Store.{Store}
use ai_k8s.Ledger.State.{
  State, classified, is_state, object_name, before, write, read_state, furthest,
}
use ai_k8s.Ledger.Append.{
  Within, Within-refl, Within-of_eq, Within-trans, Within-of_Grows, create-Created, read-objects,
}
use ai_k8s.Ledger.Furthest.{furthest-objects}
use ai_k8s.Model.Ceiling.{IsReservation}
use ai_k8s.Model.Settle.{Memory}
use ai_k8s.Worker.Decide.{Decision}
use ai_k8s.Worker.Deciding.{decide-Within}
use ai_k8s.Worker.Flow.{Flow, done, fail, exited}
use ai_k8s.Worker.World.{World, Worker}
use ai_k8s.Worker.Safe.{Within-map}
use ai_k8s.Worker.Frame.{Frame, Always, read_classified-Always, triage-Always}
use ai_k8s.Worker.Framed.{handle-frame}
use ai_k8s.Worker.Handle.{after_decide, settle_finding, record_for, triage, handle}

module _ (P : Platform) (wk : Worker P) where
  -- The state after a step that keeps a property.
  Always-state :
      {A : Type 0} (I : World P → Type 0) (res : Flow A × World P) → Always P wk I res → I res.1
  Always-state I (done a, w) i = i
  Always-state I (fail e, w) i = i
  Always-state I (exited, w) i = i

  remembering : (m : Memory P) → Frame P wk (λ w. w.memory ≡ m)
  remembering m = record {
    counted = λ w c i. i;
    logged = λ w tr i. i;
    notified = λ w es i. i;
    wrote = λ w k s r i. i;
    looked = λ w k i. i;
    read = λ w k s i. i;
  }

  reused :
      (k : String) (s : State) (seen : Option State) (env : Envelope) (e : Option Error)
      (w : World P) (m : Memory P)
      → before s classified ≡ false
      → seen ≡ some s
      → w.memory ≡ m
      → Always P wk (λ v. v.memory ≡ m) (record_for P wk k seen env e w)
  unfolding record_for
  reused k s seen env e w m late e₁ i =
      rw (e₁, late) (read_classified-Always P wk (λ v. v.memory ≡ m) (remembering m) k w i)

  -- A finding that the ledger has as classified or further is not settled again: its redelivery
  -- calls no model, reserves no money and reads no clock, however it ends.
  pub triage-memory :
      (env : Envelope) (e : Option Error) (w : World P) (s : State)
      → (furthest (key env.finding) w.store).0 ≡ ok (some s)
      → before s classified ≡ false
      → (triage P wk env e w).1.memory ≡ w.memory
  triage-memory env e w s far late =
      Always-state (λ v. v.memory ≡ w.memory) (triage P wk env e w)
        (triage-Always P wk (λ v. v.memory ≡ w.memory) (remembering w.memory) env e w refl
          (λ seen w' found i.
            reused (key env.finding) s seen env e w' w.memory late (ok-injective (sym found ∙ far))
              i))

  -- Whatever the new objects are.
  abbrev Any : String → P.Bytes → Type 0
  Any name body = Unit {0}

  write-grows :
      (k : String) (s : State) (body : P.Bytes) (st : Store P.Bytes)
      → Within Any st (write k s body st).1
  unfolding write
  write-grows k s body st = elim (Bool-cases (is_state s)) [
    | inl proper ↦
        rw proper (
          Within-of_Grows Any (object_name k s) body tt
            (create-Created (object_name k s) body st).0)
    | inr improper ↦ rw improper (Within-refl Any st)
  ]

  keeping : (st : Store P.Bytes) → Frame P wk (λ w. Within Any st w.store)
  unfolding read_state
  keeping st = record {
    counted = λ w c i. i;
    logged = λ w tr i. i;
    notified = λ w es i. i;
    wrote = λ w k s r i. Within-trans Any i (write-grows k s (P.marshal_record r) w.store);
    looked = λ w k i. Within-trans Any i (Within-of_eq Any (furthest-objects k w.store));
    read =
        λ w k s i. Within-trans Any i (Within-of_eq Any (read-objects (object_name k s) w.store));
  }

  decided-grows :
      (st : Store P.Bytes) (w : World P) (res : Result Decision × (Memory P × Store P.Bytes))
      → Within Any st res.1.1
      → Always P wk (λ v. Within Any st v.store) (after_decide P wk res w)
  unfolding after_decide
  decided-grows st w (ok d, (m, st')) i = i
  decided-grows st w (err e, (m, st')) i = i

  settle_finding-grows :
      (st : Store P.Bytes) (env : Envelope) (e : Option Error) (w : World P)
      → Within Any st w.store
      → Always P wk (λ v. Within Any st v.store) (settle_finding P wk env e w)
  unfolding settle_finding
  settle_finding-grows st env e w i = decided-grows st w _ (
      Within-trans Any i (
        Within-map P (IsReservation P) Any (λ name body _. tt)
          (decide-Within P wk.index env wk.model e wk.provenance w.memory w.store)))

  -- The bucket is append-only: a delivery overwrites and removes no object, however it ends.
  pub handle-kept :
      (body : P.Bytes) (w : World P) (name : String) (object : P.Bytes)
      → lookup name w.store.objects ≡ some object
      → lookup name (handle P wk body w).store.objects ≡ some object
  handle-kept body w name object found =
      (handle-frame P wk (λ v. Within Any w.store v.store) (keeping w.store)
          (settle_finding-grows w.store) body w (Within-refl Any w.store)).kept
        name object found
