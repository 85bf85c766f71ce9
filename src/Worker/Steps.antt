-- ===== src/Worker/Steps.antt =====
-- Each step of `triage` (internal/worker/worker.go) keeps the invariant of Worker/Safe.
use ai_k8s.Prelude.{
  ◌||◌, ◌≡◌, ◌≢◌, refl, sym, ap, ◌∙◌, ◌⊎◌, inl, inr, String, List, true, not, Option, none, some,
  Option-cases, Bool-cases, Result, ok, err, Error, exists, not_found, failed, model_failed, ◌==◌,
  Eq-string, eq_refl,
}
use ai_k8s.Platform.{Platform}
use ai_k8s.Scc.{Envelope}
use ai_k8s.Corpus.Index.{lookup}
use ai_k8s.Corpus.Maps.{lookup-cons}
use ai_k8s.Verdict.Record.{VerdictRecord}
use ai_k8s.Ledger.Store.{Store}
use ai_k8s.Ledger.State.{
  notification_attempted, State, classified, acknowledged, state_text, is_state, object_name, write,
}
use ai_k8s.Ledger.Append.{Within, Within-of_Grows, create-Created, create-exists}
use ai_k8s.Model.Ceiling.{IsReservation}
use ai_k8s.Model.Apart.{reservation_name-apart}
use ai_k8s.Model.Settle.{Memory}
use ai_k8s.Worker.Decide.{Decision}
use ai_k8s.Worker.Deciding.{decide-Within}
use ai_k8s.Worker.Flow.{Ends}
use ai_k8s.Worker.World.{Event, crashed, World, Worker}
use ai_k8s.Worker.Safe.{
  Recorded, Notified, IsClassified, IsSafe, Allowed, IsSafe-Within, Within-map, reservation-Allowed,
  record-Allowed, IsSafe-event,
}
use ai_k8s.Worker.Handle.{after_decide, settle_finding, tolerate, write_state, crash_if}

module _ (P : Platform) (wk : Worker P) where
  -- The invariant, of a world.
  abbrev pub Safe : World P → Type 0
  Safe w = IsSafe P w.store.objects w.trace

  -- No object says that the finding is classified.
  abbrev pub Unclassified : String → World P → Type 0
  Unclassified k w = lookup (object_name k classified) w.store.objects ≡ none

  tolerate-Ends :
      (M : World P → Type 0) (B : World P → Type 0) (what : String) (res : Result (Unit {0}))
      (w : World P)
      → ((res ≡ ok tt) ⊎ (res ≡ err exists) → M w)
      → B w
      → Ends (λ _. M) B (tolerate P wk what res w)
  unfolding tolerate
  tolerate-Ends M B what (ok tt) w good bad = good (inl refl)
  tolerate-Ends M B what (err exists) w good bad = good (inr refl)
  tolerate-Ends M B what (err not_found) w good bad = bad
  tolerate-Ends M B what (err (model_failed e)) w good bad = bad
  tolerate-Ends M B what (err (failed e)) w good bad = bad

  -- What one write of a record does to the bucket.
  pub write-Within :
      (k : String) (s : State) (r : VerdictRecord) (st : Store P.Bytes) (tr : List Event)
      → is_state s ≡ true
      → (s ≡ acknowledged → Notified P k st.objects tr)
      → (s ≡ notification_attempted → IsClassified P k st.objects)
      → Within (Allowed P st.objects tr) st (write k s (P.marshal_record r) st).1
  unfolding write
  write-Within k s r st tr proper told due = rw proper (
      Within-of_Grows (Allowed P st.objects tr) (object_name k s) (P.marshal_record r)
        (record-Allowed P st.objects tr k s r proper told due)
        (create-Created (object_name k s) (P.marshal_record r) st).0)

  -- A write that answers without an error, or with `ErrExists`, leaves an object under the name;
  -- where the name was free, the object is the record.
  pub write-Recorded :
      (k : String) (r : VerdictRecord) (st : Store P.Bytes)
      → lookup (object_name k classified) st.objects ≡ none
      → ((write k classified (P.marshal_record r) st).0 ≡ ok tt)
        ⊎ ((write k classified (P.marshal_record r) st).0 ≡ err exists)
      → Recorded P k r (write k classified (P.marshal_record r) st).1.objects
  unfolding write
  write-Recorded k r st free (inl stored) =
      let (_, more) =
        (create-Created (object_name k classified) (P.marshal_record r) st).1 stored in
      ap (lookup (object_name k classified)) more
      ∙ lookup-cons (object_name k classified) (object_name k classified) (P.marshal_record r) _
      ∙ rw eq_refl
  write-Recorded k r st free (inr taken) =
      let (old, found) = create-exists (object_name k classified) (P.marshal_record r) st taken in
      cc (free, found)

  -- A name stays free where nothing new may take it.
  pub free_kept :
      (Q : String → P.Bytes → Type 0) (name : String) {st st' : Store P.Bytes}
      → ((body : P.Bytes) → Q name body → ⊥)
      → Within Q st st'
      → lookup name st.objects ≡ none
      → lookup name st'.objects ≡ none
  free_kept Q name {st} {st'} never w free = elim (Option-cases (lookup name st'.objects)) [
    | inl still ↦ still
    | inr (body, found) ↦ absurd (taken body (w.new name body found))
  ]
    where
      taken : (body : P.Bytes) → (lookup name st.objects ≡ some body) ⊎ Q name body → ⊥
      taken body (inl old) = cc (old, free)
      taken body (inr q) = never body q

  reserved-Within :
      (k : String) (w : World P) (m : Memory P) (st : Store P.Bytes)
      → Within (IsReservation P) w.store st
      → Safe w
      → IsSafe P st.objects w.trace
  reserved-Within k w m st grown safe = IsSafe-Within P safe (
      Within-map P (IsReservation P) (Allowed P w.store.objects w.trace)
        (reservation-Allowed P w.store.objects w.trace) grown)

  reserved-free :
      (k : String) {st st' : Store P.Bytes}
      → Within (IsReservation P) st st'
      → lookup (object_name k classified) st.objects ≡ none
      → lookup (object_name k classified) st'.objects ≡ none
  reserved-free k grown free =
      free_kept (IsReservation P) (object_name k classified)
        (λ body (now, nonce, key, e).
          reservation_name-apart P now nonce key k classified refl (sym e))
        grown free

  after_decide-Ends :
      (k : String) (w : World P) (res : Result Decision × (Memory P × Store P.Bytes))
      → Within (IsReservation P) w.store res.1.1
      → Safe w
      → Unclassified k w
      → Ends (λ r w'. Safe w' × Unclassified k w') Safe (after_decide P wk res w)
  unfolding after_decide
  after_decide-Ends k w (ok d, (m, st)) grown safe free =
      (reserved-Within k w m st grown safe, reserved-free k grown free)
  after_decide-Ends k w (err e, (m, st)) grown safe free = reserved-Within k w m st grown safe

  -- Deciding writes reservations at most.
  pub settle_finding-Ends :
      (k : String) (env : Envelope) (e : Option Error) (w : World P)
      → Safe w
      → Unclassified k w
      → Ends (λ r w'. Safe w' × Unclassified k w') Safe (settle_finding P wk env e w)
  unfolding settle_finding
  settle_finding-Ends k env e w safe free =
      after_decide-Ends k w _
        (decide-Within P wk.index env wk.model e wk.provenance w.memory w.store) safe free

  pub write_state-Ends :
      (M : World P → Type 0) (what k : String) (s : State) (r : VerdictRecord) (w : World P)
      → is_state s ≡ true
      → s ≢ acknowledged
      → (s ≡ notification_attempted → IsClassified P k w.store.objects)
      → Safe w
      → (let (res, st) = write k s (P.marshal_record r) w.store in
          Safe (record w { store = st })
          → (res ≡ ok tt) ⊎ (res ≡ err exists)
          → M (record w { store = st }))
      → Ends (λ _. M) Safe (write_state P wk what k s r w)
  unfolding write_state
  write_state-Ends M what k s r w proper early due safe next =
      let safe' : IsSafe P (write k s (P.marshal_record r) w.store).1.objects w.trace =
        IsSafe-Within P safe
          (write-Within k s r w.store w.trace proper (λ e. absurd (early e)) due) in
      tolerate-Ends M Safe what _ _ (next safe') safe'

  -- A crash stops the process, and touches nothing.
  pub crash_if-Ends :
      (M : World P → Type 0) (k : String) (s : State) (w : World P)
      → M w
      → Safe w
      → Ends (λ _. M) Safe (crash_if P wk k s w)
  unfolding crash_if
  crash_if-Ends M k s w m safe =
      elim (Bool-cases
        (state_text wk.crash_at == "" || not (state_text wk.crash_at == state_text s))) [
          | inl off ↦ rw off m
          | inr here ↦ rw here (IsSafe-event P (crashed k) safe (λ j e. cc e))
        ]
