-- ===== src/Worker/Calm.antt =====
-- The steps of a delivery where nothing fails: no fault of the bucket or the notifier, and no crash
-- drill (internal/worker/worker.go). Each of them ends with a value.
use mathlib.Core.List.{[], Memᴰ}
use ai_k8s.Prelude.{
  ◌≡◌, refl, ap, ◌∙◌, ◌⊎◌, inl, inr, String, ◌∷◌, true, ◌&&◌, Option, none, some, Bool-cases,
  Result, ok, err, Error, exists, Eq-string, ok-injective,
}
use ai_k8s.Platform.{Platform}
use ai_k8s.Scc.{Envelope}
use ai_k8s.Corpus.Index.{lookup}
use ai_k8s.Verdict.Record.{VerdictRecord, validate}
use ai_k8s.Verdict.Valid.{HasDigest}
use ai_k8s.Notify.{notifies}
use ai_k8s.Ledger.Store.{Store}
use ai_k8s.Ledger.State.{
  State, received, classified, notification_attempted, acknowledged, state_text, is_state,
  object_name, before, write, read_state,
}
use ai_k8s.Ledger.Calm.{create-Stored, read-calm, furthest-calm}
use ai_k8s.Model.Settle.{Memory}
use ai_k8s.Worker.Decide.{Decision, decide, decide_by, consult, rules_record, revalidated, by_rules}
use ai_k8s.Worker.Half.{finish_of_valid, validate-rules_record}
use ai_k8s.Worker.Flow.{Flow, done, fail, exited, Ends, bind-Ends, bind_flow}
use ai_k8s.Worker.World.{acked, World, Worker}
use ai_k8s.Worker.Handle.{
  after_decide, settle_finding, tolerate, write_state, note_drift, resumed, resume, lift, crash_if,
  write_received, fresh_record, attempt, emit, notify, acknowledge, state_or_unset, record_for,
  advance,
}

module _ (P : Platform) (wk : Worker P) where
  -- No fault is to come.
  abbrev pub Calm : World P → Type 0
  Calm w = (w.store.script ≡ []) × (w.emits ≡ [])

  -- The step ends with a value.
  abbrev pub Reaches : {A : Type 0} → (A → World P → Type 0) → Flow A × World P → Type 0
  Reaches Q = Ends Q (λ _. ⊥)

  pub then_Reaches :
      {A C : Type 0} (M : A → World P → Type 0) (Q : C → World P → Type 0) (res : Flow A × World P)
      (f : A → World P → Flow C × World P)
      → Reaches M res
      → ((a : A) (w : World P) → M a w → Reaches Q (f a w))
      → Reaches Q (bind_flow res.0 f res.1)
  then_Reaches M Q res f h k = bind-Ends (λ _. ⊥) M Q res f h k

  -- Two things that hold at the end, the one in any case.
  pub both_Reaches :
      {A : Type 0} (Q R : A → World P → Type 0) (B : World P → Type 0) (res : Flow A × World P)
      → Reaches Q res
      → Ends R B res
      → Reaches (λ a w. Q a w × R a w) res
  both_Reaches Q R B (done a, w) q r = (q, r)
  both_Reaches Q R B (fail e, w) q r = q
  both_Reaches Q R B (exited, w) q r = q

  tolerate-Reaches :
      (M : World P → Type 0) (what : String) (res : Result (Unit {0})) (w : World P)
      → (res ≡ ok tt) ⊎ (res ≡ err exists)
      → M w
      → Reaches (λ _. M) (tolerate P wk what res w)
  unfolding tolerate
  tolerate-Reaches M what res w (inl e) m = rw (e, tolerate) m
  tolerate-Reaches M what res w (inr e) m = rw (e, tolerate) m

  pub write_state-Reaches :
      (what k : String) (s : State) (r : VerdictRecord) (w : World P)
      → is_state s ≡ true
      → Calm w
      → Reaches (λ _. Calm) (write_state P wk what k s r w)
  unfolding write_state write
  write_state-Reaches what k s r w proper (quiet, heard) =
      let (answer, still, _) = create-Stored (object_name k s) (P.marshal_record r) w.store quiet in
      rw proper (tolerate-Reaches Calm what _ _ answer (still, heard))

  note_drift-Reaches :
      (env : Envelope) (previous : Result P.Bytes) (w : World P)
      → Calm w
      → Reaches (λ _. Calm) (note_drift P wk env previous w)
  unfolding note_drift
  note_drift-Reaches env (ok previous) w calm = calm
  note_drift-Reaches env (err e) w calm = calm

  resumed-Reaches :
      (k : String) (env : Envelope) (seen : Option State) (w : World P)
      → Calm w
      → Reaches (λ _. Calm) (resumed P wk k env (ok seen) w)
  unfolding resumed read_state
  resumed-Reaches k env none w calm = calm
  resumed-Reaches k env (some s) w (quiet, heard) =
      then_Reaches (λ _. Calm) (λ _. Calm) _ _
        (note_drift-Reaches env _ _ (read-calm (object_name k received) w.store quiet, heard))
        (λ _ w' calm. calm)

  pub resume-Reaches :
      (k : String) (env : Envelope) (w : World P)
      → Calm w
      → Reaches (λ _. Calm) (resume P wk k env w)
  unfolding resume
  resume-Reaches k env w (quiet, heard) =
      let ((seen, found), still) = furthest-calm k w.store quiet in
      rw found (resumed-Reaches k env seen _ (still, heard))

  crash_if-Reaches :
      (M : World P → Type 0) (k : String) (s : State) (w : World P)
      → state_text wk.crash_at ≡ ""
      → M w
      → Reaches (λ _. M) (crash_if P wk k s w)
  unfolding crash_if
  crash_if-Reaches M k s w off m = rw off m

  write_received-Reaches :
      (k : String) (seen : Option State) (r : VerdictRecord) (w : World P)
      → Calm w
      → Reaches (λ _. Calm) (write_received P wk k seen r w)
  unfolding write_received
  write_received-Reaches k none r w calm =
      write_state-Reaches "record receipt" k received r w refl calm
  write_received-Reaches k (some s) r w calm = calm

  after_decide-Reaches :
      (d : Decision) (res : Result Decision × (Memory P × Store P.Bytes)) (w : World P)
      → res.0 ≡ ok d
      → res.1.1.script ≡ []
      → w.emits ≡ []
      → validate d.verdict_record ≡ none
      → Reaches (λ r w'. (validate r ≡ none) × Calm w') (after_decide P wk res w)
  unfolding after_decide
  after_decide-Reaches d (ok o, (m, st)) w e quiet heard valid =
      (ap (λ (x : Decision). validate x.verdict_record) (ok-injective e) ∙ valid, (quiet, heard))
  after_decide-Reaches d (err why, (m, st)) w e quiet heard valid = cc e

  -- The rules decide alone, and what they decide validates.
  settle_finding-Reaches :
      (env : Envelope) (e : Option Error) (w : World P)
      → HasDigest env
      → consult P wk.model e (rules_record wk.index env e wk.provenance).verdict ≡ none
      → Calm w
      → Reaches (λ r w'. (validate r ≡ none) × Calm w') (settle_finding P wk env e w)
  unfolding settle_finding decide decide_by
  settle_finding-Reaches env e w digest alone (quiet, heard) =
      let valid = validate-rules_record wk.index env e wk.provenance digest in
      let r = rules_record wk.index env e wk.provenance in
      rw (alone, decide_by)
        (after_decide-Reaches (by_rules r) _ w
          (finish_of_valid env wk.provenance (by_rules r) valid) quiet heard valid)

  lift_valid-Reaches :
      (env : Envelope) (r : VerdictRecord) (w : World P)
      → validate r ≡ none
      → Calm w
      → Reaches (λ _. Calm) (lift P wk (revalidated env wk.provenance r) w)
  unfolding revalidated
  lift_valid-Reaches env r w valid calm = rw (valid, lift) calm

  module _ (off : state_text wk.crash_at ≡ "") where
    pub fresh_record-Reaches :
        (k : String) (seen : Option State) (env : Envelope) (e : Option Error) (w : World P)
        → HasDigest env
        → consult P wk.model e (rules_record wk.index env e wk.provenance).verdict ≡ none
        → Calm w
        → Reaches (λ _. Calm) (fresh_record P wk k seen env e w)
    unfolding fresh_record
    fresh_record-Reaches k seen env e w digest alone calm =
        then_Reaches (λ r w'. (validate r ≡ none) × Calm w') (λ _. Calm) _ _
          (settle_finding-Reaches env e w digest alone calm)
          (λ settled w₁ (valid, c₁).
            then_Reaches (λ _. Calm) (λ _. Calm) _ _ (lift_valid-Reaches env settled w₁ valid c₁)
              (λ r w₂ c₂.
                then_Reaches (λ _. Calm) (λ _. Calm) _ _
                  (crash_if-Reaches Calm k received w₂ off c₂)
                  (λ _ w₃ c₃.
                    then_Reaches (λ _. Calm) (λ _. Calm) _ _ (write_received-Reaches k seen r w₃ c₃)
                      (λ _ w₄ c₄.
                        then_Reaches (λ _. Calm) (λ _. Calm) _ _
                          (write_state-Reaches "record the verdict" k classified r w₄ refl c₄)
                          (λ _ w₅ c₅. c₅)))))

    attempt-Reaches :
        (k : String) (seen : Option State) (r : VerdictRecord) (w : World P)
        → Calm w
        → Reaches (λ _. Calm) (attempt P wk k seen r w)
    unfolding attempt
    attempt-Reaches k seen r w calm =
        elim (Bool-cases
          (notifies r.verdict && before (state_or_unset seen) notification_attempted)) [
            | inl due ↦ rw due (write_state-Reaches _ k notification_attempted r w refl calm)
            | inr not_due ↦ rw not_due calm
          ]

    notify-Reaches :
        (k : String) (r : VerdictRecord) (w : World P)
        → Calm w
        → Reaches (λ _. Calm) (notify P wk k r w)
    unfolding notify emit
    notify-Reaches k r w (quiet, heard) = elim (Bool-cases (notifies r.verdict)) [
      | inl loud ↦ rw (loud, heard, emit) (quiet, refl)
      | inr silent ↦ rw silent (quiet, heard)
    ]

    -- The message is acknowledged, and that is in the bucket.
    abbrev pub Closed : String → World P → Type 0
    Closed k w =
        Memᴰ (acked k) w.trace
        × ((object : P.Bytes) × (lookup (object_name k acknowledged) w.store.objects ≡ some object))

    acknowledge-Reaches :
        (k : String) (r : VerdictRecord) (w : World P)
        → Calm w
        → Reaches (λ _. Closed k) (acknowledge P wk k r (record w { trace = acked k ∷ w.trace }))
    unfolding acknowledge write
    acknowledge-Reaches k r w (quiet, heard) =
        let (_, _, there) =
          create-Stored (object_name k acknowledged) (P.marshal_record r) w.store quiet in
        (Memᴰ.head refl, there)

    -- What follows the record.
    pub close-Reaches :
        (k : String) (seen : Option State) (env : Envelope) (e : Option Error) (w : World P)
        → Reaches (λ _. Calm) (record_for P wk k seen env e w)
        → Reaches (λ _. Closed k) (advance P wk k seen env e w)
    unfolding advance
    close-Reaches k seen env e w recorded =
        then_Reaches (λ _. Calm) (λ _. Closed k) _ _ recorded
          (λ r w₁ c₁.
            then_Reaches (λ _. Calm) (λ _. Closed k) _ _
              (crash_if-Reaches Calm k notification_attempted w₁ off c₁)
              (λ _ w₂ c₂.
                then_Reaches (λ _. Calm) (λ _. Closed k) _ _ (attempt-Reaches k seen r w₂ c₂)
                  (λ _ w₃ c₃.
                    then_Reaches (λ _. Calm) (λ _. Closed k) _ _ (notify-Reaches k r w₃ c₃)
                      (λ _ w₄ c₄.
                        then_Reaches (λ _. Calm) (λ _. Closed k) _ _
                          (crash_if-Reaches Calm k acknowledged w₄ off c₄)
                          (λ _ w₅ c₅. acknowledge-Reaches k r w₅ c₅)))))
