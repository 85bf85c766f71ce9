-- ===== src/Worker/Frame.antt =====
-- What a delivery leaves alone (internal/worker/worker.go): a property of the world that every
-- single effect keeps is kept by `Handle`, and deciding is asked for only where nothing is classified.
use ai_k8s.Prelude.{
  ◌≡◌, refl, String, List, Bool, not, ◌||◌, ◌&&◌, Option, none, some, inl, inr, Bool-cases,
  Result-cases, Result, ok, err, Error, exists, not_found, failed, model_failed, ◌==◌, Eq-string,
}
use ai_k8s.Platform.{Platform}
use ai_k8s.Scc.{Envelope, key}
use ai_k8s.Verdict.Record.{VerdictRecord}
use ai_k8s.Notify.{notifies}
use ai_k8s.Ledger.State.{
  State, received, classified, notification_attempted, acknowledged, state_text, before, write,
  read_state, furthest,
}
use ai_k8s.Worker.Flow.{Flow, Ends, bind-Ends}
use ai_k8s.Worker.World.{Counts, Event, World, Worker, next_emit, rest_emits}
use ai_k8s.Worker.Handle.{
  tolerate, write_state, note_drift, resumed, resume, lift, parse_stored, read_classified, crash_if,
  write_received, record_for, attempt, emit, notify, acknowledge, advance, triage, state_or_unset,
  is_acknowledged,
}

module _ (P : Platform) (wk : Worker P) (I : World P → Type 0) where
  -- Every effect but a decision keeps `I`.
  pub record Frame : Type 0 where
    pub counted : (w : World P) (c : Counts) → I w → I (record w { counts = c })
    pub logged : (w : World P) (tr : List Event) → I w → I (record w { trace = tr })
    pub notified : (w : World P) (es : List Bool) → I w → I (record w { emits = es })
    pub wrote :
        (w : World P) (k : String) (s : State) (r : VerdictRecord)
        → I w
        → I (record w { store = (write k s (P.marshal_record r) w.store).1 })
    pub looked : (w : World P) (k : String) → I w → I (record w { store = (furthest k w.store).1 })
    pub read :
        (w : World P) (k : String) (s : State)
        → I w
        → I (record w { store = (read_state k s w.store).1 })

  -- `I` holds however the step ends.
  abbrev pub Always : {A : Type 0} → Flow A × World P → Type 0
  Always = Ends (λ _. I) I

  module _ (f : Frame) where
    tolerate-Always :
        (what : String) (res : Result (Unit {0})) (w : World P)
        → I w
        → Always (tolerate P wk what res w)
    unfolding tolerate
    tolerate-Always what (ok _) w i = i
    tolerate-Always what (err exists) w i = i
    tolerate-Always what (err not_found) w i = i
    tolerate-Always what (err (model_failed e)) w i = i
    tolerate-Always what (err (failed e)) w i = i

    pub write_state-Always :
        (what k : String) (s : State) (r : VerdictRecord) (w : World P)
        → I w
        → Always (write_state P wk what k s r w)
    unfolding write_state
    write_state-Always what k s r w i = tolerate-Always what _ _ (f.wrote w k s r i)

    note_drift-Always :
        (env : Envelope) (previous : Result P.Bytes) (w : World P)
        → I w
        → Always (note_drift P wk env previous w)
    unfolding note_drift
    note_drift-Always env (ok previous) w i = f.counted w _ i
    note_drift-Always env (err e) w i = i

    resumed-Always :
        (k : String) (env : Envelope) (far : Result (Option State)) (w : World P)
        → I w
        → Ends (λ seen w'. (far ≡ ok seen) × I w') I (resumed P wk k env far w)
    unfolding resumed
    resumed-Always k env (err e) w i = i
    resumed-Always k env (ok none) w i = (refl, i)
    resumed-Always k env (ok (some s)) w i =
        bind-Ends I (λ _. I) (λ seen w'. (ok (some s) ≡ ok seen) × I w') _ _
          (note_drift-Always env _ _ (f.read _ k received (f.counted w _ i)))
          (λ _ w' i'. (refl, i'))

    resume-Always :
        (k : String) (env : Envelope) (w : World P)
        → I w
        → Ends (λ seen w'. ((furthest k w.store).0 ≡ ok seen) × I w') I (resume P wk k env w)
    unfolding resume
    resume-Always k env w i = resumed-Always k env _ _ (f.looked w k i)

    parse_stored-Always :
        (res : Result P.Bytes) (w : World P) → I w → Always (parse_stored P wk res w)
    unfolding parse_stored
    parse_stored-Always (err e) w i = i
    parse_stored-Always (ok body) w i = elim (Result-cases (P.unmarshal_record body)) [
      | inl (r, good) ↦ rw (good, parse_stored) i
      | inr (e, bad) ↦ rw (bad, parse_stored) i
    ]

    pub read_classified-Always :
        (k : String) (w : World P) → I w → Always (read_classified P wk k w)
    unfolding read_classified
    read_classified-Always k w i = parse_stored-Always _ _ (f.read w k classified i)

    pub crash_if-Always :
        (k : String) (s : State) (w : World P) → I w → Always (crash_if P wk k s w)
    unfolding crash_if
    crash_if-Always k s w i =
        elim (Bool-cases
          (state_text wk.crash_at == "" || not (state_text wk.crash_at == state_text s))) [
            | inl off ↦ rw off i
            | inr here ↦ rw here (f.logged w _ i)
          ]

    pub write_received-Always :
        (k : String) (seen : Option State) (r : VerdictRecord) (w : World P)
        → I w
        → Always (write_received P wk k seen r w)
    unfolding write_received
    write_received-Always k none r w i = write_state-Always "record receipt" k received r w i
    write_received-Always k (some s) r w i = i

    pub lift-Always : {A : Type 0} (res : Result A) (w : World P) → I w → Always (lift P wk res w)
    lift-Always (ok a) w i = i
    lift-Always (err e) w i = i

    attempt-Always :
        (k : String) (seen : Option State) (r : VerdictRecord) (w : World P)
        → I w
        → Always (attempt P wk k seen r w)
    unfolding attempt
    attempt-Always k seen r w i =
        elim (Bool-cases
          (notifies r.verdict && before (state_or_unset seen) notification_attempted)) [
            | inl due ↦ rw due (write_state-Always _ k notification_attempted r w i)
            | inr not_due ↦ rw not_due i
          ]

    emit-Always : (k : String) (r : VerdictRecord) (w : World P) → I w → Always (emit P wk k r w)
    unfolding emit
    emit-Always k r w i = elim (Bool-cases (next_emit w.emits)) [
      | inl sent ↦ rw sent (f.counted _ _ (f.logged _ _ (f.notified w (rest_emits w.emits) i)))
      | inr unsent ↦ rw unsent (f.notified w (rest_emits w.emits) i)
    ]

    notify-Always :
        (k : String) (r : VerdictRecord) (w : World P) → I w → Always (notify P wk k r w)
    unfolding notify
    notify-Always k r w i = elim (Bool-cases (notifies r.verdict)) [
      | inl loud ↦ rw loud (emit-Always k r w i)
      | inr quiet ↦ rw quiet i
    ]

    acknowledge-Always :
        (k : String) (r : VerdictRecord) (w : World P) → I w → Always (acknowledge P wk k r w)
    unfolding acknowledge
    acknowledge-Always k r w i = f.wrote w k acknowledged r i

    -- The rest of a delivery, once its record is there.
    pub advance-Always :
        (k : String) (seen : Option State) (env : Envelope) (e : Option Error) (w : World P)
        → Always (record_for P wk k seen env e w)
        → Always (advance P wk k seen env e w)
    unfolding advance
    advance-Always k seen env e w recorded =
        bind-Ends I (λ _. I) (λ _. I) _ _ recorded
          (λ r w₁ i₁.
            bind-Ends I (λ _. I) (λ _. I) _ _ (crash_if-Always k notification_attempted w₁ i₁)
              (λ _ w₂ i₂.
                bind-Ends I (λ _. I) (λ _. I) _ _ (attempt-Always k seen r w₂ i₂)
                  (λ _ w₃ i₃.
                    bind-Ends I (λ _. I) (λ _. I) _ _ (notify-Always k r w₃ i₃)
                      (λ _ w₄ i₄.
                        bind-Ends I (λ _. I) (λ _. I) _ _ (crash_if-Always k acknowledged w₄ i₄)
                          (λ _ w₅ i₅. acknowledge-Always k r _ (f.logged w₅ _ i₅))))))

    pub triage-Always :
        (env : Envelope) (e : Option Error) (w : World P)
        → I w
        → ((seen : Option State) (w' : World P)
            → (furthest (key env.finding) w.store).0 ≡ ok seen
            → I w'
            → Always (record_for P wk (key env.finding) seen env e w'))
        → Always (triage P wk env e w)
    unfolding triage
    triage-Always env e w i recorded =
        let k = key env.finding in
        bind-Ends I (λ seen w'. ((furthest k w.store).0 ≡ ok seen) × I w') (λ _. I) _ _
          (resume-Always k env w i)
          (λ seen w₁ (far, i₁). elim (Bool-cases (is_acknowledged seen)) [
            | inl ended ↦ rw ended (f.logged w₁ _ i₁)
            | inr unended ↦ rw unended (advance-Always k seen env e w₁ (recorded seen w₁ far i₁))
          ])
