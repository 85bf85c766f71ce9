-- ===== src/Model/Settling.antt =====
-- `Settler.Settle` as a whole (internal/model/settle.go): its outcomes, its cost and its writes.
use mathlib.Core.Path.{subst₂}
use ai_k8s.Prelude.{
  arith, subst, ◌≡◌, refl, sym, ok-injective, ◌⊎◌, inl, inr, ◌∷◌, true, false, Bool-cases,
  Result-cases, ok, err, ltb, length,
}
use ai_k8s.Platform.{Platform}
use ai_k8s.Scc.{Envelope, key}
use ai_k8s.Verdict.Record.{Provenance}
use ai_k8s.Verdict.Valid.{HasDigest}
use ai_k8s.Ledger.Store.{Store}
use ai_k8s.Ledger.Append.{Within, Within-refl}
use ai_k8s.Model.Prompt.{Prompt, build_prompt, estimate_tokens}
use ai_k8s.Model.Spend.{Reserved}
use ai_k8s.Model.Ceiling.{IsReservation, reserve-Within, Granted, reserve-Granted}
use ai_k8s.Model.Settle.{
  Outcome, refused_budget, refused_ceiling, Settler, Memory, ask, over_ceiling, reserve_and_ask,
  after_reserve, reserved, worst_case, over_budget, settle,
}
use ai_k8s.Model.Sound.{IsSound, refuse-IsSound, judge_reply-IsSound}

module _ (P : Platform) (s : Settler P) (env : Envelope) (prov : Provenance) where
  -- The call was made: the prompt was within the budget, and the worst case was reserved first.
  pub record Paid (m : Memory P) (st : Store P.Bytes) (m' : Memory P) (st' : Store P.Bytes)
      : Type 0 where
    pub prompt : Prompt
    pub built : build_prompt P env.finding s.index ≡ ok prompt
    pub budget : ltb s.max_input_tokens (estimate_tokens prompt) ≡ false
    pub called : m'.calls ≡ prompt ∷ m.calls
    pub total : P.Float
    pub granted :
        Granted P (s.clock m.ticks) (key env.finding) (worst_case P s) m.spend st m'.spend st' total

  ask-calls :
      (prompt : Prompt) (m : Memory P) (st : Store P.Bytes)
      → let (r, (m', st')) = ask P s env prov prompt m st in
        (m'.calls ≡ prompt ∷ m.calls) × (m'.spend ≡ m.spend) × (st' ≡ st)
  unfolding ask
  ask-calls prompt m st = ground arith

  ask-IsSound :
      (prompt : Prompt) (m : Memory P) (st : Store P.Bytes) {o : Outcome}
      → HasDigest env
      → (ask P s env prov prompt m st).0 ≡ ok o
      → IsSound s.index env o
  unfolding ask
  ask-IsSound prompt m st digest h =
      elim (Result-cases (s.generate (length m.calls) prompt s.params)) [
        | inr (e, bad) ↦ cc (rw (bad, ask) at h)
        | inl (reply, got) ↦
            subst (IsSound s.index env) (ok-injective (rw (got, ask) at h))
              (judge_reply-IsSound P s env digest prov reply)
      ]

  module _ (prompt : Prompt) (m : Memory P) (st : Store P.Bytes) where
    after_reserve-Paid :
        (res : Reserved P)
        → build_prompt P env.finding s.index ≡ ok prompt
        → ltb s.max_input_tokens (estimate_tokens prompt) ≡ false
        → ((total : P.Float)
            → res.0 ≡ ok (true, total)
            → Granted P
                (s.clock m.ticks)
                (key env.finding)
                (worst_case P s)
                m.spend
                st
                res.1.0
                res.1.1
                total)
        → let (r, (m', st')) = after_reserve P s env prov prompt m res in
          (m'.calls ≡ m.calls) ⊎ Paid m st m' st'
    unfolding after_reserve
    after_reserve-Paid (err e, (spend, st₁)) built budget paid = inl refl
    after_reserve-Paid (ok (true, total), (spend, st₁)) built budget paid =
        let asked = ask-calls prompt (reserved P m spend) st₁ in
        let granted = paid total refl in
        inr (record {
          prompt = prompt;
          built = built;
          budget = budget;
          called = asked.0;
          total = total;
          granted =
              subst₂
                (λ sp st'.
                  Granted P (s.clock m.ticks) (key env.finding) (worst_case P s) m.spend st sp st'
                    total)
                (sym asked.1) (sym asked.2) granted;
        })
    after_reserve-Paid (ok (false, total), (spend, st₁)) built budget paid = inl refl

    after_reserve-Within :
        (res : Reserved P)
        → Within (IsReservation P) st res.1.1
        → Within (IsReservation P) st (after_reserve P s env prov prompt m res).1.1
    unfolding after_reserve
    after_reserve-Within (err e, (spend, st₁)) w = w
    after_reserve-Within (ok (true, total), (spend, st₁)) w =
        rw (ask-calls prompt (reserved P m spend) st₁).2 w
    after_reserve-Within (ok (false, total), (spend, st₁)) w = w

    after_reserve-IsSound :
        HasDigest env
        → (res : Reserved P) {o : Outcome} → (after_reserve P s env prov prompt m res).0 ≡ ok o
        → IsSound s.index env o
    unfolding after_reserve over_ceiling
    after_reserve-IsSound digest (err e, (spend, st₁)) h = cc
    after_reserve-IsSound digest (ok (true, total), (spend, st₁)) h =
        ask-IsSound prompt (reserved P m spend) st₁ digest h
    after_reserve-IsSound digest (ok (false, total), (spend, st₁)) h =
        subst (IsSound s.index env) (ok-injective h)
          (refuse-IsSound s.index env digest prov refused_ceiling false _)

  -- The model is called only when the prompt fits the budget and the worst case of the call has
  -- been reserved within the ceiling, in the bucket and in memory; and at most once.
  pub settle-Paid :
      (m : Memory P) (st : Store P.Bytes)
      → let (r, (m', st')) = settle P s env prov m st in (m'.calls ≡ m.calls) ⊎ Paid m st m' st'
  unfolding settle reserve_and_ask
  settle-Paid m st = elim (Result-cases (build_prompt P env.finding s.index)) [
    | inr (e, bad) ↦ rw (bad, settle) (inl refl)
    | inl (prompt, built) ↦ elim (Bool-cases (ltb s.max_input_tokens (estimate_tokens prompt))) [
      | inl over ↦ rw (built, over, settle) (inl refl)
      | inr fits ↦
          rw (built, fits, settle)
            (after_reserve-Paid prompt m st _ built fits (reserve-Granted P _ _ _ m.spend st))
    ]
  ]

  -- All that a settled finding leaves in the bucket is a reservation.
  pub settle-Within :
      (m : Memory P) (st : Store P.Bytes)
      → Within (IsReservation P) st (settle P s env prov m st).1.1
  unfolding settle reserve_and_ask
  settle-Within m st = elim (Result-cases (build_prompt P env.finding s.index)) [
    | inr (e, bad) ↦ rw (bad, settle) (Within-refl (IsReservation P) st)
    | inl (prompt, built) ↦ elim (Bool-cases (ltb s.max_input_tokens (estimate_tokens prompt))) [
      | inl over ↦ rw (built, over, settle) (Within-refl (IsReservation P) st)
      | inr fits ↦
          rw (built, fits, settle)
            (after_reserve-Within prompt m st _ (reserve-Within P _ _ _ m.spend st))
    ]
  ]

  pub settle-IsSound :
      (m : Memory P) (st : Store P.Bytes) (o : Outcome)
      → HasDigest env
      → (settle P s env prov m st).0 ≡ ok o
      → IsSound s.index env o
  unfolding settle reserve_and_ask over_budget
  settle-IsSound m st o digest h = elim (Result-cases (build_prompt P env.finding s.index)) [
    | inr (e, bad) ↦ cc (rw (bad, settle) at h)
    | inl (prompt, built) ↦ elim (Bool-cases (ltb s.max_input_tokens (estimate_tokens prompt))) [
      | inl over ↦
          subst (IsSound s.index env) (ok-injective (rw (built, over, settle) at h))
            (refuse-IsSound s.index env digest prov refused_budget false _)
      | inr fits ↦ after_reserve-IsSound prompt m st digest _ (rw (built, fits, settle) at h)
    ]
  ]
