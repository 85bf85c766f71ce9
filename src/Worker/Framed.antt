-- ===== src/Worker/Framed.antt =====
-- `Handle` (internal/worker/worker.go) keeps what its single effects keep, from Worker/Frame.
use ai_k8s.Prelude.{String, Option, none, some, inl, inr, Bool-cases, Error, Eq-string}
use ai_k8s.Platform.{Platform}
use ai_k8s.Scc.{Envelope, key, parse, blank}
use ai_k8s.Ledger.State.{State, received, classified, before}
use ai_k8s.Worker.Decide.{revalidated}
use ai_k8s.Worker.Flow.{Flow, done, fail, exited, bind-Ends}
use ai_k8s.Worker.World.{World, Worker}
use ai_k8s.Worker.Handle.{
  settle_finding, fresh_record, record_for, settle_message, handle_parsed, handle, state_or_unset,
  out_of_scope,
}
use ai_k8s.Worker.Frame.{
  Frame, Always, write_state-Always, read_classified-Always, crash_if-Always, write_received-Always,
  lift-Always, triage-Always,
}

-- Where deciding keeps `I` too, all of `Handle` does.
module _ (P : Platform) (wk : Worker P) (I : World P → Type 0) (f : Frame P wk I)
    (decided : (env : Envelope) (e : Option Error) (w : World P)
      → I w
      → Always P wk I (settle_finding P wk env e w)) where
  fresh_record-Always :
      (k : String) (seen : Option State) (env : Envelope) (e : Option Error) (w : World P)
      → I w
      → Always P wk I (fresh_record P wk k seen env e w)
  unfolding fresh_record
  fresh_record-Always k seen env e w i =
      bind-Ends I (λ _. I) (λ _. I) _ _ (decided env e w i)
        (λ settled w₁ i₁.
          bind-Ends I (λ _. I) (λ _. I) _ _
            (lift-Always P wk I f (revalidated env wk.provenance settled) w₁ i₁)
            (λ r w₂ i₂.
              bind-Ends I (λ _. I) (λ _. I) _ _ (crash_if-Always P wk I f k received w₂ i₂)
                (λ _ w₃ i₃.
                  bind-Ends I (λ _. I) (λ _. I) _ _ (write_received-Always P wk I f k seen r w₃ i₃)
                    (λ _ w₄ i₄.
                      bind-Ends I (λ _. I) (λ _. I) _ _
                        (write_state-Always P wk I f "record the verdict" k classified r w₄ i₄)
                        (λ _ w₅ i₅. f.counted w₅ _ i₅)))))

  record_for-Always :
      (k : String) (seen : Option State) (env : Envelope) (e : Option Error) (w : World P)
      → I w
      → Always P wk I (record_for P wk k seen env e w)
  unfolding record_for
  record_for-Always k seen env e w i = elim (Bool-cases (before (state_or_unset seen) classified)) [
    | inl early ↦ rw early (fresh_record-Always k seen env e w i)
    | inr late ↦ rw late (read_classified-Always P wk I f k w i)
  ]

  settle_message-frame :
      (k : String) (res : Flow (Unit {0}) × World P)
      → Always P wk I res
      → I (settle_message P wk k res)
  unfolding settle_message
  settle_message-frame k (done _, w) i = i
  settle_message-frame k (exited, w) i = i
  settle_message-frame k (fail e, w) i = f.counted _ _ (f.logged w _ i)

  handle_parsed-frame :
      (parsed : Option Envelope × Option Error) (w : World P)
      → I w
      → I (handle_parsed P wk parsed w)
  unfolding handle_parsed
  handle_parsed-frame (none, e) w i = f.counted _ _ (f.logged w _ i)
  handle_parsed-frame (some env, e) w i = elim (Bool-cases (blank env.finding.canonical_name)) [
    | inl nameless ↦ rw nameless (f.counted _ _ (f.logged w _ i))
    | inr named ↦ elim (Bool-cases (out_of_scope P wk env e)) [
      | inl outside ↦ rw (named, outside) (f.counted _ _ (f.logged w _ i))
      | inr inside ↦
          rw (named, inside)
            (settle_message-frame (key env.finding) _ (
              triage-Always P wk I f env e w i
                (λ seen w' _ i'. record_for-Always (key env.finding) seen env e w' i')))
    ]
  ]

  pub handle-frame : (body : P.Bytes) (w : World P) → I w → I (handle P wk body w)
  unfolding handle
  handle-frame body w i =
      handle_parsed-frame (parse P.unmarshal_envelope P.canonicalize P.sum_of body) _
        (f.counted w _ i)
