-- ===== src/Worker/Handle.antt =====
-- `Handle` and its state machine (internal/worker/worker.go), with the crash drills (crash.go).
use mathlib.Core.List.{[]}
use ai_k8s.Prelude.{
  suc, ◌<>◌, String, Bool, true, false, Option, none, some, ◌∷◌, if◌then◌else◌, ◌&&◌, ◌||◌, not,
  ◌==◌, Eq-string, Result, ok, err, Error, exists, not_found, failed, model_failed, wrap,
}
use ai_k8s.Text.{join}
use ai_k8s.Text.Format.{quote}
use ai_k8s.Platform.{Platform}
use ai_k8s.Scc.{Envelope, key, parse, blank, in_scope}
use ai_k8s.Verdict.Record.{VerdictRecord}
use ai_k8s.Notify.{notifies}
use ai_k8s.Ledger.Store.{Store}
use ai_k8s.Ledger.State.{
  State, received, classified, notification_attempted, acknowledged, other as other_state,
  state_text, before, furthest, write, read_state,
}
use ai_k8s.Model.Settle.{Memory}
use ai_k8s.Worker.Decide.{Decision, decide, revalidated}
use ai_k8s.Worker.Flow.{Flow, done, fail, exited, Run, ◌>>=◌, ◌>>◌, pure, raise, exit}
use ai_k8s.Worker.World.{
  Counts, emitted, acked, nacked, crashed, acked_skipped, nacked_unreadable, World, Worker,
  next_emit, rest_emits, counting, logging, on_store,
}
use ai_k8s.Worker.Counting.{count_called, count_record, count_refusal, is_model_error}

-- `ParseCrashAt`: the unset state, one of the three boundaries, or an error.
unfoldable pub parse_crash_at : String → Result State
parse_crash_at value =
    if value == ""
    then ok (other_state "")
    else if value == "received"
    then ok received
    else if value == "notification_attempted"
    then ok notification_attempted
    else if value == "acknowledged"
    then ok acknowledged
    else err (
        failed (
          quote value
          <> (" is not a crash boundary, want one of: "
              <> join ("received" ∷ "notification_attempted" ∷ "acknowledged" ∷ []) ", ")))

-- `state` where `found` is false is the unset state, which comes before every other.
abbrev pub state_or_unset : Option State → State
state_or_unset none = other_state ""
state_or_unset (some s) = s

abbrev pub is_acknowledged : Option State → Bool
is_acknowledged (some acknowledged) = true
is_acknowledged _ = false

module _ (P : Platform) (wk : Worker P) where
  -- One more outcome of `Decide`, with the counters that `settle` moves.
  unfoldable pub after_decide :
      Result Decision × (Memory P × Store P.Bytes) → Run (World P) VerdictRecord
  after_decide (ok d, (m, st)) w = (
    done d.verdict_record,
    record w {
      memory = m;
      store = st;
      counts = count_refusal d.refusal (count_called d.called w.counts);
    },
  )
  after_decide (err e, (m, st)) w = (
    fail e,
    record w {
      memory = m;
      store = st;
      counts =
          if is_model_error e
          then record (w.counts) { model_errors = suc w.counts.model_errors }
          else w.counts;
    },
  )

  -- `settle`
  unfoldable pub settle_finding : Envelope → Option Error → Run (World P) VerdictRecord
  settle_finding env parse_err w =
      after_decide (decide P wk.index wk.model env parse_err wk.provenance w.memory w.store) w

  -- `err != nil && !errors.Is(err, ledger.ErrExists)`
  unfoldable pub tolerate : String → Result (Unit {0}) → Run (World P) (Unit {0})
  tolerate what (ok _) = pure tt
  tolerate what (err exists) = pure tt
  tolerate what (err not_found) = raise (wrap what not_found)
  tolerate what (err (model_failed e)) = raise (wrap what (model_failed e))
  tolerate what (err (failed e)) = raise (wrap what (failed e))

  unfoldable pub write_state : String → String → State → VerdictRecord → Run (World P) (Unit {0})
  write_state what k s r = do res ← on_store (write k s (P.marshal_record r)); tolerate what res

  abbrev drifted : Envelope → Result VerdictRecord → Counts → Counts
  drifted env (ok stored) c =
      if not (stored.finding.digest == "") && not (stored.finding.digest == env.digest)
      then record c { drift = suc c.drift }
      else c
  drifted env (err e) c = c

  unfoldable pub note_drift : Envelope → Result P.Bytes → Run (World P) (Unit {0})
  note_drift env (ok previous) = counting (drifted env (P.unmarshal_record previous))
  note_drift env (err e) = pure tt

  unfoldable pub resumed : String → Envelope → Result (Option State) → Run (World P) (Option State)
  resumed k env (err e) = raise e
  resumed k env (ok none) = pure none
  resumed k env (ok (some s)) = do
    counting (λ c. record c { redelivered = suc c.redelivered })
    previous ← on_store (read_state k received)
    note_drift env previous
    pure (some s)

  -- `resume`
  unfoldable pub resume : String → Envelope → Run (World P) (Option State)
  resume k env = do far ← on_store (furthest k); resumed k env far

  abbrev pub lift : {A : Type 0} → Result A → Run (World P) A
  lift (ok a) = pure a
  lift (err e) = raise e

  unfoldable pub parse_stored : Result P.Bytes → Run (World P) VerdictRecord
  parse_stored (err e) = raise (wrap "read the classified record" e)
  parse_stored (ok body) = elim (P.unmarshal_record body) [
    | err e ↦ raise (wrap "parse the classified record" e)
    | ok r ↦ pure r
  ]

  unfoldable pub read_classified : String → Run (World P) VerdictRecord
  read_classified k = do stored ← on_store (read_state k classified); parse_stored stored

  -- `crashIf`
  unfoldable pub crash_if : String → State → Run (World P) (Unit {0})
  crash_if k s =
      if state_text wk.crash_at == "" || not (state_text wk.crash_at == state_text s)
      then pure tt
      else (do logging (crashed k); exit)

  unfoldable pub write_received : String → Option State → VerdictRecord → Run (World P) (Unit {0})
  write_received k none r = write_state "record receipt" k received r
  write_received k (some s) r = pure tt

  -- The second half of `recordFor`: a finding that no earlier delivery classified.
  unfoldable pub fresh_record :
      String → Option State → Envelope → Option Error → Run (World P) VerdictRecord
  fresh_record k seen env parse_err = do
    settled ← settle_finding env parse_err
    r ← lift (revalidated env wk.provenance settled)
    crash_if k received
    write_received k seen r
    write_state "record the verdict" k classified r
    counting (count_record r)
    pure r

  -- `recordFor`
  unfoldable pub record_for :
      String → Option State → Envelope → Option Error → Run (World P) VerdictRecord
  record_for k seen env parse_err =
      if before (state_or_unset seen) classified
      then fresh_record k seen env parse_err
      else read_classified k

  unfoldable pub attempt : String → Option State → VerdictRecord → Run (World P) (Unit {0})
  attempt k seen r =
      if notifies r.verdict && before (state_or_unset seen) notification_attempted
      then write_state "record the notification attempt" k notification_attempted r
      else pure tt

  -- `Notifier.Emit`, as its script has it.
  unfoldable pub emit : String → VerdictRecord → Run (World P) (Unit {0})
  emit k r w =
      if next_emit w.emits
      then (
        done tt,
        record w {
          emits = rest_emits w.emits;
          trace = emitted k r ∷ w.trace;
          counts = record (w.counts) { notifications_sent = suc w.counts.notifications_sent };
        },
      )
      else (fail (failed "emit the verdict"), record w { emits = rest_emits w.emits })

  unfoldable pub notify : String → VerdictRecord → Run (World P) (Unit {0})
  notify k r = if notifies r.verdict then emit k r else pure tt

  -- The write behind the acknowledgement, whose error is logged and passed over.
  unfoldable pub acknowledge : String → VerdictRecord → Run (World P) (Unit {0})
  acknowledge k r = do _ ← on_store (write k acknowledged (P.marshal_record r)); pure tt

  -- `triage` behind `resume`, for a finding that is not acknowledged.
  unfoldable pub advance :
      String → Option State → Envelope → Option Error → Run (World P) (Unit {0})
  advance k seen env parse_err = do
    r ← record_for k seen env parse_err
    crash_if k notification_attempted
    attempt k seen r
    notify k r
    crash_if k acknowledged
    logging (acked k)
    acknowledge k r

  -- `triage`
  unfoldable pub triage : Envelope → Option Error → Run (World P) (Unit {0})
  triage env parse_err = do
    seen ← resume (key env.finding) env
    if is_acknowledged seen
        then logging (acked (key env.finding))
        else advance (key env.finding) seen env parse_err

  -- `Handle` behind `triage`: an error leaves the message unacknowledged.
  unfoldable pub settle_message : String → Flow (Unit {0}) × World P → World P
  settle_message k (done _, w) = w
  settle_message k (exited, w) = w
  settle_message k (fail e, w) = record w {
    trace = nacked k ∷ w.trace;
    counts = record (w.counts) { failed = suc w.counts.failed };
  }

  abbrev refuse_message : World P → World P
  refuse_message w = record w {
    trace = nacked_unreadable ∷ w.trace;
    counts = record (w.counts) { unreadable = suc w.counts.unreadable };
  }

  abbrev skip_message : World P → World P
  skip_message w = record w {
    trace = acked_skipped ∷ w.trace;
    counts = record (w.counts) { vulnerabilities_skipped = suc w.counts.vulnerabilities_skipped };
  }

  abbrev pub out_of_scope : Envelope → Option Error → Bool
  out_of_scope env (some e) = false
  out_of_scope env none = not (in_scope env.finding.finding_class)

  -- `Handle` on what `Parse` returned.
  unfoldable pub handle_parsed : Option Envelope × Option Error → World P → World P
  handle_parsed (none, parse_err) w = refuse_message w
  handle_parsed (some env, parse_err) w =
      if blank env.finding.canonical_name
      then refuse_message w
      else if out_of_scope env parse_err
      then skip_message w
      else settle_message (key env.finding) (triage env parse_err w)

  -- `Worker.Handle`
  unfoldable pub handle : P.Bytes → World P → World P
  handle body w =
      handle_parsed (parse P.unmarshal_envelope P.canonicalize P.sum_of body)
        (record w { counts = record (w.counts) { received = suc w.counts.received } })
