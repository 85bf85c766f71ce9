-- ===== src/Worker/Advance.antt =====
-- `recordFor`, the notification and `resume` of `triage` keep the invariant, and lead from what is
-- recorded to what the owner knows (internal/worker/worker.go).
use mathlib.Core.List.{Memᴰ}
use ai_k8s.Prelude.{
  ◌&&◌, ◌≤◌, Option, ◌≡◌, refl, sym, ap, subst, ◌∙◌, inl, inr, String, true, false, none, some,
  arith, Option-cases, Bool-cases, Result, ok, err, Error,
}
use ai_k8s.Platform.{Platform, IsLawful}
use ai_k8s.Scc.{Envelope}
use ai_k8s.Corpus.Index.{lookup}
use ai_k8s.Verdict.Record.{
  VerdictRecord, accepted, contradicts_decision, new, insufficient_evidence, other, Value,
}
use ai_k8s.Notify.{notifies}
use ai_k8s.Ledger.Store.{Store, create}
use ai_k8s.Ledger.State.{
  State, received, classified, notification_attempted, object_name, before, write, read_state,
}
use ai_k8s.Ledger.Append.{Within-of_Grows, create-Created, read-ok, read-objects}
use ai_k8s.Ledger.Furthest.{level, height, before-level}
use ai_k8s.Model.Apart.{object_name-inj}
use ai_k8s.Worker.Decide.{revalidated}
use ai_k8s.Worker.Flow.{Ends, bind-Ends}
use ai_k8s.Worker.World.{emitted, World, Worker, next_emit}
use ai_k8s.Worker.Safe.{Recorded, Notified, IsSafe, IsSafe-event, Seen, ledger_body}
use ai_k8s.Worker.Steps.{
  Safe, Unclassified, write-Within, write-Recorded, free_kept, settle_finding-Ends,
  write_state-Ends, crash_if-Ends,
}
use ai_k8s.Worker.Handle.{
  write_state, write_received, fresh_record, record_for, read_classified, parse_stored, attempt,
  emit, notify, state_or_unset, lift,
}

module _ (P : Platform) (wk : Worker P) (k : String) where
  -- The record of the finding is in the bucket.
  abbrev pub Kept : VerdictRecord → World P → Type 0
  Kept r w = Safe P wk w × Recorded P k r w.store.objects

  abbrev Open : World P → Type 0
  Open w = Safe P wk w × Unclassified P wk k w

  received_free :
      (r : VerdictRecord) (st : Store P.Bytes)
      → lookup (object_name k classified) st.objects ≡ none
      → lookup (object_name k classified) (write k received (P.marshal_record r) st).1.objects
        ≡ none
  unfolding write
  received_free r st free =
      free_kept P wk (λ name body. name ≡ object_name k received) (object_name k classified)
        (λ body e. cc ((object_name-inj k k classified received refl refl e).1))
        (Within-of_Grows (λ name body. name ≡ object_name k received) (object_name k received)
          (P.marshal_record r) {st = st}
          {st' = (create (object_name k received) (P.marshal_record r) st).1} refl
          (create-Created (object_name k received) (P.marshal_record r) st).0)
        free

  write_received-Ends :
      (seen : Option State) (r : VerdictRecord) (w : World P)
      → Open w
      → Ends (λ _. Open) (Safe P wk) (write_received P wk k seen r w)
  unfolding write_received
  write_received-Ends none r w (safe, free) =
      write_state-Ends P wk Open "record receipt" k received r w refl (λ e. cc e) (λ e. cc e) safe
        (λ safe' _. (safe', received_free r w.store free))
  write_received-Ends (some s) r w ready = ready

  write_classified-Ends :
      (r : VerdictRecord) (w : World P)
      → Open w
      → Ends (λ _. Kept r) (Safe P wk) (write_state P wk "record the verdict" k classified r w)
  write_classified-Ends r w (safe, free) =
      write_state-Ends P wk (Kept r) "record the verdict" k classified r w refl (λ e. cc e)
        (λ e. cc e) safe (λ safe' answer. (safe', write-Recorded P wk k r w.store free answer))

  lift-Ends :
      {A : Type 0} (M : World P → Type 0) (res : Result A) (w : World P)
      → M w
      → (M w → Safe P wk w)
      → Ends (λ _. M) (Safe P wk) (lift P wk res w)
  lift-Ends M (ok a) w m safe = m
  lift-Ends M (err e) w m safe = safe m

  fresh_record-Ends :
      (seen : Option State) (env : Envelope) (e : Option Error) (w : World P)
      → Open w
      → Ends Kept (Safe P wk) (fresh_record P wk k seen env e w)
  unfolding fresh_record
  fresh_record-Ends seen env e w (safe, free) =
      bind-Ends (Safe P wk) (λ _. Open) Kept _ _ (settle_finding-Ends P wk k env e w safe free)
        (λ settled w₁ open₁.
          bind-Ends (Safe P wk) (λ _. Open) Kept _ _
            (lift-Ends Open (revalidated env wk.provenance settled) w₁ open₁ (λ o. o.0))
            (λ r w₂ open₂.
              bind-Ends (Safe P wk) (λ _. Open) Kept _ _
                (crash_if-Ends P wk Open k received w₂ open₂ open₂.0)
                (λ _ w₃ open₃.
                  bind-Ends (Safe P wk) (λ _. Open) Kept _ _ (write_received-Ends seen r w₃ open₃)
                    (λ _ w₄ open₄.
                      bind-Ends (Safe P wk) (λ _. Kept r) Kept _ _
                        (write_classified-Ends r w₄ open₄) (λ _ w₅ kept. kept)))))

  parse_stored-Ends :
      (law : IsLawful P) (res : Result P.Bytes) (w : World P)
      → Safe P wk w
      → ((body : P.Bytes)
          → res ≡ ok body
          → (r : VerdictRecord) × (body ≡ P.marshal_record r) × Recorded P k r w.store.objects)
      → Ends Kept (Safe P wk) (parse_stored P wk res w)
  unfolding parse_stored
  parse_stored-Ends law (err e) w safe good = safe
  parse_stored-Ends law (ok body) w safe good =
      let (r, same, kept) = good body refl in
      rw (ap P.unmarshal_record same ∙ law.unmarshal-record r, parse_stored) (safe, kept)

  read_classified-Ends :
      (law : IsLawful P) (w : World P)
      → Safe P wk w
      → Ends Kept (Safe P wk) (read_classified P wk k w)
  unfolding read_classified read_state
  read_classified-Ends law w safe =
      let same = read-objects (object_name k classified) w.store in
      parse_stored-Ends law _ _ (subst (λ os. IsSafe P os w.trace) (sym same) safe) (λ body got.
        let found = read-ok (object_name k classified) w.store body got in
        let (r, encoded) = ledger_body P k classified safe refl found in
        (r, encoded, rw same (found ∙ ap some encoded)))

  height-unset : (seen : Option State) → height seen ≤ level (state_or_unset seen)
  height-unset none = omega arith
  height-unset (some s) = omega arith

  not_classified :
      (seen : Option State) (w : World P)
      → Seen P k w.store.objects seen
      → before (state_or_unset seen) classified ≡ true
      → Unclassified P wk k w
  not_classified seen w says early =
      elim (Option-cases (lookup (object_name k classified) w.store.objects)) [
        | inl free ↦ free
        | inr (body, found) ↦ absurd (
            ground (
              arith,
              says.covers classified body refl found,
              height-unset seen,
              sym (before-level (state_or_unset seen) classified) ∙ early,
            ))
      ]

  -- `recordFor` returns the record that stands in the bucket, whether it was there or is new.
  pub record_for-Ends :
      (law : IsLawful P) (seen : Option State) (env : Envelope) (e : Option Error) (w : World P)
      → Safe P wk w
      → Seen P k w.store.objects seen
      → Ends Kept (Safe P wk) (record_for P wk k seen env e w)
  unfolding record_for
  record_for-Ends law seen env e w safe says =
      elim (Bool-cases (before (state_or_unset seen) classified)) [
        | inl early ↦
            rw early (fresh_record-Ends seen env e w (safe, not_classified seen w says early))
        | inr late ↦ rw late (read_classified-Ends law w safe)
      ]

  write_attempt-Kept :
      (r q : VerdictRecord) (w : World P)
      → Kept r w
      → Ends
          (λ _. Kept r)
          (Safe P wk)
          (write_state P wk "record the notification attempt" k notification_attempted q w)
  write_attempt-Kept r q w (safe, recorded) =
      write_state-Ends P wk (Kept r) "record the notification attempt" k notification_attempted q w
        refl (λ e. cc e) (λ _. (r, recorded)) safe
        (λ safe' _. (
          safe',
          (write-Within P wk k notification_attempted q w.store w.trace refl (λ e. cc e)
                (λ _. (r, recorded))).kept
              _ _ recorded,
        ))

  pub attempt-Ends :
      (seen : Option State) (r : VerdictRecord) (w : World P)
      → Kept r w
      → Ends (λ _. Kept r) (Safe P wk) (attempt P wk k seen r w)
  unfolding attempt
  attempt-Ends seen r w kept =
      elim (Bool-cases
        (notifies r.verdict && before (state_or_unset seen) notification_attempted)) [
          | inl due ↦ rw due (write_attempt-Kept r r w kept)
          | inr not_due ↦ rw not_due kept
        ]

  -- Past the notifier, the owner knows.
  abbrev pub Known : World P → Type 0
  Known w = Safe P wk w × Notified P k w.store.objects w.trace

  emit-Ends :
      (r : VerdictRecord) (w : World P) → Kept r w → Ends (λ _. Known) (Safe P wk) (emit P wk k r w)
  unfolding emit
  emit-Ends r w (safe, recorded) = elim (Bool-cases (next_emit w.emits)) [
    | inl sent ↦
        rw sent
          (IsSafe-event P (emitted k r) safe (λ j e. cc e), (r, recorded, inr (Memᴰ.head refl)))
    | inr unsent ↦ rw unsent safe
  ]

  silent : (v : Value) → notifies v ≡ false → v ≡ accepted
  unfolding notifies
  silent accepted h = refl
  silent contradicts_decision h = cc
  silent new h = cc
  silent insufficient_evidence h = cc
  silent (other s) h = cc

  pub notify-Ends :
      (r : VerdictRecord) (w : World P)
      → Kept r w
      → Ends (λ _. Known) (Safe P wk) (notify P wk k r w)
  unfolding notify
  notify-Ends r w (safe, recorded) = elim (Bool-cases (notifies r.verdict)) [
    | inl loud ↦ rw loud (emit-Ends r w (safe, recorded))
    | inr quiet ↦ rw quiet (safe, (r, recorded, inl (silent r.verdict quiet)))
  ]
