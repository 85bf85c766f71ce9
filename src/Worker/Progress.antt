-- ===== src/Worker/Progress.antt =====
-- A delivery that nothing gets in the way of is acknowledged (internal/worker/worker.go).
use mathlib.Core.List.{[], Memᴰ}
use ai_k8s.Prelude.{
  ◌≡◌, refl, ap, ◌∙◌, subst, inl, inr, String, false, Option, none, some, Bool-cases, Error,
}
use ai_k8s.Platform.{Platform, IsLawful}
use ai_k8s.Scc.{Envelope, key, parse, blank}
use ai_k8s.Corpus.Index.{lookup}
use ai_k8s.Verdict.Valid.{HasDigest}
use ai_k8s.Verdict.Parsed.{HasDigests, parse-HasDigests}
use ai_k8s.Ledger.State.{
  State, received, classified, notification_attempted, acknowledged, other, state_text, object_name,
  before, read_state,
}
use ai_k8s.Ledger.Calm.{read-calm, read-found}
use ai_k8s.Worker.Decide.{consult, rules_record}
use ai_k8s.Worker.Flow.{Flow, done, fail, exited}
use ai_k8s.Worker.World.{acked, World, Worker}
use ai_k8s.Worker.Safe.{IsClassified, Seen, ledger_body}
use ai_k8s.Worker.Steps.{Safe}
use ai_k8s.Worker.Safety.{Resumed, resume-Ends, acknowledged_of}
use ai_k8s.Worker.Calm.{
  Calm, Reaches, then_Reaches, both_Reaches, resume-Reaches, fresh_record-Reaches, Closed,
  close-Reaches,
}
use ai_k8s.Worker.Handle.{
  parse_stored, read_classified, record_for, triage, is_acknowledged, settle_message, handle_parsed,
  handle, out_of_scope, state_or_unset, resume,
}

module _ (P : Platform) (law : IsLawful P) (wk : Worker P) (off : state_text wk.crash_at ≡ "")
    (env : Envelope) (e : Option Error) (digest : HasDigest env)
    (alone : consult P wk.model e (rules_record wk.index env e wk.provenance).verdict ≡ none) where
  stored-Reaches :
      (k : String) (w : World P)
      → Calm P wk w
      → IsClassified P k w.store.objects
      → Reaches P wk (λ _. Calm P wk) (read_classified P wk k w)
  unfolding read_classified read_state parse_stored
  stored-Reaches k w (quiet, heard) (r, recorded) =
      let found =
        read-found (object_name k classified) w.store (P.marshal_record r) quiet recorded in
      rw (found, parse_stored)
        (rw (law.unmarshal-record r) (read-calm (object_name k classified) w.store quiet, heard))

  -- Past `classified`, the record is there to be read.
  is_classified :
      (k : String) (seen : Option State) (w : World P)
      → Safe P wk w
      → Seen P k w.store.objects seen
      → is_acknowledged seen ≡ false
      → before (state_or_unset seen) classified ≡ false
      → IsClassified P k w.store.objects
  unfolding before
  is_classified k none w safe says unended late = cc
  is_classified k (some received) w safe says unended late = cc
  is_classified k (some classified) w safe says unended late =
      let (_, (body, found)) = says.recorded classified refl in
      let (r, encoded) = ledger_body P k classified safe refl found in (r, found ∙ ap some encoded)
  is_classified k (some notification_attempted) w safe says unended late =
      let (_, (body, found)) = says.recorded notification_attempted refl in
      safe.attempted k body found
  is_classified k (some acknowledged) w safe says unended late = cc
  is_classified k (some (other s)) w safe says unended late = cc

  record_for-Reaches :
      (k : String) (seen : Option State) (w : World P)
      → Calm P wk w
      → Resumed P law wk k seen w
      → is_acknowledged seen ≡ false
      → Reaches P wk (λ _. Calm P wk) (record_for P wk k seen env e w)
  unfolding record_for
  record_for-Reaches k seen w calm (safe, says) unended =
      elim (Bool-cases (before (state_or_unset seen) classified)) [
        | inl early ↦ rw early (fresh_record-Reaches P wk off k seen env e w digest alone calm)
        | inr late ↦
            rw late (stored-Reaches k w calm (is_classified k seen w safe says unended late))
      ]

  triage-Reaches :
      (w : World P)
      → Calm P wk w
      → Safe P wk w
      → Reaches P wk (λ _. Closed P wk off (key env.finding)) (triage P wk env e w)
  unfolding triage
  triage-Reaches w calm safe =
      let k = key env.finding in
      then_Reaches P wk (λ seen w'. Calm P wk w' × Resumed P law wk k seen w')
        (λ _. Closed P wk off k) _ _
        (both_Reaches P wk (λ _. Calm P wk) (Resumed P law wk k) (Safe P wk) (resume P wk k env w)
          (resume-Reaches P wk k env w calm) (resume-Ends P law wk k env w safe))
        (λ seen w₁ (c₁, resumed). elim (Bool-cases (is_acknowledged seen)) [
          | inl ended ↦
              let (_, there) =
                resumed.1.recorded acknowledged (acknowledged_of P law wk seen ended) in
              rw ended (Memᴰ.head refl, there)
          | inr unended ↦ rw unended (
              close-Reaches P wk off k seen env e w₁
                (record_for-Reaches k seen w₁ c₁ resumed unended))
        ])

  settle_message-Closed :
      (k : String) (res : Flow (Unit {0}) × World P)
      → Reaches P wk (λ _. Closed P wk off k) res
      → Closed P wk off k (settle_message P wk k res)
  unfolding settle_message
  settle_message-Closed k (done _, w) closed = closed
  settle_message-Closed k (fail why, w) closed = absurd closed
  settle_message-Closed k (exited, w) closed = absurd closed

  handle_parsed-Closed :
      (w : World P)
      → blank env.finding.canonical_name ≡ false
      → out_of_scope P wk env e ≡ false
      → Calm P wk w
      → Safe P wk w
      → Closed P wk off (key env.finding) (handle_parsed P wk (some env, e) w)
  unfolding handle_parsed
  handle_parsed-Closed w named inside calm safe =
      rw (named, inside) (settle_message-Closed (key env.finding) _ (triage-Reaches w calm safe))

module _ (P : Platform) (law : IsLawful P) (wk : Worker P) (off : state_text wk.crash_at ≡ "") where
  -- Where no call fails and no drill runs, a message with a name and in scope, on which the rules
  -- decide alone, is acknowledged, and the bucket says so: whatever earlier deliveries left.
  pub handle-Closed :
      (body : P.Bytes) (w : World P) (env : Envelope) (e : Option Error)
      → parse P.unmarshal_envelope P.canonicalize P.sum_of body ≡ (some env, e)
      → blank env.finding.canonical_name ≡ false
      → out_of_scope P wk env e ≡ false
      → consult P wk.model e (rules_record wk.index env e wk.provenance).verdict ≡ none
      → w.store.script ≡ []
      → w.emits ≡ []
      → Safe P wk w
      → Memᴰ (acked (key env.finding)) (handle P wk body w).trace
        × ((object : P.Bytes) × (lookup
                (object_name (key env.finding) acknowledged)
                (handle P wk body w).store.objects
              ≡ some object))
  unfolding handle
  handle-Closed body w env e parsed named inside alone quiet heard safe =
      let digest : HasDigest env =
        subst HasDigests parsed
          (parse-HasDigests P.unmarshal_envelope P.canonicalize P.sum_of body) in
      rw parsed
        (handle_parsed-Closed P law wk off env e digest alone _ named inside (quiet, heard) safe)
