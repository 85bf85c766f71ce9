-- ===== src/Worker/Decide.antt =====
-- `Decide` (internal/worker/worker.go): the verdict for one finding, with nothing recorded.
use mathlib.Core.List.{[]}
use ai_k8s.Prelude.{
  if◌then◌else◌, ◌<>◌, Bool, true, false, Option, none, some, ◌∷◌, Result, ok, err, Error, failed,
  model_failed, error_text,
}
use ai_k8s.Platform.{Platform}
use ai_k8s.Scc.{Envelope}
use ai_k8s.Corpus.Index.{Index}
use ai_k8s.Verdict.Record.{Value, new, VerdictRecord, Provenance, validate}
use ai_k8s.Verdict.Classify.{classify, insufficient}
use ai_k8s.Ledger.Store.{Store}
use ai_k8s.Model.Settle.{not_refused, Outcome, Settler, Memory, settle}

-- The record, and what the outcome says of the model: whether it was called, and any refusal.
abbrev pub Decision : Type 0
Decision = Outcome

-- The rules' record: a refusal where the body did not parse.
unfoldable pub rules_record : Index → Envelope → Option Error → Provenance → VerdictRecord
rules_record idx env (some e) prov = insufficient env (error_text e ∷ []) prov
rules_record idx env none prov = classify env idx prov

abbrev pub is_new : Value → Bool
is_new new = true
is_new _ = false

-- A record that does not validate becomes a refusal.
unfoldable pub revalidated : Envelope → Provenance → VerdictRecord → Result VerdictRecord
revalidated env prov r = elim (validate r) [
  | none ↦ ok r
  | some why ↦
      let r' = insufficient env (("the verdict record did not validate: " <> why) ∷ []) prov in
      elim (validate r') [
        | none ↦ ok r'
        | some why' ↦ err (failed ("even the refusal does not validate: " <> why'))
      ]
]

abbrev decided : Outcome → Result VerdictRecord → Result Decision
decided o (ok r) = ok (record o { verdict_record = r })
decided o (err e) = err e

-- The last step of `Decide`.
unfoldable pub finish : Envelope → Provenance → Outcome → Result Decision
unfolding revalidated
finish env prov o = decided o (revalidated env prov o.verdict_record)

abbrev pub by_rules : VerdictRecord → Outcome
by_rules r = record { verdict_record = r; called = false; refusal = not_refused }

module _ (P : Platform) where
  abbrev pub Decided : Type 0
  Decided = Result Decision × (Memory P × Store P.Bytes)

  -- The model's outcome, or the failure of its call.
  unfoldable pub after_settle :
      Envelope → Provenance → Result Outcome × (Memory P × Store P.Bytes) → Decided
  after_settle env prov (err e, rest) = (err (model_failed (error_text e)), rest)
  after_settle env prov (ok o, rest) = (finish env prov o, rest)

  -- The model is asked only where there is one, the body parsed, and the rules say `new`.
  unfoldable pub consult : Option (Settler P) → Option Error → Value → Option (Settler P)
  consult (some s) none v = if is_new v then some s else none
  consult _ _ _ = none

  unfoldable pub decide_by :
      Option (Settler P)
      → Envelope
      → VerdictRecord
      → Provenance
      → Memory P
      → Store P.Bytes
      → Decided
  decide_by none env r prov m st = (finish env prov (by_rules r), (m, st))
  decide_by (some s) env r prov m st = after_settle env prov (settle P s env prov m st)

  -- `Decide`
  unfoldable pub decide :
      Index
      → Option (Settler P)
      → Envelope
      → Option Error
      → Provenance
      → Memory P
      → Store P.Bytes
      → Decided
  decide idx model env parse_err prov m st =
      let r = rules_record idx env parse_err prov in
      decide_by (consult model parse_err r.verdict) env r prov m st
