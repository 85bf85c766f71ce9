-- ===== src/Model/Settle.antt =====
-- internal/model/settle.go: asking the model about one finding, and checking all that it says.
use mathlib.Core.List.{[], map}
use ai_k8s.Prelude.{
  ℕ, suc, ◌<>◌, String, Bool, true, false, not, none, some, List, ◌∷◌, if◌then◌else◌, is_empty,
  length, ltb, ◌==◌, Eq-nat, Eq-string, Result, ok, err, wrap, error_text,
}
use ai_k8s.Text.{trim_space, join}
use ai_k8s.Text.Format.{decimal, quote}
use ai_k8s.Platform.{Platform, Answer}
use ai_k8s.Scc.{Envelope, key}
use ai_k8s.Corpus.Index.{Index}
use ai_k8s.Verdict.Record.{
  Value, accepted, contradicts_decision, new, insufficient_evidence, other, value_of, unmatched,
  settled_by_model, Citation, Provenance, VerdictRecord, validate, resolve_citations,
}
use ai_k8s.Verdict.Classify.{base_record, insufficient}
use ai_k8s.Ledger.Store.{Store}
use ai_k8s.Model.Prompt.{Params, params_text, Prompt, Reply, build_prompt, estimate_tokens}
use ai_k8s.Model.Prompt.{prompt_digest}
use ai_k8s.Model.Spend.{Instant, Prices, cost, Spend, Reserved, reserve}
use ai_k8s.Model.Resources.{anchored}

-- Why the worker ruled around the model; `not_refused` is the empty text.
pub data Refusal : Type 0 where
  not_refused refused_budget refused_ceiling : Refusal
  rejected_output rejected_citation rejected_acceptance rejected_unanchored : Refusal

pub record Outcome : Type 0 where
  pub verdict_record : VerdictRecord
  pub called : Bool
  pub refusal : Refusal

-- `refuse`, and `rejected` where the model was called.
unfoldable pub refuse : Envelope → Provenance → Refusal → Bool → String → Outcome
refuse env prov why called detail =
    let r = insufficient env (detail ∷ []) prov in
    record {
      verdict_record = if called then record r { settled_by = settled_by_model } else r;
      called = called;
      refusal = why;
    }

unfoldable pub citation_list : List Citation → String
citation_list cites = join (map (λ (c : Citation). c.id) cites) ", "

abbrev cited : String → Citation
cited id = record { id = id; summary = ""; source = "" }

-- The record that an answer starts from.
unfoldable pub answered : Envelope → Provenance → Answer → VerdictRecord
answered env prov a = record (base_record env prov) {
  settled_by = settled_by_model;
  reasoning = trim_space a.reasoning;
  recommended_action = trim_space a.recommended_action;
  confidence = a.confidence;
  corpus_match = unmatched;
}

-- The last check: a record that does not validate is rejected.
unfoldable pub checked : Envelope → Provenance → VerdictRecord → Outcome
checked env prov r = elim (validate r) [
  | none ↦ record { verdict_record = r; called = true; refusal = not_refused }
  | some why ↦ refuse env prov rejected_output true ("the model output did not validate: " <> why)
]

unfoldable pub contradiction : Index → Envelope → Provenance → VerdictRecord → Outcome
contradiction idx env prov r =
    let (r', refused) = resolve_citations idx r in
    elim refused [
      | some why ↦ refuse env prov rejected_citation true ("the model " <> why)
      | none ↦
          if anchored r'.citations idx env.finding
          then checked env prov r'
          else refuse env prov rejected_unanchored true (
              "the model called this a contradiction of "
              <> (citation_list r'.citations
                  <> ", and none of those is a control that applies to a resource the finding names, so no contradiction was raised"))
    ]

-- The `switch` on the verdict that the model gave.
unfoldable pub judge_answer : Index → Envelope → Provenance → Answer → Value → Outcome
judge_answer idx env prov a new =
    if is_empty a.citations
    then checked env prov (record (answered env prov a) { verdict = new })
    else refuse env prov rejected_output true
        "the model called the finding new and cited corpus entries anyway"
judge_answer idx env prov a contradicts_decision =
    contradiction idx env prov (record (answered env prov a) {
      verdict = contradicts_decision;
      citations = map cited a.citations;
    })
judge_answer idx env prov a insufficient_evidence = checked env prov (record (answered env prov a) {
  verdict = insufficient_evidence;
  missing_evidence = a.missing_evidence;
})
judge_answer idx env prov a accepted =
    refuse env prov rejected_acceptance true
      "the model returned accepted, which only the reviewed mapping may do"
judge_answer idx env prov a (other v) =
    refuse env prov rejected_output true
      ("the model returned verdict " <> (quote v <> ", outside the closed set"))

module _ (P : Platform) where
  open P use {Float, decode_answer, gt_float, format_fixed, format_shortest}

  -- `Settler`. The endpoint's n-th reply and the n-th reading of the clock are functions.
  pub record Settler : Type 0 where
    pub generate : ℕ → Prompt → Params P → Result Reply
    pub clock : ℕ → Instant
    pub params : Params P
    pub index : Index
    pub max_input_tokens : ℕ
    pub prices : Prices P

  -- What a settler changes: its spend, how often it read the clock, and the calls made, of which
  -- the newest comes first.
  pub record Memory : Type 0 where
    pub spend : Spend P
    pub ticks : ℕ
    pub calls : List Prompt

  -- The memory once `Reserve` has returned.
  abbrev pub reserved : Memory → Spend P → Memory
  reserved m spend = record m { spend = spend; ticks = suc m.ticks }

  -- `stamp`
  unfoldable pub stamp : Settler → Provenance → Reply → Provenance
  stamp s prov reply = record prov {
    model =
        if reply.usage.model_version == ""
        then s.params.model
        else s.params.model <> ("@" <> reply.usage.model_version);
    model_params = params_text P s.params;
    prompt_digest = prompt_digest P s.params;
    input_tokens = reply.usage.input_tokens;
    output_tokens = reply.usage.output_tokens;
    cost_estimate =
        format_fixed 6 (cost P s.prices reply.usage.input_tokens reply.usage.output_tokens)
        <> " USD";
  }

  unfoldable pub judge_text : Index → Envelope → Provenance → String → Outcome
  judge_text idx env prov text = elim (decode_answer text) [
    | err e ↦
        refuse env prov rejected_output true
          ("the model output did not validate against the schema: " <> error_text e)
    | ok a ↦ judge_answer idx env prov a (value_of a.verdict)
  ]

  -- `Settle` behind the call: the checks of the reply, in order.
  unfoldable pub judge_reply : Settler → Envelope → Provenance → Reply → Outcome
  judge_reply s env prov reply =
      let prov' = stamp s prov reply in
      if ltb s.max_input_tokens reply.usage.input_tokens
      then refuse env prov' refused_budget true (
          "the model reports "
          <> (decimal reply.usage.input_tokens
              <> (" input tokens, over the budget of " <> decimal s.max_input_tokens)))
      else if ltb 0 reply.tool_calls
      then refuse env prov' rejected_output true (
          "the model made "
          <> (decimal reply.tool_calls <> " tool calls, and the tool budget is zero"))
      else if not (reply.finish_reason == "STOP")
      then refuse env prov' rejected_output true
          ("the model output did not finish cleanly: finish reason " <> quote reply.finish_reason)
      else judge_text s.index env prov' reply.text

  -- The result of `Settle`, and what it leaves.
  abbrev pub Settled : Type 0
  Settled = Result Outcome × (Memory × Store P.Bytes)

  -- The call, with the reservation granted.
  unfoldable pub ask : Settler → Envelope → Provenance → Prompt → Memory → Store P.Bytes → Settled
  ask s env prov prompt m st =
      let m' = record m { calls = prompt ∷ m.calls } in
      elim (s.generate (length m.calls) prompt s.params) [
        | err e ↦ (err (wrap "call the model" e), (m', st))
        | ok reply ↦ (ok (judge_reply s env prov reply), (m', st))
      ]

  unfoldable pub over_ceiling : Envelope → Provenance → Float → Float → Outcome
  over_ceiling env prov ceiling total = refuse env prov refused_ceiling false (
      "the daily model spend ceiling of "
      <> (format_shortest ceiling
          <> (" USD is reached, with "
              <> (format_fixed 4 total <> " USD reserved today, so the model was not called"))))

  -- `Settle` behind `Reserve`.
  unfoldable pub after_reserve :
      Settler → Envelope → Provenance → Prompt → Memory → Reserved P → Settled
  after_reserve s env prov prompt m (err e, (spend, st)) = (err e, (reserved m spend, st))
  after_reserve s env prov prompt m (ok (true, total), (spend, st)) =
      ask s env prov prompt (reserved m spend) st
  after_reserve s env prov prompt m (ok (false, total), (spend, st)) =
      (ok (over_ceiling env prov spend.ceiling total), (reserved m spend, st))

  abbrev pub worst_case : Settler → Float
  worst_case s = cost P s.prices s.max_input_tokens s.params.max_output_tokens

  -- `Settle` from the reservation on.
  unfoldable pub reserve_and_ask :
      Settler → Envelope → Provenance → Prompt → Memory → Store P.Bytes → Settled
  reserve_and_ask s env prov prompt m st =
      after_reserve s env prov prompt m
        (reserve P (s.clock m.ticks) (key env.finding) (worst_case s) m.spend st)

  unfoldable pub over_budget : Settler → Envelope → Provenance → Prompt → Outcome
  over_budget s env prov prompt = refuse env prov refused_budget false (
      "the input is an estimated "
      <> (decimal (estimate_tokens prompt)
          <> (" tokens, over the budget of "
              <> (decimal s.max_input_tokens <> ", and was refused rather than truncated"))))

  -- `Settler.Settle`
  unfoldable pub settle : Settler → Envelope → Provenance → Memory → Store P.Bytes → Settled
  settle s env prov m st = elim (build_prompt P env.finding s.index) [
    | err e ↦ (err e, (m, st))
    | ok prompt ↦
        if ltb s.max_input_tokens (estimate_tokens prompt)
        then (ok (over_budget s env prov prompt), (m, st))
        else reserve_and_ask s env prov prompt m st
  ]
