-- ===== src/Eval/Trial.antt =====
-- cmd/triage-eval/main.go: every case through the worker's decision, judged, and the lines of the
-- report.
use mathlib.Core.List.{[]}
use ai_k8s.Prelude.{
  ◌<>◌, ℕ, zero, suc, String, false, Option, none, some, List, ◌∷◌, if◌then◌else◌, is_empty, length,
  ◌==◌, Eq-string, Result, ok, err, Error, error_text,
}
use ai_k8s.Text.{join}
use ai_k8s.Text.Format.{decimal}
use ai_k8s.Platform.{Platform}
use ai_k8s.Scc.{Envelope, parse, blank}
use ai_k8s.Corpus.Index.{Index}
use ai_k8s.Corpus.Mapping.{sort_texts}
use ai_k8s.Verdict.Record.{value_text, Citation, Provenance}
use ai_k8s.Ledger.Store.{Store}
use ai_k8s.Model.Spend.{cost}
use ai_k8s.Model.Settle.{not_refused, Settler, Memory}
use ai_k8s.Worker.Decide.{Decision, decide}
use ai_k8s.Eval.Judge.{Case, no_judgement, Run, judge}
use ai_k8s.Eval.Totals.{CaseResult, bump}
use ai_k8s.Eval.Cases.{BuiltCase}

-- `verdict.Provenance{}`
abbrev pub no_provenance : Provenance
no_provenance = record {
  corpus_commit = "";
  agent_commit = "";
  image_digest = "";
  model = "";
  model_params = "";
  prompt_digest = "";
  input_tokens = 0;
  output_tokens = 0;
  cost_estimate = "";
}

abbrev cited_ids : List Citation → List String
cited_ids [] = []
cited_ids (c ∷ cs) = c.id ∷ cited_ids cs

module _ (P : Platform) (idx : Index) (model : Option (Settler P)) (elapsed_ms : ℕ → ℕ) where
  -- A run that failed with an error.
  abbrev pub failed_run : String → Run P.Float
  failed_run why = record {
    verdict = "";
    citations = [];
    settled_by = "";
    called = false;
    refusal = not_refused;
    error = why;
    latency_ms = 0;
    input_tokens = 0;
    output_tokens = 0;
    cost_usd = P.of_ℕ 0;
    reasoning = "";
    missing = [];
    judgement = no_judgement;
  }

  -- `s.Prices.Cost`; only a settler calls.
  abbrev cost_by : Option (Settler P) → ℕ → ℕ → P.Float
  cost_by none input output = P.of_ℕ 0
  cost_by (some s) input output = cost P s.prices input output

  -- What a decision says, with the length of the call that `timed` measured.
  unfoldable pub run_of : ℕ → Decision → Run P.Float
  unfolding cost
  run_of latency d =
      let r = d.verdict_record in
      let prov = r.provenance in
      record {
        verdict = value_text r.verdict;
        citations = cited_ids r.citations;
        settled_by = r.settled_by;
        called = d.called;
        refusal = d.refusal;
        error = "";
        latency_ms = if d.called then latency else 0;
        input_tokens = if d.called then prov.input_tokens else 0;
        output_tokens = if d.called then prov.output_tokens else 0;
        cost_usd =
            if d.called then cost_by model prov.input_tokens prov.output_tokens else P.of_ℕ 0;
        reasoning = r.reasoning;
        missing = r.missing_evidence;
        judgement = no_judgement;
      }

  abbrev pub State : Type 0
  State = Memory P × Store P.Bytes

  unfoldable pub after_decision : ℕ → Result Decision × State → Run P.Float × State
  unfolding run_of
  after_decision latency (ok d, state) = (run_of latency d, state)
  after_decision latency (err e, state) = (failed_run (error_text e), state)

  abbrev unreadable : Run P.Float
  unreadable = failed_run "unreadable, dead-lettered by the worker"

  unfoldable pub decide_parsed : Option Envelope × Option Error → State → Run P.Float × State
  unfolding after_decision decide blank
  decide_parsed (none, parse_err) state = (unreadable, state)
  decide_parsed (some env, parse_err) (m, st) =
      if blank env.finding.canonical_name
      then (unreadable, (m, st))
      else after_decision (elapsed_ms (length m.calls))
          (decide P idx model env parse_err no_provenance m st)

  -- `decideOne`
  unfoldable pub decide_one : P.Bytes → State → Run P.Float × State
  unfolding decide_parsed parse
  decide_one body state =
      decide_parsed (parse P.unmarshal_envelope P.canonicalize P.sum_of body) state

  abbrev pub judged_run : Case → Run P.Float → Run P.Float
  judged_run c r = record r { judgement = judge c r }

  -- The loop over the repeats of a case.
  unfoldable pub repeat_case : ℕ → BuiltCase P.Bytes → State → List (Run P.Float) × State
  unfolding decide_one judge
  repeat_case zero c state = ([], state)
  repeat_case (suc n) c state =
      let (r, state') = decide_one c.body state in
      let (rs, state'') = repeat_case n c state' in (judged_run c.written r ∷ rs, state'')

  abbrev pub case_result : Case → List (Run P.Float) → CaseResult P.Float
  case_result c runs = record {
    name = c.name;
    kind = c.kind;
    origin = c.origin;
    prefer = c.prefer;
    accept = c.accept;
    runs = runs;
  }

  -- `decideAll`
  unfoldable pub decide_all :
      ℕ → List (BuiltCase P.Bytes) → State → List (CaseResult P.Float) × State
  unfolding repeat_case
  decide_all repeats [] state = ([], state)
  decide_all repeats (c ∷ cs) state =
      let (runs, state') = repeat_case repeats c state in
      let (results, state'') = decide_all repeats cs state' in
      (case_result c.written runs ∷ results, state'')

-- `mark`
unfoldable pub mark : {Float : Type 0} → Run Float → String
unfolding join
mark r =
    if r.error == ""
    then (if r.judgement.right then "right" else "WRONG")
      <> (" "
          <> (r.verdict
              <> (if is_empty r.judgement.unsupported
                  then ""
                  else " unsupported " <> join r.judgement.unsupported ",")))
    else "ERROR " <> r.error

-- What `tallyRuns` counts a run under.
unfoldable pub tally_key : {Float : Type 0} → Run Float → String
tally_key r =
    if r.error == ""
    then (if is_empty r.judgement.unsupported then r.verdict else r.verdict <> "[unsupported]")
    else "error"

unfoldable pub tally_counts :
    {Float : Type 0} → List (Run Float) → List (String × ℕ) → List (String × ℕ)
unfolding tally_key bump
tally_counts [] counts = counts
tally_counts (r ∷ rs) counts = tally_counts rs (bump (tally_key r) counts)

unfoldable pub count_right : {Float : Type 0} → List (Run Float) → ℕ
count_right [] = 0
count_right (r ∷ rs) = let rest = count_right rs in if r.judgement.right then suc rest else rest

abbrev parts_of : List (String × ℕ) → List String
parts_of [] = []
parts_of ((k, n) ∷ counts) = (k <> (" x" <> decimal n)) ∷ parts_of counts

-- `tallyRuns`
unfoldable pub tally_runs : {Float : Type 0} → List (Run Float) → String
unfolding tally_counts count_right join sort_texts
tally_runs runs =
    join (sort_texts (parts_of (tally_counts runs []))) ", "
    <> (" (" <> (decimal (count_right runs) <> ("/" <> (decimal (length runs) <> " right)"))))
