-- ===== src/Worker/Counting.antt =====
-- What the counters record of a verdict and of a model's outcome: `count` and the counting half of
-- `settle` (internal/worker/worker.go).
use ai_k8s.Prelude.{suc, Bool, true, false, if◌then◌else◌, ◌==◌, Eq-string, Error, model_failed}
use ai_k8s.Verdict.Record.{Value, VerdictRecord, settled_by_rules, settled_by_model}
use ai_k8s.Verdict.Record.{accepted, contradicts_decision, new, insufficient_evidence, other}
use ai_k8s.Model.Settle.{Refusal, not_refused, refused_budget, refused_ceiling}
use ai_k8s.Worker.World.{Counts}

-- The test of `count`'s first switch.
unfoldable pub count_settled : VerdictRecord → Counts → Counts
count_settled r c =
    if r.settled_by == settled_by_rules
    then record c { settled_by_rules = suc c.settled_by_rules }
    else if r.settled_by == settled_by_model
    then record c { settled_by_model = suc c.settled_by_model }
    else c

unfoldable pub count_verdict : Value → Counts → Counts
count_verdict accepted c = record c { accepted = suc c.accepted }
count_verdict contradicts_decision c = record c {
  contradicts_decision = suc c.contradicts_decision;
}
count_verdict new c = record c { new = suc c.new }
count_verdict insufficient_evidence c = record c {
  insufficient_evidence = suc c.insufficient_evidence;
}
count_verdict (other v) c = c

-- `count`
unfoldable pub count_record : VerdictRecord → Counts → Counts
count_record r c = count_verdict r.verdict (count_settled r c)

abbrev pub count_called : Bool → Counts → Counts
count_called true c = record c { model_calls = suc c.model_calls }
count_called false c = c

unfoldable pub count_refusal : Refusal → Counts → Counts
count_refusal refused_budget c = record c { refused_budget = suc c.refused_budget }
count_refusal refused_ceiling c = record c { refused_ceiling = suc c.refused_ceiling }
count_refusal not_refused c = c
count_refusal _ c = record c { model_output_rejected = suc c.model_output_rejected }

abbrev pub is_model_error : Error → Bool
is_model_error (model_failed why) = true
is_model_error _ = false
