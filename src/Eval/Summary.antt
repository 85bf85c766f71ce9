-- ===== src/Eval/Summary.antt =====
-- internal/eval/score.go: what the numbers of a summary count.
use mathlib.Core.List.{[]}
use ai_k8s.Prelude.{
  ◌≡◌, ◌≢◌, refl, ap, String, false, not, ◌&&◌, List, if◌then◌else◌, is_empty, ◌==◌, Eq-string,
  arith, length,
}
use ai_k8s.Corpus.Index.{lookup}
use ai_k8s.Eval.Totals.{CaseResult, Summary, error_name, Totals, no_summary, summarize, percentile}
use ai_k8s.Eval.Weights.{one_if, weight_of, measure-from_zero}
use ai_k8s.Eval.Numbers.{
  count_at, tally_at, reliable_cases, runs-Weighs, right-Weighs, preferred-Weighs,
  unsupported-Weighs, errors-Weighs, tally_runs-Weighs, tally_right-Weighs, failed-Weighs,
  calls-Weighs, input-Weighs, output-Weighs, cases_right-count_cases, cases_kept,
}
use ai_k8s.Eval.Calls.{calls_of, latencies_of, spent, count_cases-Called}
use ai_k8s.Eval.Steady.{inconsistent_cases, inconsistent-count_cases}

module _ {Float : Type 0} (add_float : Float → Float → Float) where
  -- A summary of results, by what each of its numbers counts.
  pub record IsSummary (zero_float : Float) (results : List (CaseResult Float)) (s : Summary Float)
      : Type 0 where
    pub cases : s.cases ≡ length results
    pub runs : s.runs ≡ weight_of (λ kind r. 1) results
    pub right : s.right ≡ weight_of (λ kind r. one_if r.judgement.right) results
    pub preferred : s.preferred ≡ weight_of (λ kind r. one_if r.judgement.preferred) results
    pub unsupported :
        s.unsupported
        ≡ weight_of (λ kind r. one_if (not (is_empty r.judgement.unsupported))) results
    pub calls_failed : s.calls_failed ≡ weight_of (λ kind r. one_if (not (r.error == ""))) results
    pub cases_right_every_run : s.cases_right_every_run ≡ reliable_cases results
    pub cases_inconsistent : s.cases_inconsistent ≡ inconsistent_cases results
    pub latency_p50_ms : s.latency_p50_ms ≡ percentile (latencies_of (calls_of results)) 50
    pub latency_p95_ms : s.latency_p95_ms ≡ percentile (latencies_of (calls_of results)) 95
    pub cost_usd : s.cost_usd ≡ spent add_float zero_float (calls_of results)
    pub model_calls :
        s.model_calls ≡ weight_of (λ kind r. one_if (r.error == "" && r.called)) results
    pub input_tokens :
        s.input_tokens
        ≡ weight_of (λ kind r. if r.error == "" && r.called then r.input_tokens else 0) results
    pub output_tokens :
        s.output_tokens
        ≡ weight_of (λ kind r. if r.error == "" && r.called then r.output_tokens else 0) results
    pub errors :
        (name : String)
        → name ≢ ""
        → count_at name s.errors
          ≡ weight_of (λ kind r. one_if (error_name r.judgement.error == name)) results
    pub kind_runs :
        (k : String)
        → (tally_at k s.by_kind).runs ≡ weight_of (λ kind r. one_if (kind == k)) results
    pub kind_right :
        (k : String)
        → (tally_at k s.by_kind).right
          ≡ weight_of (λ kind r. one_if (kind == k && r.judgement.right)) results

  -- Each number of `Summarize` counts, or adds up, what it is named for: over all runs, over the runs of
  -- a kind of case or with a kind of mistake, over the completed runs that called the model, over the
  -- cases that are right on every run, and over those of which two completed runs differ. The latencies
  -- are percentiles of those of the calls.
  pub summarize-IsSummary :
      (zero_float : Float) (system : String) (results : List (CaseResult Float))
      → IsSummary zero_float results (summarize add_float zero_float system results)
  unfolding summarize lookup
  summarize-IsSummary zero_float system results =
      let start : Totals add_float = record {
        summary = no_summary add_float zero_float system (length results);
        latencies = [];
        all_right = false;
        verdicts = [];
      } in
      record {
        cases = cases_kept add_float results start;
        runs = measure-from_zero add_float _ _ (runs-Weighs add_float) results start refl;
        right = measure-from_zero add_float _ _ (right-Weighs add_float) results start refl;
        preferred = measure-from_zero add_float _ _ (preferred-Weighs add_float) results start refl;
        unsupported =
            measure-from_zero add_float _ _ (unsupported-Weighs add_float) results start refl;
        calls_failed = measure-from_zero add_float _ _ (failed-Weighs add_float) results start refl;
        cases_right_every_run = omega (arith, cases_right-count_cases add_float results start);
        cases_inconsistent = omega (arith, inconsistent-count_cases add_float results start);
        latency_p50_ms =
            ap (λ ns. percentile ns 50) (count_cases-Called add_float results start).latencies;
        latency_p95_ms =
            ap (λ ns. percentile ns 95) (count_cases-Called add_float results start).latencies;
        cost_usd = (count_cases-Called add_float results start).cost;
        model_calls = measure-from_zero add_float _ _ (calls-Weighs add_float) results start refl;
        input_tokens = measure-from_zero add_float _ _ (input-Weighs add_float) results start refl;
        output_tokens =
            measure-from_zero add_float _ _ (output-Weighs add_float) results start refl;
        errors = λ name named.
            measure-from_zero add_float _ _ (errors-Weighs add_float name named) results start refl;
        kind_runs =
            λ k. measure-from_zero add_float _ _ (tally_runs-Weighs add_float k) results start refl;
        kind_right = λ k.
            measure-from_zero add_float _ _ (tally_right-Weighs add_float k) results start refl;
      }
