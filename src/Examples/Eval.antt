-- ===== src/Examples/Eval.antt =====
-- An evaluation at concrete cases (internal/eval, cmd/triage-eval).
use mathlib.Core.List.{[]}
use ai_k8s.Prelude.{ℕ, ◌+◌, String, ◌≡◌, refl, ◌↔◌, true, false, none, some, ok, Result, List, ◌∷◌}
use ai_k8s.Scc.{end}
use ai_k8s.Corpus.Index.{lookup, insert}
use ai_k8s.Eval.Totals.{
  CaseResult, percentile, sort_numbers, insert_number, number_at, summarize, bump,
}
use ai_k8s.Eval.Mode.{modal, mode_of, completed, verdict_counts, best_of, beats}
use ai_k8s.Eval.Modal.{IsMode, modal-IsMode}
use ai_k8s.Eval.Summary.{IsSummary, summarize-IsSummary}
use ai_k8s.Eval.Cases.{BuiltCase, CaseSet, written_cases, validate_set}
use ai_k8s.Eval.Fit.{AreFit, validate_set_iff}
use ai_k8s.Eval.Trial.{decide_all}
use ai_k8s.Eval.Trials.{AreTrials, decide_all-AreTrials}
use ai_k8s.Eval.Results.{Digests, Results}
use ai_k8s.Examples.Setting.{
  envelope_body, plain, corpus, public_bucket, settler, fresh_memory, empty_store,
}
use ai_k8s.Eval.Judge.{Case, Run, no_judgement}
use ai_k8s.Model.Settle.{not_refused}

abbrev open_bucket : Case
open_bucket = record {
  name = "open-bucket";
  kind = "contradiction";
  origin = "synthetic";
  prefer = "contradicts_decision";
  accept = [];
  support = "control:private_buckets" ∷ [];
  require = "control:private_buckets";
  why = "The control does not hold.";
  evidence = "";
  finding = "bucket";
  set = end;
  delete = [];
}

abbrev contradicting_run : Run ℕ
contradicting_run = record {
  verdict = "contradicts_decision";
  citations = "control:private_buckets" ∷ [];
  settled_by = "model";
  called = true;
  refusal = not_refused;
  error = "";
  latency_ms = 900;
  input_tokens = 900;
  output_tokens = 40;
  cost_usd = 1;
  reasoning = "The bucket is public.";
  missing = [];
  judgement = no_judgement;
}

abbrev samples : List ℕ
samples = 40 ∷ 10 ∷ 30 ∷ []

percentile_run : percentile samples 50 ≡ 30
unfolding percentile sort_numbers insert_number number_at
percentile_run = refl

abbrev failed_run : Run ℕ
failed_run = record contradicting_run { error = "no route" }

abbrev bucket_case : CaseResult ℕ
bucket_case = record {
  name = "open-bucket";
  kind = "contradiction";
  origin = "synthetic";
  prefer = "contradicts_decision";
  accept = [];
  runs = contradicting_run ∷ failed_run ∷ [];
}

modal-IsMode_example : IsMode (completed bucket_case.runs) (modal bucket_case)
modal-IsMode_example = modal-IsMode bucket_case

modal_run : modal bucket_case ≡ record { verdict = "contradicts_decision"; count = 1; of = 1 }
unfolding modal mode_of completed verdict_counts bump lookup insert best_of beats
modal_run = refl

summarize-IsSummary_example :
    IsSummary
      (λ a b. a + b)
      0
      (bucket_case ∷ [])
      (summarize (λ a b. a + b) 0 "rules+model" (bucket_case ∷ []))
summarize-IsSummary_example = summarize-IsSummary (λ a b. a + b) 0 "rules+model" (bucket_case ∷ [])

abbrev built_case : BuiltCase plain.Bytes
built_case = record { written = open_bucket; body = envelope_body public_bucket }

abbrev bucket_set : CaseSet plain.Bytes
bucket_set = record {
  name = "dev";
  sealed = false;
  note = "";
  cases = built_case ∷ [];
  digest = "sha256:aa";
}

validate_set_iff_example :
    (validate_set bucket_set corpus ≡ none) ↔ AreFit corpus [] (written_cases bucket_set.cases)
validate_set_iff_example = validate_set_iff bucket_set corpus

decide_all-AreTrials_example :
    AreTrials plain corpus
      (some settler)
      (λ n. 5)
      2
      bucket_set.cases
      (decide_all plain corpus
        (some settler)
        (λ n. 5)
        2
        bucket_set.cases
        (fresh_memory, empty_store)).0
decide_all-AreTrials_example =
    decide_all-AreTrials plain corpus (some settler) (λ n. 5) 2 bucket_set.cases
      (fresh_memory, empty_store)

abbrev digests : Digests
digests = record { of_local = λ mapping shown. "local"; of_upstream = λ shown. "upstream" }

-- A committed result over another prompt.
abbrev committed : Results plain
committed = record {
  header = record {
    set = "dev";
    sealed = false;
    set_digest = "sha256:aa";
    model = "m";
    model_version = "";
    location = "europe-north1";
    params = settler.params;
    prompt_digest = "sha256:old";
    local_digest = "local";
    upstream_digest = "upstream";
    agent_commit = "";
    corpus_commit = "";
    repeats = 5;
    ran_at = "2025-06-01T12:00:00Z";
  };
  summaries = [];
  cases = [];
}

abbrev reading : String → Result (Results plain)
reading path = ok committed
