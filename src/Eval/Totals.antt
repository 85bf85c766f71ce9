-- ===== src/Eval/Totals.antt =====
-- internal/eval/score.go: the totals over the runs of a system.
use mathlib.Core.Option
use mathlib.Core.List.{[]}
use ai_k8s.Prelude.{
  ℕ, zero, suc, ◌+◌, ◌-◌, ◌*◌, ◌/◌, String, Bool, false, not, ◌&&◌, List, ◌∷◌, ◌++◌, if◌then◌else◌,
  is_empty, length, ltb, ◌==◌, Eq-nat, Eq-string,
}
use ai_k8s.Corpus.Index.{lookup, insert}
use ai_k8s.Eval.Judge.{
  ErrorKind, unset, silenced, missed_contradiction, overconfident, false_contradiction,
  needless_abstention, unsupported_citation, call_failed, other, Run,
}

pub record CaseResult (Float : Type 0) : Type 0 where
  pub name : String
  pub kind : String
  pub origin : String
  pub prefer : String
  pub accept : List String
  pub runs : List (Run Float)

-- `Tally`
pub record Tally : Type 0 where
  pub right : ℕ
  pub runs : ℕ

pub record Summary (Float : Type 0) : Type 0 where
  pub system : String
  pub cases : ℕ
  pub runs : ℕ
  pub right : ℕ
  pub preferred : ℕ
  pub unsupported : ℕ
  pub calls_failed : ℕ
  pub cases_right_every_run : ℕ
  pub cases_inconsistent : ℕ
  pub errors : List (String × ℕ)
  pub by_kind : List (String × Tally)
  pub model_calls : ℕ
  pub latency_p50_ms : ℕ
  pub latency_p95_ms : ℕ
  pub input_tokens : ℕ
  pub output_tokens : ℕ
  pub cost_usd : Float

-- The texts of the kinds of mistake.
abbrev pub error_name : ErrorKind → String
error_name unset = ""
error_name silenced = "silenced"
error_name missed_contradiction = "missed_contradiction"
error_name overconfident = "overconfident"
error_name false_contradiction = "false_contradiction"
error_name needless_abstention = "needless_abstention"
error_name unsupported_citation = "unsupported_citation"
error_name call_failed = "call_failed"
error_name other = "other"

-- `m[name]++` on a map of counts.
unfoldable pub bump : String → List (String × ℕ) → List (String × ℕ)
unfolding lookup insert
bump name counts = insert name (suc (Option.get_or (lookup name counts) 0)) counts

-- `m[name] = true` on a set.
unfoldable pub add_name : String → List String → List String
add_name name [] = name ∷ []
add_name name (x ∷ xs) = let rest = add_name name xs in if x == name then x ∷ xs else x ∷ rest

-- One more run of a kind.
unfoldable pub tallied : String → Bool → List (String × Tally) → List (String × Tally)
unfolding lookup insert
tallied kind right by_kind =
    let t = Option.get_or (lookup kind by_kind) (record { right = 0; runs = 0 }) in
    insert kind (record { right = if right then suc t.right else t.right; runs = suc t.runs })
      by_kind

-- sort.Slice of numbers, as an insertion sort: equal numbers are the same number.
unfoldable pub insert_number : ℕ → List ℕ → List ℕ
insert_number n [] = n ∷ []
insert_number n (m ∷ ms) =
    let later = insert_number n ms in if ltb m n then m ∷ later else n ∷ m ∷ ms

unfoldable pub sort_numbers : List ℕ → List ℕ
unfolding insert_number
sort_numbers [] = []
sort_numbers (n ∷ ns) = insert_number n (sort_numbers ns)

-- `xs[i]`; the index is in range where it is used.
unfoldable pub number_at : List ℕ → ℕ → ℕ
number_at [] i = 0
number_at (n ∷ ns) zero = n
number_at (n ∷ ns) (suc i) = number_at ns i

-- `percentile`, with `p` in hundredths: for 0.50 and 0.95 the float64 product of p and a length below
-- 2^46 rounds up to the same integer as the exact one.
unfoldable pub percentile : List ℕ → ℕ → ℕ
unfolding sort_numbers number_at
percentile [] p = 0
percentile (x ∷ xs) p = number_at (sort_numbers (x ∷ xs)) ((p * length (x ∷ xs) + 99) / 100 - 1)

module _ {Float : Type 0} (add_float : Float → Float → Float) where
  -- The variables of the loops of `Summarize`.
  pub record Totals : Type 0 where
    pub summary : Summary Float
    pub latencies : List ℕ
    pub all_right : Bool
    pub verdicts : List String

  -- What every run adds to the summary.
  unfoldable pub count_judgement : String → Run Float → Summary Float → Summary Float
  unfolding bump tallied
  count_judgement kind r s =
      let j = r.judgement in
      record s {
        runs = suc s.runs;
        right = if j.right then suc s.right else s.right;
        preferred = if j.preferred then suc s.preferred else s.preferred;
        unsupported = if is_empty j.unsupported then s.unsupported else suc s.unsupported;
        errors = if error_name j.error == "" then s.errors else bump (error_name j.error) s.errors;
        by_kind = tallied kind j.right s.by_kind;
      }

  -- What a run adds behind that, where its call completed.
  unfoldable pub count_call : Run Float → Totals → Totals
  unfolding add_name
  count_call r t =
      let s = t.summary in
      if r.called
      then record {
        summary = record s {
          model_calls = suc s.model_calls;
          input_tokens = s.input_tokens + r.input_tokens;
          output_tokens = s.output_tokens + r.output_tokens;
          cost_usd = add_float s.cost_usd r.cost_usd;
        };
        latencies = t.latencies ++ (r.latency_ms ∷ []);
        all_right = t.all_right;
        verdicts = add_name r.verdict t.verdicts;
      }
      else record t { verdicts = add_name r.verdict t.verdicts }

  -- One run of a case.
  unfoldable pub count_run : String → Run Float → Totals → Totals
  unfolding count_judgement count_call
  count_run kind r t =
      let s = count_judgement kind r t.summary in
      let t' = record t { summary = s; all_right = t.all_right && r.judgement.right } in
      if r.error == ""
      then count_call r t'
      else record t' { summary = record s { calls_failed = suc s.calls_failed } }

  unfoldable pub count_runs : String → List (Run Float) → Totals → Totals
  unfolding count_run
  count_runs kind [] t = t
  count_runs kind (r ∷ rs) t = count_runs kind rs (count_run kind r t)

  -- The end of a case.
  unfoldable pub end_case : Totals → Totals
  end_case t =
      let s = t.summary in
      record t {
        summary = record s {
          cases_right_every_run =
              if t.all_right then suc s.cases_right_every_run else s.cases_right_every_run;
          cases_inconsistent =
              if ltb 1 (length t.verdicts) then suc s.cases_inconsistent else s.cases_inconsistent;
        };
      }

  unfoldable pub count_case : CaseResult Float → Totals → Totals
  unfolding count_runs end_case
  count_case cr t =
      end_case (
        count_runs cr.kind cr.runs (record t { all_right = not (is_empty cr.runs); verdicts = [] }))

  unfoldable pub count_cases : List (CaseResult Float) → Totals → Totals
  unfolding count_case
  count_cases [] t = t
  count_cases (cr ∷ crs) t = count_cases crs (count_case cr t)

  -- The summary that `Summarize` starts from; `zero_float` is 0.
  abbrev pub no_summary : Float → String → ℕ → Summary Float
  no_summary zero_float system cases = record {
    system = system;
    cases = cases;
    runs = 0;
    right = 0;
    preferred = 0;
    unsupported = 0;
    calls_failed = 0;
    cases_right_every_run = 0;
    cases_inconsistent = 0;
    errors = [];
    by_kind = [];
    model_calls = 0;
    latency_p50_ms = 0;
    latency_p95_ms = 0;
    input_tokens = 0;
    output_tokens = 0;
    cost_usd = zero_float;
  }

  -- `Summarize`
  unfoldable pub summarize : Float → String → List (CaseResult Float) → Summary Float
  unfolding count_cases percentile
  summarize zero_float system results =
      let t = count_cases results (record {
        summary = no_summary zero_float system (length results);
        latencies = [];
        all_right = false;
        verdicts = [];
      }) in
      record (t.summary) {
        latency_p50_ms = percentile t.latencies 50;
        latency_p95_ms = percentile t.latencies 95;
      }
