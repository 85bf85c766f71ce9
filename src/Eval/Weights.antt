-- ===== src/Eval/Weights.antt =====
-- internal/eval/score.go: what the loops of `Summarize` add up, as sums over all runs.
use mathlib.Core.List.{[]}
use ai_k8s.Prelude.{
  ℕ, ◌+◌, ◌≡◌, refl, inl, inr, String, Bool, not, List, ◌∷◌, if◌then◌else◌, is_empty, ◌==◌,
  Eq-string, arith, Bool-cases,
}
use ai_k8s.Eval.Judge.{Run}
use ai_k8s.Eval.Totals.{
  CaseResult, Tally, Summary, Totals, count_judgement, count_call, count_run, count_runs, end_case,
  count_case, count_cases,
}

abbrev pub one_if : Bool → ℕ
one_if b = if b then 1 else 0

-- The judgement's part of a summary, which nothing but `count_judgement` moves.
pub record JudgedPart : Type 0 where
  pub runs : ℕ
  pub right : ℕ
  pub preferred : ℕ
  pub unsupported : ℕ
  pub errors : List (String × ℕ)
  pub by_kind : List (String × Tally)

module _ {Float : Type 0} where
  -- A weight of each run, by the kind of its case, summed over the runs of a case and over all cases.
  unfoldable pub weight_of_runs : (String → Run Float → ℕ) → String → List (Run Float) → ℕ
  weight_of_runs w kind [] = 0
  weight_of_runs w kind (r ∷ rs) = w kind r + weight_of_runs w kind rs

  unfoldable pub weight_of : (String → Run Float → ℕ) → List (CaseResult Float) → ℕ
  unfolding weight_of_runs
  weight_of w [] = 0
  weight_of w (cr ∷ crs) = weight_of_runs w cr.kind cr.runs + weight_of w crs

  abbrev pub judged_part : Summary Float → JudgedPart
  judged_part s = record {
    runs = s.runs;
    right = s.right;
    preferred = s.preferred;
    unsupported = s.unsupported;
    errors = s.errors;
    by_kind = s.by_kind;
  }

module _ {Float : Type 0} (add_float : Float → Float → Float) where
  judged_part-count_call :
      (r : Run Float) (t : Totals add_float)
      → judged_part (count_call add_float r t).summary ≡ judged_part t.summary
  unfolding count_call
  judged_part-count_call r t = elim (Bool-cases (r.called)) [
    | inl called ↦ rw called refl
    | inr free ↦ rw free refl
  ]

  pub judged_part-count_run :
      (kind : String) (r : Run Float) (t : Totals add_float)
      → judged_part (count_run add_float kind r t).summary
        ≡ judged_part (count_judgement add_float kind r t.summary)
  unfolding count_run
  judged_part-count_run kind r t = elim (Bool-cases (r.error == "")) [
    | inr failed ↦ rw failed refl
    | inl whole ↦ rw whole (judged_part-count_call r _)
  ]

  -- A measure of the totals that each run raises by its weight, and nothing else moves.
  pub record Weighs (measure : Summary Float → ℕ) (w : String → Run Float → ℕ) : Type 0 where
    pub run :
        (kind : String) (r : Run Float) (t : Totals add_float)
        → measure (count_run add_float kind r t).summary ≡ measure t.summary + w kind r
    pub finish : (t : Totals add_float) → measure (end_case add_float t).summary ≡ measure t.summary

  module _ (measure : Summary Float → ℕ) (w : String → Run Float → ℕ)
      (weighs : Weighs measure w) where
    measure-count_runs :
        (kind : String) (rs : List (Run Float)) (t : Totals add_float)
        → measure (count_runs add_float kind rs t).summary
          ≡ measure t.summary + weight_of_runs w kind rs
    unfolding count_runs weight_of_runs
    measure-count_runs kind [] t = omega arith
    measure-count_runs kind (r ∷ rs) t =
        omega
          (arith, measure-count_runs kind rs (count_run add_float kind r t), weighs.run kind r t)

    -- So the measure of the end is that of the start and the weights of all runs.
    pub measure-count_cases :
        (crs : List (CaseResult Float)) (t : Totals add_float)
        → measure (count_cases add_float crs t).summary ≡ measure t.summary + weight_of w crs
    unfolding count_cases weight_of
    measure-count_cases [] t = omega arith
    measure-count_cases (cr ∷ crs) t =
        let start : Totals add_float = record t {
          all_right = not (is_empty cr.runs);
          verdicts = [];
        } in
        let own : measure (count_case add_float cr t).summary
            ≡ measure t.summary + weight_of_runs w cr.kind cr.runs =
          unfold count_case in
          omega (
            arith,
            weighs.finish (count_runs add_float cr.kind cr.runs start),
            measure-count_runs cr.kind cr.runs start,
          ) in
        omega (arith, own, measure-count_cases crs (count_case add_float cr t))

    -- From 0 on, it is the weights of all runs.
    pub measure-from_zero :
        (crs : List (CaseResult Float)) (t : Totals add_float)
        → measure t.summary ≡ 0
        → measure (count_cases add_float crs t).summary ≡ weight_of w crs
    measure-from_zero crs t h = omega (arith, measure-count_cases crs t)
