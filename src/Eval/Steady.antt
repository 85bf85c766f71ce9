-- ===== src/Eval/Steady.antt =====
-- internal/eval/score.go: the cases whose verdict differed between runs.
use mathlib.Core.List.{[]}
use ai_k8s.Prelude.{
  ◌≡◌, refl, sym, ap, ◌∙◌, inl, inr, ℕ, ◌+◌, ◌≤◌, String, Bool, false, not, ◌||◌, List, ◌∷◌,
  if◌then◌else◌, is_empty, length, ltb, ◌==◌, Eq-string, arith, Bool-cases,
}
use ai_k8s.Eval.Judge.{Run}
use ai_k8s.Eval.Totals.{
  CaseResult, Totals, add_name, count_judgement, count_call, count_run, count_runs, end_case,
  count_case, count_cases,
}
use ai_k8s.Eval.Mode.{completed}
use ai_k8s.Eval.Weights.{one_if}

add_name-grows : (v : String) (vs : List String) → length vs ≤ length (add_name v vs)
unfolding add_name
add_name-grows v [] = omega arith
add_name-grows v (x ∷ xs) = ground (arith, add_name-grows v xs)

module _ {Float : Type 0} where
  -- Whether some run has a verdict other than the first one's.
  abbrev any_other : String → List (Run Float) → Bool
  any_other v [] = false
  any_other v (r ∷ rs) = not (v == r.verdict) || any_other v rs

  abbrev pub differ : List (Run Float) → Bool
  differ [] = false
  differ (r ∷ rs) = any_other r.verdict rs

  -- The cases of which two completed runs have different verdicts.
  abbrev pub inconsistent_cases : List (CaseResult Float) → ℕ
  inconsistent_cases [] = 0
  inconsistent_cases (cr ∷ crs) = one_if (differ (completed cr.runs)) + inconsistent_cases crs

  abbrev gathered : List (Run Float) → List String → List String
  gathered [] vs = vs
  gathered (r ∷ rs) vs = gathered rs (add_name r.verdict vs)

  gathered-grows : (rs : List (Run Float)) (vs : List String) → length vs ≤ length (gathered rs vs)
  gathered-grows [] vs = omega arith
  gathered-grows (r ∷ rs) vs =
      omega (arith, gathered-grows rs (add_name r.verdict vs), add_name-grows r.verdict vs)

  gathered-other :
      (v : String) (rs : List (Run Float)) → ltb 1 (length (gathered rs (v ∷ []))) ≡ any_other v rs
  unfolding add_name
  gathered-other v [] = ground arith
  gathered-other v (r ∷ rs) = elim (Bool-cases (v == r.verdict)) [
    | inl same ↦ rw same (gathered-other v rs)
    | inr apart ↦ rw apart (ground (arith, gathered-grows rs (v ∷ r.verdict ∷ [])))
  ]

  gathered-differ : (rs : List (Run Float)) → ltb 1 (length (gathered rs [])) ≡ differ rs
  unfolding add_name
  gathered-differ [] = ground arith
  gathered-differ (r ∷ rs) = gathered-other r.verdict rs

  gathered-completed :
      (r : Run Float) (rs : List (Run Float)) (vs : List String)
      → gathered (completed (r ∷ rs)) vs
        ≡ gathered (completed rs) (if r.error == "" then add_name r.verdict vs else vs)
  unfolding completed
  gathered-completed r rs vs = elim (Bool-cases (r.error == "")) [
    | inl whole ↦ rw whole refl
    | inr failed ↦ rw failed refl
  ]

module _ {Float : Type 0} (add_float : Float → Float → Float) where
  verdicts-count_run :
      (kind : String) (r : Run Float) (t : Totals add_float)
      → ((count_run add_float kind r t).verdicts
          ≡ (if r.error == "" then add_name r.verdict t.verdicts else t.verdicts))
        × ((count_run add_float kind r t).summary.cases_inconsistent ≡ t.summary.cases_inconsistent)
  unfolding count_run count_judgement count_call
  verdicts-count_run kind r t = elim (Bool-cases (r.error == "")) [
    | inr failed ↦ rw failed (refl, refl)
    | inl whole ↦ elim (Bool-cases (r.called)) [
      | inl called ↦ rw (whole, called) (refl, refl)
      | inr free ↦ rw (whole, free) (refl, refl)
    ]
  ]

  verdicts-count_runs :
      (kind : String) (rs : List (Run Float)) (t : Totals add_float)
      → ((count_runs add_float kind rs t).verdicts ≡ gathered (completed rs) t.verdicts)
        × ((count_runs add_float kind rs t).summary.cases_inconsistent
            ≡ t.summary.cases_inconsistent)
  unfolding count_runs
  verdicts-count_runs kind [] t = (unfold completed in refl, refl)
  verdicts-count_runs kind (r ∷ rs) t =
      let below = verdicts-count_runs kind rs (count_run add_float kind r t) in
      let own = verdicts-count_run kind r t in
      (
        below.0 ∙ (ap (gathered (completed rs)) own.0 ∙ sym (gathered-completed r rs t.verdicts)),
        below.1 ∙ own.1,
      )

  -- After the loops of `Summarize`.
  pub inconsistent-count_cases :
      (crs : List (CaseResult Float)) (t : Totals add_float)
      → (count_cases add_float crs t).summary.cases_inconsistent
        ≡ t.summary.cases_inconsistent + inconsistent_cases crs
  unfolding count_cases
  inconsistent-count_cases [] t = omega arith
  inconsistent-count_cases (cr ∷ crs) t =
      let start : Totals add_float = record t {
        all_right = not (is_empty cr.runs);
        verdicts = [];
      } in
      let (names, same) = verdicts-count_runs cr.kind cr.runs start in
      let many : ltb 1 (length (count_runs add_float cr.kind cr.runs start).verdicts)
          ≡ differ (completed cr.runs) =
        ap (λ vs. ltb 1 (length vs)) names ∙ gathered-differ (completed cr.runs) in
      let own : (count_case add_float cr t).summary.cases_inconsistent
          ≡ t.summary.cases_inconsistent + one_if (differ (completed cr.runs)) =
        unfold count_case end_case in ground (arith, many, same) in
      omega (arith, own, inconsistent-count_cases crs (count_case add_float cr t))
