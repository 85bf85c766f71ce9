-- ===== src/Eval/Mode.antt =====
-- internal/eval/score.go: the most frequent verdict of a case.
use mathlib.Core.Option
use mathlib.Core.List.{[]}
use ai_k8s.Prelude.{
  ℕ, String, Bool, true, ◌&&◌, ◌||◌, Option, none, some, List, ◌∷◌, if◌then◌else◌, length, ltb,
  ◌==◌, Eq-nat, Eq-string, less_text,
}
use ai_k8s.Eval.Judge.{Run}
use ai_k8s.Eval.Totals.{CaseResult, bump}

-- `counts` of `Modal`, and `n`: over the runs that completed.
module _ {Float : Type 0} where
  unfoldable pub completed : List (Run Float) → List (Run Float)
  completed [] = []
  completed (r ∷ rs) = let rest = completed rs in if r.error == "" then r ∷ rest else rest

  unfoldable pub verdict_counts : List (Run Float) → List (String × ℕ) → List (String × ℕ)
  unfolding bump
  verdict_counts [] counts = counts
  verdict_counts (r ∷ rs) counts = verdict_counts rs (bump r.verdict counts)

-- `Modal`'s result: the share is the float64 quotient of `count` and `of`, and 0 where `of` is.
pub record Mode : Type 0 where
  pub verdict : String
  pub count : ℕ
  pub of : ℕ

-- Whether a verdict replaces the best one so far; `none` is the start, -1.
unfoldable pub beats : String → ℕ → String → Option ℕ → Bool
beats v k best none = true
beats v k best (some n) = ltb n k || (k == n && less_text v best)

-- The loop over the counts; a Go map comes in any order.
unfoldable pub best_of : List (String × ℕ) → String → Option ℕ → String × Option ℕ
unfolding beats
best_of [] best n = (best, n)
best_of ((v, k) ∷ counts) best n =
    let taken = best_of counts v (some k) in
    let passed = best_of counts best n in if beats v k best n then taken else passed

-- `Modal` behind the counting, on the completed runs.
unfoldable pub mode_of : {Float : Type 0} → List (Run Float) → Mode
unfolding verdict_counts best_of
mode_of [] = record { verdict = ""; count = 0; of = 0 }
mode_of (r ∷ rs) =
    let (best, n) = best_of (verdict_counts (r ∷ rs) []) "" none in
    record { verdict = best; count = Option.get_or n 0; of = length (r ∷ rs) }

-- `CaseResult.Modal`
unfoldable pub modal : {Float : Type 0} → CaseResult Float → Mode
unfolding completed mode_of
modal cr = mode_of (completed cr.runs)
