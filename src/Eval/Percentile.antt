-- ===== src/Eval/Percentile.antt =====
-- internal/eval/score.go: `percentile` is the nearest rank.
use mathlib.Core.List.{[]}
use ai_k8s.Prelude.{ℕ, ◌+◌, ◌≤◌, List, ◌∷◌, if◌then◌else◌, leb, All}

-- How many of the numbers are at most `v`.
abbrev pub count_le : ℕ → List ℕ → ℕ
count_le v [] = 0
count_le v (n ∷ ns) = (if leb n v then 1 else 0) + count_le v ns

abbrev IsSorted : List ℕ → Type 0
IsSorted [] = Unit
IsSorted (n ∷ ns) = All (λ m. n ≤ m) ns × IsSorted ns
