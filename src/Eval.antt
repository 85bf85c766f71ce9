-- ===== src/Eval.antt =====
-- internal/eval: how an evaluation scores one run.
pub mod Judge
pub mod Score
pub mod Totals
pub mod Percentile
pub mod Weights
pub mod Calls
pub mod Steady
pub mod Numbers
pub mod Summary
pub mod Mode
pub mod Best
pub mod Modal
pub mod Derive
pub mod Cases
pub mod Fit
pub mod Paths
pub mod Trial
pub mod Results
pub mod Trials
pub mod Fresh
