-- ===== src/Verdict.antt =====
-- internal/verdict: the record and its contract, the rules' verdicts, and what is proved of them.
pub mod Record
pub mod Classify
pub mod Valid
pub mod Rules
pub mod Citations
pub mod Parsed
