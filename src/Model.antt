-- ===== src/Model.antt =====
-- internal/model: the model's half of a verdict.
pub mod Prompt
pub mod Spend
pub mod Resources
pub mod Settle
pub mod Ceiling
pub mod Anchor
pub mod Sound
pub mod Settling
pub mod Apart
