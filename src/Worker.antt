-- ===== src/Worker.antt =====
-- internal/worker: one delivery, from its body to its acknowledgement.
pub mod Decide
pub mod Half
pub mod Deciding
pub mod Decisions
pub mod Flow
pub mod World
pub mod Counting
pub mod Handle
pub mod Deliver
pub mod Safe
pub mod Steps
pub mod Advance
pub mod Safety
pub mod Frame
pub mod Framed
pub mod Reuse
pub mod Calm
pub mod Progress
pub mod Drill
pub mod Grounds
pub mod Forward
pub mod Startup
pub mod Launched
