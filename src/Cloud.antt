-- ===== src/Cloud.antt =====
-- internal/gcp: the adapters onto Google Cloud.
pub mod Vertex
pub mod Bucket
pub mod Log
pub mod Replies
