-- ===== src/Corpus.antt =====
-- internal/corpus: the index of what a verdict may cite.
pub mod Index
pub mod Maps
pub mod Resolve
pub mod Add
pub mod Mapping
pub mod Categories
pub mod Checked
pub mod Ids
pub mod Kinds
pub mod Load
