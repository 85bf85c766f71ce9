-- ===== src/Corpus/Load.antt =====
-- internal/corpus: the loaders of the five sources, and the compilation of the index.
pub mod Files
pub mod Checkov
pub mod Threats
pub mod Markdown
pub mod Yaml
pub mod Compile
pub mod Keeps
pub mod Baseline
pub mod Enforced
pub mod Headings
pub mod Tables
pub mod Compiled
pub mod Silent
pub mod Anchors
