-- ===== src/Corpus.antt =====
-- pkg/corpus: the labelled cases the gate is measured against.
pub mod Reasons
pub mod Paths
pub mod Case
pub mod Site
pub mod Samples
pub mod Validity
