-- ===== src/Datasets.antt =====
-- reference/datasets: the nine dataset packages. Each has its models, its adapter and the first observation
-- of its environment; the scorers call the reference rules or the harness.
pub mod Adapters
pub mod Prompts
pub mod Answers
pub mod Annotations
pub mod Gsm8k
pub mod Olymmath
pub mod Pubmedqa
pub mod Scitab
pub mod Dscodebench
pub mod Swe
pub mod Samples
pub mod Privacy
