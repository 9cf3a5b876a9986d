-- ===== src/Cfg.antt =====
-- worker/app/graphs/service/cfg_builder/java.py
pub mod Label
pub mod Graph
pub mod Statement
pub mod Method
pub mod Trace
pub mod Compose
pub mod Outcomes
pub mod WellFormed
pub mod Size
pub mod Metrics
pub mod Divergence
pub mod Gaps
pub mod Samples
