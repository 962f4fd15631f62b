-- ===== src/Metrics.antt =====
-- src/metrics: histograms, label sets, and the registry of both.
pub mod Histogram
pub mod Series
pub mod Registry
pub mod Exposition
