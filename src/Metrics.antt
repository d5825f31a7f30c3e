-- ===== src/Metrics.antt =====
-- internal/metrics: the labels of the API metrics, and the collector of the resources' phases.
pub mod Classify
pub mod Labels
pub mod Collector
pub mod Totals
pub mod Tests
