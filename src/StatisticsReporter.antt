-- ===== src/StatisticsReporter.antt =====
-- The periodic report on dropped messages (score/mw/log/detail/common/statistics_reporter.cpp).
pub mod Reporter
pub mod Intervals
pub mod Concurrent
mod Tests
