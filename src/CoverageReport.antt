-- ===== src/CoverageReport.antt =====
-- coverage_report.py
pub mod Groups
pub mod FileCoverage
pub mod Lcov
pub mod LcovLines
pub mod Report
pub mod Missing
pub mod Thresholds
pub mod Main
pub mod Written
pub mod DataLines
pub mod ReadBack
