-- ===== src/Report.antt =====
-- The report's inputs and their grouping: composer/spec/source/report.
pub mod Verdict
pub mod Rollup
pub mod Schema
pub mod Grouping
pub mod Coverage
pub mod Partition
pub mod Collect
pub mod Table
pub mod Resolved
pub mod Build
pub mod Keys
pub mod Complete
pub mod Status
