-- ===== src/Findings.antt =====
-- daemon/src/diag/rules.rs: the rule-based interpretation of check results.
pub mod Model
pub mod Index
pub mod Rules
pub mod Evaluate
pub mod Emits
pub mod Lift
pub mod Grounds
pub mod Order
pub mod Report
pub mod Distinct
pub mod Consistent
pub mod Checks
