-- ===== src/Routes.antt =====
-- daemon/src/collect/routes.rs: routes and policy-routing rules as the kernel reports them. `Model` has
-- the messages, `Convert` the conversions, `Dump` the two dumps.
pub mod Model
pub mod Convert
pub mod Rules
pub mod Dump
pub mod Sorted
pub mod Checks
