-- ===== src/Client.antt =====
-- crates/netdiag-ipc/src/client.rs: the calls of a client on one connection. `Model` has the state and its
-- steps; `Own`, `Ends` and `Stuck` the theorems.
pub mod Model
pub mod Own
pub mod Ends
pub mod Stuck
pub mod Checks
