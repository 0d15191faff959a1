-- ===== src/Session.antt =====
-- daemon/src/ipc/session.rs: one client connection. `Model` has the frames and the state, `Registry`
-- the table of running streams, `Serve` the read loop, the tasks that it spawns and their steps; the
-- theorems are in the other children.
pub mod Model
pub mod Registry
pub mod Serve
pub mod Bounds
pub mod Greeting
pub mod Tracked
pub mod Tidy
pub mod Spawned
pub mod Fresh
pub mod Tasks
pub mod Teardown
pub mod Checks
