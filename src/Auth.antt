-- ===== src/Auth.antt =====
-- daemon/src/ipc/auth.rs: who may talk to the daemon. `Peer` has the policy and the decision,
-- `Accepts` the theorem.
pub mod Peer
pub mod Accepts
pub mod Checks
