-- ===== src/Mtu.antt =====
-- daemon/src/probe/mtu.rs: path MTU discovery by echoes of shrinking size. `Search` has the
-- candidates and the search, `Candidates` and `Brackets` the theorems.
pub mod Search
pub mod Candidates
pub mod Brackets
pub mod Checks
