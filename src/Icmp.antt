-- ===== src/Icmp.antt =====
-- daemon/src/probe/icmp.rs: the bytes of an echo. `Echo` has the checksum, the request and the test for
-- a reply, `Checksum` and `Replies` the theorems.
pub mod Echo
pub mod Folding
pub mod Checksum
pub mod Replies
pub mod Checks
