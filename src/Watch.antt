-- ===== src/Watch.antt =====
-- daemon/src/watch.rs: kernel notifications become events on a bus. `Model` has the cache and the
-- events; `Link`, `Address`, `Entries` one handler each or more; `Bus` the loop and the bus; `Filter` what a
-- subscription gets.
pub mod Severity
pub mod Model
pub mod Link
pub mod Address
pub mod Entries
pub mod Bus
pub mod Filter
pub mod Follow
pub mod Edges
pub mod Numbers
pub mod Narrow
pub mod Checks
