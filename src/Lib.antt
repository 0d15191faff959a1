-- ===== src/Lib.antt =====
-- netdiag: a root daemon on Android that collects the state of the network, diagnoses it, and tells
-- an app over a Unix socket.
--
-- A client frame is read by the codec (crates/netdiag-ipc/src/codec.rs) in the read loop of a session
-- (daemon/src/ipc/session.rs), which answers it or spawns the call. A diagnosis runs checks and
-- gives them to the rules (daemon/src/diag/rules.rs), which return findings. The answer about one
-- app (daemon/src/correlate.rs) is put together from the routing rules, the route lookups, the
-- interfaces, the framework's networks and the app's sockets, whose marks are read as in
-- daemon/src/util.rs.
--
-- - Prelude: the library names and the helpers that all files share: Boolean tests, lists, texts,
--   bytes, bits, slices, and the stable sort.
-- - Codec: `read_frame`, `write_frame` and `read_varint`. A reader is the list of what its `read`
--   calls return. The wire format of prost is the record `Wire` of Codec.Wire, with the documented
--   laws that a message decodes from its encoding and that a length is a varint.
-- - Client: crates/netdiag-ipc/src/client.rs. A connection is a list of events, each the progress of one
--   task of the client up to its next await.
-- - Fwmark: the marks and table names of daemon/src/util.rs.
-- - Findings: daemon/src/diag/rules.rs. Model has the messages, Index is `CheckIndex`, Rules the table
--   with one file for each section of the rules, Evaluate is `evaluate`. An enum field of a message
--   is a number, as prost stores it. The hash maps are functions.
-- - Correlate: daemon/src/correlate.rs, and `rule_can_match_uid` of daemon/src/collect/routes.rs. What
--   the kernel answers is the record `Kernel` of Correlate.App. An i32 is its bit pattern.
-- - Session: daemon/src/ipc/session.rs. A connection is a list of events, each one step of the read
--   loop or of a task; the registry is an association list. Spawning a stream task and registering
--   it are two events, since the task may run in between. Aborting a task takes effect at once.
-- - Auth: daemon/src/ipc/auth.rs. The kernel's credentials and /proc are arguments.
-- - Capture: daemon/src/capture.rs, from `decode` to `pcap_header`. A read out of range would be a
--   panic, and is `none` here (Prelude.Slices, and Prelude.Reads on when it is not).
-- - Mtu: daemon/src/probe/mtu.rs, with the answers to echoes as an argument.
-- - Icmp: daemon/src/probe/icmp.rs, from `checksum` to `matches_reply`.
-- - Firewall: daemon/src/collect/firewall.rs, the rule word of a uid; what the eBPF map answers is an
--   argument.
-- - Probe: daemon/src/probe/mod.rs, the routing of a probe and its result.
-- - Dns: daemon/src/probe/dns.rs. A name is its bytes. What a function returns is a value, an error, a
--   panic, or nothing where a loop has not ended; Dns.Total is on when it is one of the first two.
-- - Routes: daemon/src/collect/routes.rs, the conversion of netlink's routes and rules and the two
--   dumps, given the messages.
-- - Neigh: daemon/src/collect/neigh.rs, the same of the neighbour table.
-- - Diag: daemon/src/diag/mod.rs, the checks that read the collected state, and a run. The checks that
--   probe, and the one of the firewall where no uid is given, are arguments of it. A check takes
--   a family as a Boolean, and the state as the record of Diag.State.
-- - Watch: daemon/src/watch.rs. The cache's maps are association lists (Prelude.Maps); the netlink
--   stream is a list of messages, each with what the clocks show. An address with its prefix length
--   stands for the text that the cache keeps of the two.
--
-- Loops are structural recursion but for the folding of an ICMP checksum, which has fuel for four
-- rounds; a u32 is folded in as many; and the walk over a DNS name, which has fuel for 129 labels, as many as
-- it takes before it gives up. Words keep their width: the codec's length is cut to 64 bits at
-- each group, the sums of a checksum to 32 bits, and a mark is a number below 2 ^ 32.
--
-- Not modelled: the requests to netlink, the collectors of links and sockets, /proc and eBPF, the TCP
-- and TLS probes, the checks of daemon/src/diag/mod.rs that probe and the collection of what the
-- checks share, the daemon's calls, the sockets of the capture and of the probes, the listener and
-- the app. They are system calls, third-party libraries, or parts that the files here do not reach. Of a session the writer task, its queue's
-- bound, the bodies of the calls and the logging are left out; of the answer about an app, the
-- firewall note and the fields that are copied.
pub mod Prelude
pub mod Client
pub mod Codec
pub mod Fwmark
pub mod Correlate
pub mod Findings
pub mod Session
pub mod Auth
pub mod Mtu
pub mod Icmp
pub mod Firewall
pub mod Routes
pub mod Neigh
pub mod Watch
pub mod Probe
pub mod Dns
pub mod Diag
pub mod Capture
