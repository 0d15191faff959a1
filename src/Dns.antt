-- ===== src/Dns.antt =====
-- daemon/src/probe/dns.rs: the DNS client. `Model` has its types, `Encode` the query, `Decode` the response,
-- `Nat64` the DNS64 discovery and `Probe` the text of the result.
pub mod Model
pub mod Encode
pub mod Decode
pub mod Nat64
pub mod Total
pub mod Append
pub mod Names
pub mod RoundTrip
pub mod Embed
pub mod Probe
pub mod Checks
