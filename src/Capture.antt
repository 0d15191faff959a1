-- ===== src/Capture.antt =====
-- daemon/src/capture.rs: what is shown of a captured packet, which packets pass the filter, and the
-- header of the capture file. `Model` has the messages, `Decode` and `Layers` the decoder, `Shown` its
-- one-line description, `Filter` the filter, `File` the header; the theorems are in the other children.
pub mod Model
pub mod Layers
pub mod Shown
pub mod Decode
pub mod Filter
pub mod File
pub mod Total
pub mod Links
pub mod Fields
pub mod Checks
