-- ===== src/Capture/File.antt =====
-- daemon/src/capture.rs: `pcap_header`.
use netdiag.Prelude.{ℕ, ◌+◌, List, ◌++◌, length, take, drop, replicate, le16, le32}
use netdiag.Capture.Model.{LinkType, link_type_code}

-- `header[i..j].copy_from_slice(bytes)`, where the slice has the length of `bytes`.
abbrev pub write_at : ℕ → List ℕ → List ℕ → List ℕ
write_at i bytes header = take i header ++ (bytes ++ drop (i + length bytes) header)

unfoldable pub pcap_header : LinkType → ℕ → List ℕ
pcap_header link_type snaplen =
    let header = replicate 24 0 in
    let header = write_at 0 (le32 0xa1b2c3d4) header in
    let header = write_at 4 (le16 2) header in
    let header = write_at 6 (le16 4) header in
    let header = write_at 16 (le32 snaplen) header in
    write_at 20 (le32 (link_type_code link_type)) header
