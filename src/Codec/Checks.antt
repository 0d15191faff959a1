-- ===== src/Codec/Checks.antt =====
-- The codec on concrete streams, and its theorems at concrete inputs. The messages here are byte
-- strings, with the varint that the wire format asks for.
use netdiag.Prelude.{
  ℕ, zero, suc, ◌+◌, ◌/◌, ◌%◌, ◌^◌, ◌≤◌, ◌<◌, ◌≡◌, refl, ◌⊎◌, inl, inr, false, none, some, List, [],
  ◌∷◌, ◌++◌, arith, IsU64, ltb, if◌then◌else◌, Bool-cases, length, replicate,
}
use netdiag.Codec.Wire.{Wire, IsVarint, encode_length_delimited}
use netdiag.Codec.Varint.{events, read_varint_clean}
use netdiag.Codec.RoundTrip.{read_frame-write_frame, read_frame_too_large, read_frame_bounds}
use netdiag.Codec.{
  Event, byte, unexpected_eof, io_error, ok, err, short_read, eof_in_varint, varint_too_long,
  read_error, frame_too_large, max_frame_bytes, read_varint, read_frame, Writer, write_frame,
}

groups : ℕ → ℕ → List ℕ
groups zero v = v ∷ []
groups (suc k) v =
    let rest = groups k (v / 128) in if ltb v 128 then v ∷ [] else (v % 128 + 128) ∷ rest

IsVarint-cons :
    (b v : ℕ) (bs : List ℕ)
    → 128 ≤ b
    → b < 256
    → v % 128 + 128 ≡ b
    → IsVarint (v / 128) bs
    → IsVarint v (b ∷ bs)
IsVarint-cons b v [] lo hi e h = elim h [ ]
IsVarint-cons b v (c ∷ bs) lo hi e h = (lo, hi, e, h)

groups-IsVarint : (k v : ℕ) → v < 128 ^ suc k → IsVarint v (groups k v)
unfolding groups
groups-IsVarint zero v h = omega arith
groups-IsVarint (suc k) v h = elim (Bool-cases (ltb v 128)) [
  | inl small ↦ rw small (ground arith)
  | inr large ↦ rw large (
      IsVarint-cons (v % 128 + 128) v (groups k (v / 128)) (omega arith) (omega arith) refl
        (groups-IsVarint k (v / 128) (omega arith)))
]

length-groups : (k v : ℕ) → length (groups k v) ≤ k + 1
unfolding groups
length-groups zero v = omega arith
length-groups (suc k) v = ground (arith, length-groups k (v / 128))

-- Ten groups hold a u64.
ten_groups-IsVarint : (v : ℕ) → IsU64 v → IsVarint v (groups 9 v)
ten_groups-IsVarint v h = groups-IsVarint 9 v (omega arith)

abbrev byte_strings : Wire (List ℕ)
byte_strings = record {
  encode = λ m. m;
  decode = λ bs. some bs;
  encode_varint = groups 9;
  decode-encode = λ m. refl;
  varint = ten_groups-IsVarint;
  varint_length = λ v h. length-groups 9 v;
}

abbrev idle : Writer
idle = record { buffered = []; flushed = []; write_fails = false; flush_fails = false }

abbrev sent : Writer
sent = record {
  buffered = [];
  flushed = 3 ∷ 7 ∷ 8 ∷ 9 ∷ [];
  write_fails = false;
  flush_fails = false;
}

two_byte_length : read_varint (events (0xac ∷ 0x02 ∷ 5 ∷ [])) ≡ ok (some 300, byte 5 ∷ [])
unfolding read_varint
two_byte_length = refl

cut_length : read_varint (events (0xac ∷ [])) ≡ err eof_in_varint
unfolding read_varint
cut_length = refl

endless_length : read_varint (events (replicate 10 0xff)) ≡ err varint_too_long
unfolding read_varint
endless_length = refl

short_body : read_frame byte_strings.decode (events (3 ∷ 1 ∷ 2 ∷ [])) ≡ err short_read
unfolding read_frame
short_body = refl

failing_read : read_varint (byte 0x80 ∷ io_error ∷ []) ≡ err read_error
unfolding read_varint
failing_read = refl

clean_end : read_varint (unexpected_eof ∷ []) ≡ ok (none, [])
unfolding read_varint
clean_end = refl

wrote : write_frame (encode_length_delimited byte_strings) idle (7 ∷ 8 ∷ 9 ∷ []) ≡ ok sent
unfolding write_frame groups
wrote = refl

frame_read :
    read_frame byte_strings.decode (events (2 ∷ 7 ∷ 8 ∷ 9 ∷ []))
    ≡ ok (some (7 ∷ 8 ∷ []), byte 9 ∷ [])
unfolding read_frame
frame_read = refl

read_frame-write_frame_example :
    (frame : List ℕ) × (sent.flushed ≡ frame)
    × (sent.buffered ≡ [])
    × (read_frame byte_strings.decode (events frame ++ byte 4 ∷ [])
        ≡ ok (some (7 ∷ 8 ∷ 9 ∷ []), byte 4 ∷ []))
read_frame-write_frame_example =
    read_frame-write_frame byte_strings idle sent (7 ∷ 8 ∷ 9 ∷ []) (byte 4 ∷ []) (omega arith) wrote

read_frame_too_large_example :
    read_frame byte_strings.decode (events (byte_strings.encode_varint 33554433) ++ [])
    ≡ err (frame_too_large 33554433)
read_frame_too_large_example =
    read_frame_too_large byte_strings 33554433 [] (omega arith) (omega arith)

read_frame_bounds_example :
    (1 < 4)
    × (4 ≤ 1 + 10 + max_frame_bytes)
    × ((body : List ℕ) × (length body ≤ max_frame_bytes)
        × (byte_strings.decode body ≡ some (7 ∷ 8 ∷ [])))
read_frame_bounds_example =
    read_frame_bounds byte_strings.decode (events (2 ∷ 7 ∷ 8 ∷ 9 ∷ [])) (byte 9 ∷ []) (7 ∷ 8 ∷ [])
      frame_read

read_varint_clean_example :
    ((◌≡◌ {A = List Event} (unexpected_eof ∷ []) []) × (◌≡◌ {A = List Event} [] []))
    ⊎ (◌≡◌ {A = List Event} (unexpected_eof ∷ []) (unexpected_eof ∷ []))
read_varint_clean_example = read_varint_clean (unexpected_eof ∷ []) [] clean_end
