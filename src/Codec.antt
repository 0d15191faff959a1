-- ===== src/Codec.antt =====
-- crates/netdiag-ipc/src/codec.rs: length-delimited protobuf frames over a byte stream.
-- The reader is the sequence of what its `read` calls will return, one byte a call; the end of the
-- list is `Ok(0)`, the end of the stream. `prost` is a parameter (`Codec.Wire`).
pub mod Wire
pub mod Varint
pub mod RoundTrip
pub mod Checks
use netdiag.Prelude.{
  ℕ, ◌+◌, ◌*◌, ◌%◌, ◌^◌, Bool, true, false, Option, none, some, List, [], ◌∷◌, ◌++◌, bit_or, ltb,
  leb, ◌==◌, test_bit, low_bits, if◌then◌else◌, length,
}

-- 32 * 1024 * 1024
abbrev pub max_frame_bytes : ℕ
max_frame_bytes = 33554432

-- What one call of `reader.read` with a one-byte buffer gives.
pub data Event : Type 0 where
  byte : ℕ → Event
  unexpected_eof : Event
  io_error : Event

pub data Error : Type 0 where
  eof_in_varint : Error
  varint_too_long : Error
  read_error : Error
  frame_too_large : ℕ → Error
  short_read : Error
  malformed_frame : Error
  encode_failed : Error
  write_failed : Error
  flush_failed : Error

pub data Result {ℓ} (A : Type ℓ) : Type ℓ where
  ok : A → Result A
  err : Error → Result A

infixl 5 ◌>>=◌
abbrev pub ◌>>=◌ {ℓ κ} : {A : Type ℓ} {B : Type κ} → Result A → (A → Result B) → Result B
ok a >>= f = f a
err e >>= f = err e

-- `value |= u64::from(byte & 0x7f) << shift`
abbrev pub add_group : ℕ → ℕ → ℕ → ℕ
add_group value b shift = bit_or value (low_bits b 7 * 2 ^ shift % 2 ^ 64)

-- The loop of `read_varint`. `none` is the clean end of the stream.
pub read_varint_loop : List Event → ℕ → ℕ → Result (Option ℕ × List Event)
read_varint_loop [] value shift = if shift == 0 then ok (none, []) else err eof_in_varint
read_varint_loop (unexpected_eof ∷ rest) value shift =
    if shift == 0 then ok (none, rest) else err read_error
read_varint_loop (io_error ∷ rest) value shift = err read_error
read_varint_loop (byte b ∷ rest) value shift =
    let value' = add_group value b shift in
    let more = read_varint_loop rest value' (shift + 7) in
    if test_bit b 7
    then (if leb 64 (shift + 7) then err varint_too_long else more)
    else ok (some value', rest)

pub read_varint : List Event → Result (Option ℕ × List Event)
unfolding read_varint_loop
read_varint reader = read_varint_loop reader 0 0

-- `reader.read_exact(&mut buf)` for `n` bytes more, those read so far in front.
pub read_exact : ℕ → List Event → Result (List ℕ × List Event)
read_exact ℕ.zero reader = ok ([], reader)
read_exact (ℕ.suc n) (byte b ∷ rest) = do (body, left) ← read_exact n rest; ok (b ∷ body, left)
read_exact (ℕ.suc n) _ = err short_read

module _ {M : Type 0} (decode : List ℕ → Option M) where
  abbrev pub decoded : Option M → List Event → Result (Option M × List Event)
  decoded none left = err malformed_frame
  decoded (some message) left = ok (some message, left)

  abbrev pub read_body : Option ℕ → List Event → Result (Option M × List Event)
  read_body none left = ok (none, left)
  read_body (some len) left =
      if ltb max_frame_bytes len
      then err (frame_too_large len)
      else do (buf, rest) ← read_exact len left; decoded (decode buf) rest

  pub read_frame : List Event → Result (Option M × List Event)
  unfolding read_varint read_exact
  read_frame reader = do (len, left) ← read_varint reader; read_body len left

-- The writer: what it has been given, what has been flushed, and whether its calls will fail.
pub record Writer : Type 0 where
  pub buffered : List ℕ
  pub flushed : List ℕ
  pub write_fails : Bool
  pub flush_fails : Bool

module _ {M : Type 0} (encode_length_delimited : M → Option (List ℕ)) where
  abbrev pub write_bytes : Option (List ℕ) → Writer → Result Writer
  write_bytes none w = err encode_failed
  write_bytes (some buf) w =
      if w.write_fails
      then err write_failed
      else if w.flush_fails
      then err flush_failed
      else ok (record w { buffered = []; flushed = w.flushed ++ (w.buffered ++ buf) })

  pub write_frame : Writer → M → Result Writer
  write_frame w message = write_bytes (encode_length_delimited message) w
