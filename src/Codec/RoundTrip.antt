-- ===== src/Codec/RoundTrip.antt =====
-- What `write_frame` writes, `read_frame` reads back.
use netdiag.Prelude.{
  ℕ, zero, suc, ◌+◌, ◌≤◌, ◌<◌, ◌≡◌, refl, ◌⊎◌, inl, inr, true, false, Option, none, some, List, [],
  ◌∷◌, ◌++◌, arith, ltb, length, IsU64,
}
use mathlib.Core.List.{map-append, append_assoc}
use netdiag.Codec.Wire.{Wire, encode_length_delimited}
use netdiag.Codec.Varint.{events, read_varint_loop-varint, read_varint_bounds}
use netdiag.Codec.{
  Event, byte, unexpected_eof, Result, Error, ok, err, frame_too_large, max_frame_bytes,
  read_varint, read_exact, decoded, read_body, read_frame, Writer, write_frame,
}

read_exact-events :
    (bs : List ℕ) (rest : List Event) → read_exact (length bs) (events bs ++ rest) ≡ ok (bs, rest)
unfolding read_exact
read_exact-events [] rest = refl
read_exact-events (b ∷ bs) rest = rw (read_exact-events bs rest)

Result-cases {ℓ} :
    {A : Type ℓ} (r : Result A) → ((a : A) × (r ≡ ok a)) ⊎ ((e : Error) × (r ≡ err e))
Result-cases (ok a) = inl (a, refl)
Result-cases (err e) = inr (e, refl)

read_exact-length :
    (n : ℕ) (reader left : List Event) (bs : List ℕ)
    → read_exact n reader ≡ ok (bs, left)
    → (length bs ≡ n) × (length reader ≡ n + length left)
unfolding read_exact
read_exact-length zero reader left bs h = ground arith
read_exact-length (suc n) [] left bs h = cc
read_exact-length (suc n) (unexpected_eof ∷ reader) left bs h = cc
read_exact-length (suc n) (Event.io_error ∷ reader) left bs h = cc
read_exact-length (suc n) (byte b ∷ reader) left bs h = elim (Result-cases (read_exact n reader)) [
  | inl ((body, rest), e) ↦ ground (arith, e, read_exact-length n reader rest body e)
  | inr (x, e) ↦ cc (rw e at h)
]

module _ {M : Type 0} (wire : Wire M) where
  read_varint-length :
      (n : ℕ) (rest : List Event)
      → IsU64 n
      → read_varint (events (wire.encode_varint n) ++ rest) ≡ ok (some n, rest)
  unfolding read_varint
  read_varint-length n rest h = ground (
    arith,
    wire.varint_length n h,
    read_varint_loop-varint (wire.encode_varint n) n 0 0 rest (wire.varint n h),
  )

  read_frame-frame :
      (m : M) (rest : List Event)
      → length (wire.encode m) ≤ max_frame_bytes
      → read_frame wire.decode
          (events (wire.encode_varint (length (wire.encode m)) ++ wire.encode m) ++ rest)
        ≡ ok (some m, rest)
  unfolding read_frame
  read_frame-frame m rest small = simp (
    map-append,
    append_assoc,
    read_varint-length (length (wire.encode m)) (events (wire.encode m) ++ rest) (omega arith),
    within,
    read_exact-events,
    wire.decode-encode,
  )
    where
      within : ltb max_frame_bytes (length (wire.encode m)) ≡ false
      within = ground arith

  -- What `write_frame` flushes for a message of at most `max_frame_bytes` bytes, `read_frame` reads
  -- back as that message, and it leaves the rest of the stream alone.
  pub read_frame-write_frame :
      (w w' : Writer) (m : M) (rest : List Event)
      → length (wire.encode m) ≤ max_frame_bytes
      → write_frame (encode_length_delimited wire) w m ≡ ok w'
      → (frame : List ℕ) × (w'.flushed ≡ w.flushed ++ (w.buffered ++ frame))
        × (w'.buffered ≡ [])
        × (read_frame wire.decode (events frame ++ rest) ≡ ok (some m, rest))
  unfolding write_frame
  read_frame-write_frame w w' m rest small wrote = (
    wire.encode_varint (length (wire.encode m)) ++ wire.encode m,
    ground arith,
    ground arith,
    read_frame-frame m rest small,
  )

  -- A length above `max_frame_bytes` is refused before any byte of the body is read.
  pub read_frame_too_large :
      (n : ℕ) (rest : List Event)
      → IsU64 n
      → max_frame_bytes < n
      → read_frame wire.decode (events (wire.encode_varint n) ++ rest) ≡ err (frame_too_large n)
  unfolding read_frame
  read_frame_too_large n rest word large = rw (read_varint-length n rest word, above)
    where
      above : ltb max_frame_bytes n ≡ true
      above = ground arith

module _ {M : Type 0} (decode : List ℕ → Option M) where
  decoded-some :
      (o : Option M) (left left' : List Event) (m : M)
      → decoded decode o left' ≡ ok (some m, left)
      → (o ≡ some m) × (left' ≡ left)
  decoded-some none left left' m h = cc
  decoded-some (some a) left left' m h = ground arith

  read_body_bounds :
      (len : Option ℕ) (left left' : List Event) (m : M)
      → read_body decode len left' ≡ ok (some m, left)
      → (body : List ℕ) × (len ≡ some (length body))
        × (length body ≤ max_frame_bytes)
        × (length left' ≡ length body + length left)
        × (decode body ≡ some m)
  read_body_bounds none left left' m h = cc
  read_body_bounds (some len) left left' m h = elim (Result-cases (read_exact len left')) [
    | inl ((body, rest), e) ↦ (
      body,
      ground (arith, facts body rest e),
      ground (arith, facts body rest e),
      ground (arith, facts body rest e),
      ground (arith, facts body rest e),
    )
    | inr (x, e) ↦ absurd (ground (arith, e))
  ]
    where
      facts :
          (body : List ℕ) (rest : List Event)
          → read_exact len left' ≡ ok (body, rest)
          → (len ≡ length body)
            × (len ≤ max_frame_bytes)
            × (length left' ≡ length body + length left)
            × (decode body ≡ some m)
      facts body rest e = ground (
        arith,
        e,
        read_exact-length len left' rest body e,
        decoded-some (decode body) left rest m,
      )

  -- A frame that is read takes at most ten bytes of length and `max_frame_bytes` of body, and its
  -- message is what `decode` makes of the body.
  pub read_frame_bounds :
      (reader left : List Event) (m : M)
      → read_frame decode reader ≡ ok (some m, left)
      → (length left < length reader)
        × (length reader ≤ length left + 10 + max_frame_bytes)
        × ((body : List ℕ) × (length body ≤ max_frame_bytes) × (decode body ≡ some m))
  unfolding read_frame
  read_frame_bounds reader left m h = elim (Result-cases (read_varint reader)) [
    | inl ((len, left'), e) ↦
        let (body, is_len, small, taken, is_m) = read_body_bounds len left left' m (rw e at h) in
        let e' : read_varint reader ≡ ok (some (length body), left') = cc in
        let (word, shorter, ten) = read_varint_bounds reader left' (length body) e' in
        (omega arith, omega arith, (body, small, is_m))
    | inr (x, e) ↦ absurd (ground (arith, e))
  ]
