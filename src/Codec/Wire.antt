-- ===== src/Codec/Wire.antt =====
-- What codec.rs relies on in `prost`: messages have an encoding that decodes to the message, and a
-- frame is the varint of its length followed by it. `IsVarint` is the protobuf wire format.
use netdiag.Prelude.{
  ℕ, ◌+◌, ◌/◌, ◌%◌, ◌≤◌, ◌<◌, ◌≡◌, Option, some, List, [], ◌∷◌, ◌++◌, length, IsU64,
}

-- Seven bits a byte, lowest group first, the top bit set on all bytes but the last.
abbrev pub IsVarint : ℕ → List ℕ → Type 0
IsVarint v [] = ⊥
IsVarint v (b ∷ []) = (b < 128) × (v ≡ b)
IsVarint v (b ∷ c ∷ bs) = (128 ≤ b) × (b < 256) × (v % 128 + 128 ≡ b) × IsVarint (v / 128) (c ∷ bs)

pub record Wire (M : Type 0) : Type 0 where
  pub encode : M → List ℕ
  pub decode : List ℕ → Option M
  pub encode_varint : ℕ → List ℕ
  pub decode-encode : (m : M) → decode (encode m) ≡ some m
  pub varint : (v : ℕ) → IsU64 v → IsVarint v (encode_varint v)
  pub varint_length : (v : ℕ) → IsU64 v → length (encode_varint v) ≤ 10

-- `encode_length_delimited` into a buffer that grows: it does not fail.
abbrev pub encode_length_delimited : {M : Type 0} → Wire M → M → Option (List ℕ)
encode_length_delimited w m = some (w.encode_varint (length (w.encode m)) ++ w.encode m)
