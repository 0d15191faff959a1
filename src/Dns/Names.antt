-- ===== src/Dns/Names.antt =====
-- The name of a query of daemon/src/probe/dns.rs, walked over again.
use netdiag.Prelude.{
  ℕ, zero, suc, ◌+◌, ◌≤◌, ◌<◌, ◌≡◌, refl, sym, ap, ◌∙◌, Bool, false, List, [], ◌∷◌, ◌++◌, arith,
  ltb, leb, ◌==◌, if◌then◌else◌, length, is_empty, All, length-append,
}
use netdiag.Dns.Model.{Outcome, at}
use netdiag.Dns.Encode.{encode_labels}
use netdiag.Dns.Decode.{is_pointer, skip_loop, skip_name}
use netdiag.Dns.Append.{at-append}

-- A label that fits.
abbrev pub IsShort : List ℕ → Type 0
IsShort label = length label ≤ 63

-- The labels that are not empty, each behind its length.
unfoldable pub wire_labels : List (List ℕ) → List ℕ
wire_labels [] = []
wire_labels (label ∷ labels) =
    let rest = wire_labels labels in if is_empty label then rest else (length label ∷ label) ++ rest

pub encode_labels-wire_labels :
    (labels : List (List ℕ))
    → All IsShort labels
    → encode_labels labels ≡ Outcome.ok (wire_labels labels)
unfolding encode_labels wire_labels
encode_labels-wire_labels [] h = refl
encode_labels-wire_labels ([] ∷ labels) (s, h) = encode_labels-wire_labels labels h
encode_labels-wire_labels ((b ∷ bs) ∷ labels) (s, h) =
    let fits : ltb 63 (length (b ∷ bs)) ≡ false = ground arith in
    rw (fits, encode_labels-wire_labels labels h) refl

pub append_assoc : (xs ys zs : List ℕ) → (xs ++ ys) ++ zs ≡ xs ++ (ys ++ zs)
append_assoc [] ys zs = refl
append_assoc (x ∷ xs) ys zs = ap (◌∷◌ x) (append_assoc xs ys zs)

-- One round of the walk over a label of at most 63 bytes.
skip_loop-label :
    (fuel : ℕ) (buf : List ℕ) (offset len : ℕ) (jumped : Bool) (steps : ℕ)
    → offset < length buf
    → at buf offset ≡ Outcome.ok len
    → 0 < len
    → len ≤ 63
    → steps < 128
    → skip_loop (suc fuel) buf offset jumped steps
      ≡ skip_loop fuel buf (offset + 1 + len) false (steps + 1)
unfolding skip_loop
skip_loop-label fuel buf offset len jumped steps inside byte nonzero short few =
    let a : leb (length buf) offset ≡ false = ground arith in
    let b : is_pointer len ≡ false = ground arith in
    let c : (len == 0) ≡ false = ground arith in
    let d : ltb 128 (steps + 1) ≡ false = ground arith in rw (a, byte) (rw (b, c, d) refl)

-- The last round.
skip_loop-root :
    (fuel : ℕ) (buf : List ℕ) (offset : ℕ) (jumped : Bool) (steps : ℕ)
    → offset < length buf
    → at buf offset ≡ Outcome.ok 0
    → skip_loop (suc fuel) buf offset jumped steps ≡ Outcome.ok (offset + 1)
unfolding skip_loop
skip_loop-root fuel buf offset jumped steps inside byte =
    let a : leb (length buf) offset ≡ false = ground arith in rw (a, byte) refl

skip_loop-labels :
    (labels : List (List ℕ)) (fuel : ℕ) (pre rest : List ℕ) (jumped : Bool) (steps : ℕ)
    → All IsShort labels
    → length labels < fuel
    → steps + length labels ≤ 128
    → skip_loop fuel (pre ++ (wire_labels labels ++ (0 ∷ rest))) (length pre) jumped steps
      ≡ Outcome.ok (length pre + length (wire_labels labels) + 1)
unfolding wire_labels
skip_loop-labels [] zero pre rest jumped steps h enough few = absurd (omega arith)
skip_loop-labels [] (suc fuel) pre rest jumped steps h enough few =
    skip_loop-root fuel (pre ++ (0 ∷ rest)) (length pre) jumped steps
      (rw (length-append pre (0 ∷ rest)) (omega arith))
      (at-append pre (0 ∷ rest) 0 (length pre) (omega arith))
    ∙ ap Outcome.ok (omega arith)
skip_loop-labels ([] ∷ labels) fuel pre rest jumped steps (s, h) enough few =
    skip_loop-labels labels fuel pre rest jumped steps h (omega arith) (omega arith)
skip_loop-labels ((b ∷ bs) ∷ labels) zero pre rest jumped steps (s, h) enough few =
    absurd (omega arith)
skip_loop-labels ((b ∷ bs) ∷ labels) (suc fuel) pre rest jumped steps (s, h) enough few =
    let label = length (b ∷ bs) ∷ b ∷ bs in
    let tail = wire_labels labels ++ (0 ∷ rest) in
    ap (λ buf. skip_loop (suc fuel) buf (length pre) jumped steps)
      (ap (λ l. pre ++ l) (append_assoc label (wire_labels labels) (0 ∷ rest)))
    ∙ skip_loop-label fuel (pre ++ (label ++ tail)) (length pre) (length (b ∷ bs)) jumped steps
        (rw (length-append pre (label ++ tail)) (omega arith))
        (at-append pre (label ++ tail) 0 (length pre) (omega arith)) (omega arith) s (omega arith)
    ∙ ap (λ buf. skip_loop fuel buf (length pre + 1 + length (b ∷ bs)) false (steps + 1))
        (sym (append_assoc pre label tail))
    ∙ ap (λ offset. skip_loop fuel ((pre ++ label) ++ tail) offset false (steps + 1))
        (rw (length-append pre label) (omega arith))
    ∙ skip_loop-labels labels fuel (pre ++ label) rest false (steps + 1) h (omega arith)
        (omega arith)
    ∙ ap Outcome.ok
        (rw (length-append pre label, length-append label (wire_labels labels)) (omega arith))

-- A name of at most 128 labels, each of at most 63 bytes, is walked over as a query encodes it: from its first byte,
-- wherever that stands, to the byte behind its root label.
pub skip_name-wire_labels :
    (labels : List (List ℕ)) (pre rest : List ℕ)
    → All IsShort labels
    → length labels ≤ 128
    → skip_name (pre ++ (wire_labels labels ++ (0 ∷ rest))) (length pre)
      ≡ Outcome.ok (length pre + length (wire_labels labels) + 1)
unfolding skip_name
skip_name-wire_labels labels pre rest h few =
    skip_loop-labels labels 129 pre rest false 0 h (omega arith) (omega arith)
