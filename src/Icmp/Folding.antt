-- ===== src/Icmp/Folding.antt =====
-- daemon/src/probe/icmp.rs: the folding of carries is the remainder by 65535 that is not zero, and it
-- ends within four rounds.
use netdiag.Prelude.{
  ℕ, suc, ◌+◌, ◌-◌, ◌/◌, ◌%◌, ◌^◌, ◌≤◌, ◌<◌, ◌≡◌, refl, ap, ◌∙◌, inl, inr, some, arith, ◌==◌, ◌!=◌,
  if◌then◌else◌, Bool-cases,
}
use netdiag.Icmp.Echo.{fold_carries}

-- What a sum folds to: zero for zero, and else the number from 1 to 65535 that it is congruent to.
abbrev pub root : ℕ → ℕ
root sum = if sum == 0 then 0 else (sum - 1) % 65535 + 1

root-small : (sum : ℕ) → sum < 65536 → root sum ≡ sum
root-small sum h = ground arith

root-fold : (sum : ℕ) → 65536 ≤ sum → root (sum % 65536 + sum / 65536) ≡ root sum
root-fold sum h = ground arith

fold_small : (fuel sum : ℕ) → sum < 65536 → fold_carries (suc fuel) sum ≡ some (root sum)
unfolding fold_carries
fold_small fuel sum h = ground (arith, root-small sum h)

-- One round more, where what it leaves folds.
fold_round :
    (fuel sum : ℕ)
    → sum < 2 ^ 32
    → (65536 ≤ sum
        → fold_carries fuel (sum % 65536 + sum / 65536) ≡ some (root (sum % 65536 + sum / 65536)))
    → fold_carries (suc fuel) sum ≡ some (root sum)
unfolding fold_carries
fold_round fuel sum h next = elim (Bool-cases (sum / 65536 != 0)) [
  | inl carries ↦
      let big : 65536 ≤ sum = ground (arith, carries) in
      let fits : (sum % 65536 + sum / 65536) % 2 ^ 32 ≡ sum % 65536 + sum / 65536 = omega arith in
      rw (carries, fits) (next big ∙ ap some (root-fold sum big))
  | inr none_left ↦
      let small : sum < 65536 = ground (arith, none_left) in
      rw (none_left, root-small sum small) refl
]

fold_two : (sum : ℕ) → sum ≤ 65536 → fold_carries 2 sum ≡ some (root sum)
fold_two sum h = fold_round 1 sum (omega arith) (λ big. fold_small 0 _ (omega arith))

fold_three : (sum : ℕ) → sum ≤ 131070 → fold_carries 3 sum ≡ some (root sum)
fold_three sum h = fold_round 2 sum (omega arith) (λ big. fold_two _ (omega arith))

-- Four rounds fold every u32.
pub fold_four : (sum : ℕ) → sum < 2 ^ 32 → fold_carries 4 sum ≡ some (root sum)
fold_four sum h = fold_round 3 sum h (λ big. fold_three _ (omega arith))

pub root-bound : (sum : ℕ) → root sum < 65536
root-bound sum = ground arith

-- Adding the complement of a sum makes it fold to 65535.
pub root-complement : (sum : ℕ) → 0 < sum → root (sum + (65535 - root sum)) ≡ 65535
root-complement sum h = ground arith
