-- ===== src/Payload/Widths.antt =====
-- The widths of the packed sums: every sum of a line fits, and none is wider than a byte.
use crsce.Prelude.{ℕ, zero, suc, ◌/◌, ◌^◌, ◌≤◌, ◌<◌, arith}
use crsce.Bits.{pow_parts}
use crsce.Lines.{s, diag_len}
use crsce.Payload.{width_loop, bit_width, full_bits, diag_bits}

-- A number is below 2 to the power of its width.
width_loop_lem : (fuel n : ℕ) → n < 2 ^ fuel → n < 2 ^ width_loop fuel n
unfolding width_loop
width_loop_lem zero n h = h
width_loop_lem (suc fuel) n h = ground (
  arith,
  width_loop_lem fuel (n / 2) (omega (arith, pow_parts fuel)),
  pow_parts (width_loop fuel (n / 2)),
)

width_loop-le : (fuel n m : ℕ) → n < 2 ^ m → width_loop fuel n ≤ m
unfolding width_loop
width_loop-le zero n m h = omega arith
width_loop-le (suc fuel) n zero h = ground arith
width_loop-le (suc fuel) n (suc m) h =
    ground (arith, width_loop-le fuel (n / 2) m (omega (arith, pow_parts m)))

pub full_bits-le : (k : ℕ) → full_bits k ≤ 16
unfolding full_bits
full_bits-le k = omega arith

pub full_bits_fit : (k v : ℕ) → v ≤ s → v < 2 ^ full_bits k
unfolding full_bits
full_bits_fit k v h = omega arith

diag_len-le : (k : ℕ) → diag_len k ≤ s
unfolding diag_len
diag_len-le k = ground arith

pub diag_bits-le : (k : ℕ) → diag_bits k ≤ 16
unfolding diag_bits bit_width
diag_bits-le k = omega (arith, width_loop-le 32 (diag_len k) 7 (omega (arith, diag_len-le k)))

pub diag_bits_fit : (k v : ℕ) → v ≤ diag_len k → v < 2 ^ diag_bits k
unfolding diag_bits bit_width
diag_bits_fit k v h = omega (arith, width_loop_lem 32 (diag_len k) (omega (arith, diag_len-le k)))
