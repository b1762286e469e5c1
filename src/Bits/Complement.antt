-- ===== src/Bits/Complement.antt =====
-- The bits of a complement and of a mask.
use crsce.Prelude.{
  ℕ, zero, suc, ◌+◌, ◌-◌, ◌*◌, ◌/◌, ◌%◌, ◌^◌, ◌≤◌, ◌<◌, ◌≡◌, ap, ◌∙◌, arith, ltb, if◌then◌else◌,
  bit_and,
}
use native.Mathlib.Nat.{one-le-pow}
use crsce.Bits.{get_bit, get_bit-zero, get_bit-suc, get_bit-zero_word, pow_parts, bit_and-zero}
use crsce.Bits.Xor.{and_step}

pub get_bit_complement :
    (n w i : ℕ) → w < 2 ^ n → i < n → get_bit (2 ^ n - 1 - w) i + get_bit w i ≡ 1
get_bit_complement zero w i h hi = absurd (omega arith)
get_bit_complement (suc n) w zero h hi =
    omega (arith, get_bit-zero (2 ^ suc n - 1 - w), get_bit-zero w, pow_parts n)
get_bit_complement (suc n) w (suc i) h hi = omega (
  arith,
  get_bit-suc (2 ^ suc n - 1 - w) i,
  get_bit-suc w i,
  ap (λ (t : ℕ). get_bit t i) {x = (2 ^ suc n - 1 - w) / 2} {y = 2 ^ n - 1 - w / 2}
      (omega (arith, pow_parts n)),
  get_bit_complement n (w / 2) i (omega (arith, pow_parts n)) (omega arith),
)

mask_digit : (k w : ℕ) → bit_and w (2 ^ suc k - 1) ≡ bit_and (w / 2) (2 ^ k - 1) * 2 + w % 2
mask_digit k w =
    ap (λ (t : ℕ). bit_and w t) {x = 2 ^ suc k - 1} {y = 2 * (2 ^ k - 1) + 1}
      (omega (arith, pow_parts k, one-le-pow k 2))
    ∙ and_step w (2 ^ k - 1)

pub get_bit_mask :
    (k w i : ℕ) → get_bit (bit_and w (2 ^ k - 1)) i ≡ (if ltb i k then get_bit w i else 0)
get_bit_mask zero w i =
    ap (λ (t : ℕ). get_bit t i) (bit_and-zero w w (omega arith))
    ∙ get_bit-zero_word i
    ∙ ground arith
get_bit_mask (suc k) w zero =
    let low : get_bit (bit_and w (2 ^ suc k - 1)) 0 ≡ get_bit w 0 =
      omega (arith, get_bit-zero (bit_and w (2 ^ suc k - 1)), mask_digit k w, get_bit-zero w) in
    low ∙ ground arith
get_bit_mask (suc k) w (suc i) =
    get_bit-suc (bit_and w (2 ^ suc k - 1)) i
    ∙ ap (λ (t : ℕ). get_bit t i) {x = bit_and w (2 ^ suc k - 1) / 2}
        {y = bit_and (w / 2) (2 ^ k - 1)} (omega (arith, mask_digit k w))
    ∙ get_bit_mask k (w / 2) i
    ∙ ground (arith, get_bit-suc w i)

pub mask-le : (k w : ℕ) → bit_and w (2 ^ k - 1) ≤ w
mask-le zero w = omega (arith, bit_and-zero w w (omega arith))
mask-le (suc k) w = omega (arith, mask_digit k w, mask-le k (w / 2))
