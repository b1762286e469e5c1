-- ===== src/Bits.antt =====
-- Single bits of a word as the source sets, clears and reads them (`|= 1 << b`, `&= ~(1 << b)`,
-- `>> b & 1`), at every width. Used by Csm, the constraint store and the propagation queue.
mod Step
pub mod Xor
pub mod Complement
use Step.{bit_or-digit, bit_and-digit}
use native.Mathlib.Nat.{pow-suc, one-le-pow, pow-le-pow_right, div-div-eq-div-mul}
use crsce.Prelude.{
  ℕ, zero, suc, ◌+◌, ◌-◌, ◌*◌, ◌/◌, ◌%◌, ◌^◌, ◌≤◌, ◌<◌, bit_and, bit_or, ◌≡◌, refl, ap, arith, ◌==◌,
  if◌then◌else◌,
}

-- (w >> b) & 1
unfoldable pub get_bit : ℕ → ℕ → ℕ
get_bit w b = bit_and (w / 2 ^ b) 1

-- w | (1 << b)
unfoldable pub set_bit : ℕ → ℕ → ℕ
set_bit w b = bit_or w (2 ^ b)

-- w & ~(1 << b), for a word of n bits
unfoldable pub clear_bit : ℕ → ℕ → ℕ → ℕ
clear_bit n w b = bit_and w (2 ^ n - 1 - 2 ^ b)

pub bit_or-zero : (n a : ℕ) → a ≤ n → bit_or a 0 ≡ a
bit_or-zero n zero h = refl
bit_or-zero zero (suc a) h = absurd (omega arith)
bit_or-zero (suc n) (suc a) h =
    omega (arith, bit_or-digit (suc a) 0, bit_or-zero n (suc a / 2) (omega arith))

pub bit_and-zero : (n a : ℕ) → a ≤ n → bit_and a 0 ≡ 0
bit_and-zero n zero h = refl
bit_and-zero zero (suc a) h = absurd (omega arith)
bit_and-zero (suc n) (suc a) h =
    omega (arith, bit_and-digit (suc a) 0, bit_and-zero n (suc a / 2) (omega arith))

pub bit_and-one : (a : ℕ) → bit_and a 1 ≡ a % 2
bit_and-one a = omega (arith, bit_and-digit a 1, bit_and-zero (a / 2) (a / 2) (omega arith))

-- The bits by recursion on their position.
pub get_bit-zero : (w : ℕ) → get_bit w 0 ≡ w % 2
unfolding get_bit
get_bit-zero w = omega (arith, bit_and-one (w / 1))

pub get_bit-suc : (w b : ℕ) → get_bit w (suc b) ≡ get_bit (w / 2) b
unfolding get_bit
get_bit-suc w b = omega (
  arith,
  bit_and-one (w / 2 ^ suc b),
  bit_and-one (w / 2 / 2 ^ b),
  div-div-eq-div-mul w 2 (2 ^ b),
  ap (λ (t : ℕ). w / t) {x = 2 ^ suc b} {y = 2 * 2 ^ b} (omega (arith, pow-suc 2 b)),
)

pub get_bit-le : (w b : ℕ) → get_bit w b ≤ 1
unfolding get_bit
get_bit-le w b = omega (arith, bit_and-one (w / 2 ^ b))

set_bit-zero : (w : ℕ) → set_bit w 0 ≡ w / 2 * 2 + 1
unfolding set_bit
set_bit-zero w = omega (arith, bit_or-digit w 1, bit_or-zero (w / 2) (w / 2) (omega arith))

-- 2 ^ suc b has no lowest digit, and half of it is 2 ^ b.
pub pow_parts : (b : ℕ) → (2 ^ suc b / 2 ≡ 2 ^ b) × (2 ^ suc b % 2 ≡ 0) × (2 ^ suc b ≡ 2 * 2 ^ b)
pow_parts b = omega (arith, pow-suc 2 b)

set_bit-suc : (w b : ℕ) → set_bit w (suc b) ≡ set_bit (w / 2) b * 2 + w % 2
unfolding set_bit
set_bit-suc w b = omega (
  arith,
  bit_or-digit w (2 ^ suc b),
  pow_parts b,
  ap (λ (t : ℕ). bit_or (w / 2) t) (pow_parts b).0,
)

-- All ones but bit b, in n bits.
mask_parts :
    (n b : ℕ)
    → b < n
    → ((2 ^ suc n - 1 - 2 ^ suc b) / 2 ≡ 2 ^ n - 1 - 2 ^ b) × ((2 ^ suc n - 1 - 2 ^ suc b) % 2 ≡ 1)
mask_parts n b h = omega (arith, pow_parts b, pow_parts n, pow_lt n b h, one-le-pow b 2)
  where
    pow_lt : (n b : ℕ) → b < n → 2 ^ suc b ≤ 2 ^ n
    pow_lt n b h = pow-le-pow_right (omega arith) h

clear_bit-suc :
    (n w b : ℕ) → b < n → clear_bit (suc n) w (suc b) ≡ clear_bit n (w / 2) b * 2 + w % 2
unfolding clear_bit
clear_bit-suc n w b h = omega (
  arith,
  bit_and-digit w (2 ^ suc n - 1 - 2 ^ suc b),
  mask_parts n b h,
  ap (λ (t : ℕ). bit_and (w / 2) t) (mask_parts n b h).0,
)

-- A mask of n low ones keeps a word of n bits.
bit_and_ones : (n w : ℕ) → w < 2 ^ n → bit_and w (2 ^ n - 1) ≡ w
bit_and_ones zero w h = omega (arith, bit_and-zero w w (omega arith))
bit_and_ones (suc n) w h = omega (
  arith,
  bit_and-digit w (2 ^ suc n - 1),
  pow_parts n,
  one-le-pow n 2,
  ap (λ (t : ℕ). bit_and (w / 2) t) {x = (2 ^ suc n - 1) / 2} {y = 2 ^ n - 1}
      (omega (arith, pow_parts n, one-le-pow n 2)),
  bit_and_ones n (w / 2) (omega (arith, pow_parts n)),
)

clear_bit-zero : (n w : ℕ) → w < 2 ^ suc n → clear_bit (suc n) w 0 ≡ w / 2 * 2
unfolding clear_bit
clear_bit-zero n w h = omega (
  arith,
  bit_and-digit w (2 ^ suc n - 1 - 1),
  pow_parts n,
  one-le-pow n 2,
  ap (λ (t : ℕ). bit_and (w / 2) t) {x = (2 ^ suc n - 1 - 1) / 2} {y = 2 ^ n - 1}
      (omega (arith, pow_parts n, one-le-pow n 2)),
  bit_and_ones n (w / 2) (omega (arith, pow_parts n)),
)

-- Setting a bit sets that one and no other.
pub get_bit-set_bit : (w b i : ℕ) → get_bit (set_bit w b) i ≡ (if b == i then 1 else get_bit w i)
get_bit-set_bit w zero zero = omega (arith, get_bit-zero (set_bit w 0), set_bit-zero w)
get_bit-set_bit w zero (suc i) = ground (
  arith,
  get_bit-suc (set_bit w 0) i,
  get_bit-suc w i,
  ap (λ (t : ℕ). get_bit t i) {x = set_bit w 0 / 2} {y = w / 2} (omega (arith, set_bit-zero w)),
)
get_bit-set_bit w (suc b) zero =
    ground (arith, get_bit-zero (set_bit w (suc b)), get_bit-zero w, set_bit-suc w b)
get_bit-set_bit w (suc b) (suc i) = ground (
  arith,
  get_bit-suc (set_bit w (suc b)) i,
  get_bit-suc w i,
  get_bit-set_bit (w / 2) b i,
  ap (λ (t : ℕ). get_bit t i) {x = set_bit w (suc b) / 2} {y = set_bit (w / 2) b}
      (omega (arith, set_bit-suc w b)),
)

-- Clearing a bit clears that one and no other.
pub get_bit-clear_bit :
    (n w b i : ℕ)
    → b < n
    → w < 2 ^ n
    → get_bit (clear_bit n w b) i ≡ (if b == i then 0 else get_bit w i)
get_bit-clear_bit zero w b i hb hw = absurd (omega arith)
get_bit-clear_bit (suc n) w zero zero hb hw =
    omega (arith, get_bit-zero (clear_bit (suc n) w 0), clear_bit-zero n w hw)
get_bit-clear_bit (suc n) w zero (suc i) hb hw = ground (
  arith,
  get_bit-suc (clear_bit (suc n) w 0) i,
  get_bit-suc w i,
  ap (λ (t : ℕ). get_bit t i) {x = clear_bit (suc n) w 0 / 2} {y = w / 2}
      (omega (arith, clear_bit-zero n w hw)),
)
get_bit-clear_bit (suc n) w (suc b) zero hb hw = ground (
  arith,
  get_bit-zero (clear_bit (suc n) w (suc b)),
  get_bit-zero w,
  clear_bit-suc n w b (omega arith),
)
get_bit-clear_bit (suc n) w (suc b) (suc i) hb hw = ground (
  arith,
  get_bit-suc (clear_bit (suc n) w (suc b)) i,
  get_bit-suc w i,
  get_bit-clear_bit n (w / 2) b i (omega arith) (omega (arith, pow_parts n)),
  ap (λ (t : ℕ). get_bit t i) {x = clear_bit (suc n) w (suc b) / 2} {y = clear_bit n (w / 2) b}
      (omega (arith, clear_bit-suc n w b)),
)

-- Both as arithmetic: a bit that was clear is added, one that was set is taken away.
pub set_bit_sum : (w b : ℕ) → set_bit w b + get_bit w b * 2 ^ b ≡ w + 2 ^ b
set_bit_sum w zero = omega (arith, set_bit-zero w, get_bit-zero w)
set_bit_sum w (suc b) = omega (
  arith,
  set_bit-suc w b,
  get_bit-suc w b,
  set_bit_sum (w / 2) b,
  pow_parts b,
  ap (λ (t : ℕ). get_bit w (suc b) * t) (pow_parts b).2,
  ap (λ (t : ℕ). t * 2 ^ b) (get_bit-suc w b),
)

pub clear_bit_sum : (n w b : ℕ) → b < n → w < 2 ^ n → clear_bit n w b + get_bit w b * 2 ^ b ≡ w
clear_bit_sum zero w b hb hw = absurd (omega arith)
clear_bit_sum (suc n) w zero hb hw = omega (arith, clear_bit-zero n w hw, get_bit-zero w)
clear_bit_sum (suc n) w (suc b) hb hw = omega (
  arith,
  clear_bit-suc n w b (omega arith),
  get_bit-suc w b,
  clear_bit_sum n (w / 2) b (omega arith) (omega (arith, pow_parts n)),
  ap (λ (t : ℕ). get_bit w (suc b) * t) (pow_parts b).2,
  ap (λ (t : ℕ). t * 2 ^ b) (get_bit-suc w b),
)

-- Setting a bit of an n-bit word gives an n-bit word.
pub set_bit-lt : (n w b : ℕ) → b < n → w < 2 ^ n → set_bit w b < 2 ^ n
set_bit-lt zero w b hb hw = absurd (omega arith)
set_bit-lt (suc n) w zero hb hw = omega (arith, set_bit-zero w, pow_parts n)
set_bit-lt (suc n) w (suc b) hb hw = omega (
  arith,
  set_bit-suc w b,
  pow_parts n,
  set_bit-lt n (w / 2) b (omega arith) (omega (arith, pow_parts n)),
)

-- Clearing a bit that was clear before it was set gives the word back.
pub clear_bit-set_bit :
    (n w b : ℕ) → b < n → w < 2 ^ n → get_bit w b ≡ 0 → clear_bit n (set_bit w b) b ≡ w
clear_bit-set_bit n w b hb hw h = omega (
  arith,
  clear_bit_sum n (set_bit w b) b hb (set_bit-lt n w b hb hw),
  set_bit_sum w b,
  ap (λ (t : ℕ). t * 2 ^ b) h,
  ap (λ (t : ℕ). t * 2 ^ b) {x = get_bit (set_bit w b) b} {y = 1}
      (ground (arith, get_bit-set_bit w b b)),
)

pub get_bit-zero_word : (b : ℕ) → get_bit 0 b ≡ 0
get_bit-zero_word zero = get_bit-zero 0
get_bit-zero_word (suc b) = omega (arith, get_bit-suc 0 b, get_bit-zero_word b)
