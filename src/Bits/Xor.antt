-- ===== src/Bits/Xor.antt =====
-- The laws of exclusive or, by recursion on the binary digits.
use native.Mathlib.Nat.{div-div-eq-div-mul}
use crsce.Bits.Step.{bit_xor-digit, bit_and-digit}
use crsce.Bits.{bit_and-zero, pow_parts}
use crsce.Prelude.{
  ℕ, zero, suc, ◌+◌, ◌*◌, ◌/◌, ◌%◌, ◌^◌, ◌≤◌, ◌<◌, ◌≡◌, refl, ap, ◌∙◌, arith, bit_and, bit_xor, sym,
}

pub bit_xor_half : (a b : ℕ) → bit_xor a b / 2 ≡ bit_xor (a / 2) (b / 2)
bit_xor_half a b = omega (arith, bit_xor-digit a b)

pub bit_xor_parity : (a b : ℕ) → bit_xor a b % 2 ≡ (a % 2 + b % 2) % 2
bit_xor_parity a b = omega (arith, bit_xor-digit a b)

zero_right_below : (n a : ℕ) → a ≤ n → bit_xor a 0 ≡ a
zero_right_below zero zero h = refl
zero_right_below zero (suc a) h = absurd (omega arith)
zero_right_below (suc n) a h =
    omega (arith, bit_xor-digit a 0, zero_right_below n (a / 2) (omega arith))

pub bit_xor_zero : (a : ℕ) → bit_xor a 0 ≡ a
bit_xor_zero a = zero_right_below a a (omega arith)

-- Two words with the same half and parity are the same.
by_digit : (x y : ℕ) → x / 2 ≡ y / 2 → x % 2 ≡ y % 2 → x ≡ y
by_digit x y h h' = omega arith

comm_below : (n a b : ℕ) → a ≤ n → b ≤ n → bit_xor a b ≡ bit_xor b a
comm_below zero zero zero h h' = refl
comm_below zero (suc a) b h h' = absurd (omega arith)
comm_below zero a (suc b) h h' = absurd (omega arith)
comm_below (suc n) a b h h' = omega (
  arith,
  bit_xor-digit a b,
  bit_xor-digit b a,
  comm_below n (a / 2) (b / 2) (omega arith) (omega arith),
)

pub bit_xor_comm : (a b : ℕ) → bit_xor a b ≡ bit_xor b a
bit_xor_comm a b = comm_below (a + b) a b (omega arith) (omega arith)

assoc_below :
    (n a b c : ℕ) → a ≤ n → b ≤ n → c ≤ n → bit_xor (bit_xor a b) c ≡ bit_xor a (bit_xor b c)
assoc_below zero zero zero zero h h' h'' = refl
assoc_below zero (suc a) b c h h' h'' = absurd (omega arith)
assoc_below zero a (suc b) c h h' h'' = absurd (omega arith)
assoc_below zero a b (suc c) h h' h'' = absurd (omega arith)
assoc_below (suc n) a b c h h' h'' =
    by_digit _ _
      (bit_xor_half (bit_xor a b) c
        ∙ ap (λ (t : ℕ). bit_xor t (c / 2)) (bit_xor_half a b)
        ∙ assoc_below n (a / 2) (b / 2) (c / 2) (omega arith) (omega arith) (omega arith)
        ∙ ap (λ (t : ℕ). bit_xor (a / 2) t) (sym (bit_xor_half b c))
        ∙ sym (bit_xor_half a (bit_xor b c)))
      (omega (
        arith,
        bit_xor_parity (bit_xor a b) c,
        bit_xor_parity a b,
        bit_xor_parity a (bit_xor b c),
        bit_xor_parity b c,
      ))

pub bit_xor_assoc : (a b c : ℕ) → bit_xor (bit_xor a b) c ≡ bit_xor a (bit_xor b c)
bit_xor_assoc a b c = assoc_below (a + b + c) a b c (omega arith) (omega arith) (omega arith)

self_below : (n a : ℕ) → a ≤ n → bit_xor a a ≡ 0
self_below zero zero h = refl
self_below zero (suc a) h = absurd (omega arith)
self_below (suc n) a h = omega (arith, bit_xor-digit a a, self_below n (a / 2) (omega arith))

pub bit_xor_self : (a : ℕ) → bit_xor a a ≡ 0
bit_xor_self a = self_below a a (omega arith)

pub double : (y p : ℕ) → y * (2 * p) ≡ 2 * (y * p)
double y p = omega arith

halves : (x k : ℕ) → x / 2 ^ suc k ≡ x / 2 / 2 ^ k
halves x k =
    ap (λ (t : ℕ). x / t) {x = 2 ^ suc k} {y = 2 * 2 ^ k} (omega (arith, pow_parts k))
    ∙ sym (div-div-eq-div-mul x 2 (2 ^ k))

-- Words without a digit in common are added.
pub bit_xor_add : (k lo y : ℕ) → lo < 2 ^ k → bit_xor lo (y * 2 ^ k) ≡ lo + y * 2 ^ k
bit_xor_add zero zero y h = omega (arith, bit_xor_comm 0 (y * 2 ^ 0), bit_xor_zero (y * 2 ^ 0))
bit_xor_add zero (suc lo) y h = absurd (omega arith)
bit_xor_add (suc k) lo y h =
    let e : y * 2 ^ suc k ≡ 2 * (y * 2 ^ k) =
      ap (λ (t : ℕ). y * t) (pow_parts k).2 ∙ double y (2 ^ k) in
    rw e (
      omega (
        arith,
        bit_xor-digit lo (2 * (y * 2 ^ k)),
        ap (λ (t : ℕ). bit_xor (lo / 2) t) {x = 2 * (y * 2 ^ k) / 2} {y = y * 2 ^ k} (omega arith),
        bit_xor_add k (lo / 2) y (omega (arith, pow_parts k)),
      ))

-- The low byte, and the rest, of an exclusive or with a byte.
pub and_step : (w m : ℕ) → bit_and w (2 * m + 1) ≡ bit_and (w / 2) m * 2 + w % 2
and_step w m =
    bit_and-digit w (2 * m + 1)
    ∙ omega (arith, ap (λ (t : ℕ). bit_and (w / 2) t) {x = (2 * m + 1) / 2} {y = m} (omega arith))

pub bit_and_byte : (w : ℕ) → bit_and w 255 ≡ w % 256
bit_and_byte w = omega (
  arith,
  and_step w 127,
  and_step (w / 2) 63,
  and_step (w / 2 / 2) 31,
  and_step (w / 2 / 2 / 2) 15,
  and_step (w / 2 / 2 / 2 / 2) 7,
  and_step (w / 2 / 2 / 2 / 2 / 2) 3,
  and_step (w / 2 / 2 / 2 / 2 / 2 / 2) 1,
  and_step (w / 2 / 2 / 2 / 2 / 2 / 2 / 2) 0,
  bit_and-zero (w / 256) (w / 2 / 2 / 2 / 2 / 2 / 2 / 2 / 2) (omega arith),
)

pub bit_xor_high : (k c b : ℕ) → b < 2 ^ k → bit_xor c b / 2 ^ k ≡ c / 2 ^ k
bit_xor_high zero c zero h = omega (arith, bit_xor_zero c)
bit_xor_high zero c (suc b) h = absurd (omega arith)
bit_xor_high (suc k) c b h =
    halves (bit_xor c b) k
    ∙ ap (λ (t : ℕ). t / 2 ^ k) (bit_xor_half c b)
    ∙ bit_xor_high k (c / 2) (b / 2) (omega (arith, pow_parts k))
    ∙ sym (halves c k)
