-- ===== src/Header/LittleEndian.antt =====
-- A number stored byte by byte is loaded again.
use native.Mathlib.Nat.{div-div-eq-div-mul, pow-suc}
use crsce.Prelude.{
  ℕ, zero, suc, ◌+◌, ◌-◌, ◌*◌, ◌/◌, ◌%◌, ◌^◌, ◌≤◌, ◌<◌, ◌≡◌, refl, sym, ap, ◌∙◌, ◌⊎◌, arith,
}
use crsce.Payload.{copy}
use crsce.Header.{le_byte, store_le, load_le}

le_byte-zero : (v : ℕ) → le_byte v 0 ≡ v % 256
unfolding le_byte
le_byte-zero v = omega arith

le_byte-suc : (v i : ℕ) → le_byte v (suc i) ≡ le_byte (v / 256) i
unfolding le_byte
le_byte-suc v i =
    ap (λ (t : ℕ). v / t % 256) {x = 256 ^ suc i} {y = 256 * 256 ^ i} (omega (arith, pow-suc 256 i))
    ∙ ap (λ (t : ℕ). t % 256) (sym (div-div-eq-div-mul v 256 (256 ^ i)))

-- Bytes that are those of a number below 256 ^ n make that number.
pub load_le-le_byte :
    (bytes : ℕ → ℕ) (n offset v : ℕ)
    → v < 256 ^ n
    → ((i : ℕ) → i < n → bytes (offset + i) ≡ le_byte v i)
    → load_le bytes offset n ≡ v
unfolding load_le
load_le-le_byte bytes zero offset v h same = omega arith
load_le-le_byte bytes (suc n) offset v h same = omega (
  arith,
  ap (λ (i : ℕ). bytes i) {x = offset} {y = offset + 0} (omega arith),
  same 0 (omega arith),
  le_byte-zero v,
  load_le-le_byte bytes n (offset + 1) (v / 256) (omega (arith, pow-suc 256 n)) (λ i hi.
      ap (λ (i : ℕ). bytes i) {x = offset + 1 + i} {y = offset + suc i} (omega arith)
      ∙ same (suc i) (omega arith)
      ∙ le_byte-suc v i),
)

-- Only the bytes of two buffers that are loaded matter.
pub load_le_same :
    (bytes bytes' : ℕ → ℕ) (offset n : ℕ)
    → ((i : ℕ) → offset ≤ i → i < offset + n → bytes i ≡ bytes' i)
    → load_le bytes offset n ≡ load_le bytes' offset n
unfolding load_le
load_le_same bytes bytes' offset zero same = refl
load_le_same bytes bytes' offset (suc n) same = omega (
  arith,
  same offset (omega arith) (omega arith),
  load_le_same bytes bytes' (offset + 1) n (λ i a b. same i (omega arith) (omega arith)),
)

pub load_le-store_le :
    (v n offset : ℕ) (buf : ℕ → ℕ) → v < 256 ^ n → load_le (store_le v n offset buf) offset n ≡ v
unfolding store_le copy
load_le-store_le v n offset buf h = load_le-le_byte (store_le v n offset buf) n offset v h (λ i hi.
    within i hi ∙ ap (λ (j : ℕ). le_byte v j) {x = offset + i - offset} {y = i} (omega arith))
  where
    within :
        (i : ℕ) → i < n → store_le v n offset buf (offset + i) ≡ le_byte v (offset + i - offset)
    within i hi = ground arith

pub store_le_outside :
    (v n offset : ℕ) (buf : ℕ → ℕ) (i : ℕ)
    → (i < offset) ⊎ (offset + n ≤ i)
    → store_le v n offset buf i ≡ buf i
unfolding store_le copy
store_le_outside v n offset buf i h = ground arith
