-- ===== src/Crc/Register.antt =====
-- The table-driven checksums are the bitwise shift register: eight steps on each byte.
use crsce.Prelude.{
  ℕ, zero, suc, ◌+◌, ◌-◌, ◌*◌, ◌/◌, ◌%◌, ◌^◌, ◌<◌, ◌≡◌, refl, sym, ap, ◌∙◌, arith, ◌==◌,
  if◌then◌else◌, bit_and, bit_xor,
}
use crsce.Bits.{bit_and-one, pow_parts}
use crsce.Bits.Xor.{
  double, bit_xor_half, bit_xor_parity, bit_xor_zero, bit_xor_comm, bit_xor_assoc, bit_xor_self,
  bit_xor_add, bit_and_byte, bit_xor_high,
}
use crsce.Crc.{
  shift, shifts, make_crc8_entry, make_crc16_entry, make_entry_rt, crc8_loop, crc8, crc16_loop,
  crc16_ccitt, crc32_loop, crc32_ieee,
}

-- The reference: the byte enters the register, which then steps eight times.
unfoldable pub register : ℕ → (ℕ → ℕ) → ℕ → ℕ → ℕ → ℕ
register poly bytes i zero c = c
register poly bytes i (suc n) c =
    register poly bytes (i + 1) n (shifts poly 8 (bit_xor c (bytes i)))

-- What a step adds: the polynomial if the bit that leaves is set.
abbrev feedback : ℕ → ℕ → ℕ
feedback poly b = if b == 0 then 0 else poly

shift-feedback : (poly c : ℕ) → shift poly c ≡ bit_xor (feedback poly (c % 2)) (c / 2)
unfolding shift
shift-feedback poly c =
    rw (bit_and-one c) (ground (arith, bit_xor_zero (c / 2), bit_xor_comm 0 (c / 2)))

feedback_xor :
    (poly x y : ℕ)
    → x < 2
    → y < 2
    → feedback poly ((x + y) % 2) ≡ bit_xor (feedback poly x) (feedback poly y)
feedback_xor poly x y h h' =
    ground (arith, bit_xor_self poly, bit_xor_zero poly, bit_xor_comm 0 poly, bit_xor_zero 0)

swap_middle :
    (a b c d : ℕ) → bit_xor (bit_xor a b) (bit_xor c d) ≡ bit_xor (bit_xor a c) (bit_xor b d)
swap_middle a b c d =
    bit_xor_assoc a b (bit_xor c d)
    ∙ ap (λ (t : ℕ). bit_xor a t)
        (sym (bit_xor_assoc b c d)
          ∙ ap (λ (t : ℕ). bit_xor t d) (bit_xor_comm b c)
          ∙ bit_xor_assoc c b d)
    ∙ sym (bit_xor_assoc a c (bit_xor b d))

shift_xor : (poly x y : ℕ) → shift poly (bit_xor x y) ≡ bit_xor (shift poly x) (shift poly y)
shift_xor poly x y =
    rw
      (
        shift-feedback poly (bit_xor x y),
        shift-feedback poly x,
        shift-feedback poly y,
        bit_xor_half x y,
        bit_xor_parity x y,
        feedback_xor poly (x % 2) (y % 2) (omega arith) (omega arith),
      )
      (swap_middle (feedback poly (x % 2)) (feedback poly (y % 2)) (x / 2) (y / 2))

shifts_xor :
    (poly n x y : ℕ) → shifts poly n (bit_xor x y) ≡ bit_xor (shifts poly n x) (shifts poly n y)
unfolding shifts
shifts_xor poly zero x y = refl
shifts_xor poly (suc n) x y =
    ap (λ (t : ℕ). shifts poly n t) (shift_xor poly x y)
    ∙ shifts_xor poly n (shift poly x) (shift poly y)

shift_even : (poly y : ℕ) → shift poly (2 * y) ≡ y
shift_even poly y =
    shift-feedback poly (2 * y)
    ∙ ap (λ (b : ℕ). bit_xor (feedback poly b) (2 * y / 2)) {x = 2 * y % 2} {y = 0} (omega arith)
    ∙ bit_xor_comm 0 (2 * y / 2)
    ∙ bit_xor_zero (2 * y / 2)
    ∙ omega arith

-- n steps only shift a word whose n low digits are clear.
shifts_high : (poly n y : ℕ) → shifts poly n (y * 2 ^ n) ≡ y
unfolding shifts
shifts_high poly zero y = omega arith
shifts_high poly (suc n) y =
    ap (λ (t : ℕ). shifts poly n (shift poly t)) {x = y * 2 ^ suc n} {y = 2 * (y * 2 ^ n)}
      (ap (λ (t : ℕ). y * t) (pow_parts n).2 ∙ double y (2 ^ n))
    ∙ ap (λ (t : ℕ). shifts poly n t) (shift_even poly (y * 2 ^ n))
    ∙ shifts_high poly n y

-- Eight steps: those of the low byte, added to the rest of the word.
shifts_byte : (poly x : ℕ) → shifts poly 8 x ≡ bit_xor (shifts poly 8 (bit_and x 255)) (x / 2 ^ 8)
shifts_byte poly x =
    ap (λ (t : ℕ). shifts poly 8 t) {x = x} {y = bit_xor (x % 256) (x / 2 ^ 8 * 2 ^ 8)}
      (omega (arith, bit_xor_add 8 (x % 256) (x / 2 ^ 8) (omega arith)))
    ∙ shifts_xor poly 8 (x % 256) (x / 2 ^ 8 * 2 ^ 8)
    ∙ ap (λ (t : ℕ). bit_xor (shifts poly 8 (x % 256)) t) (shifts_high poly 8 (x / 2 ^ 8))
    ∙ ap (λ (t : ℕ). bit_xor (shifts poly 8 t) (x / 2 ^ 8)) (sym (bit_and_byte x))

-- The step of the table-driven loops.
table_step :
    (poly c b : ℕ)
    → b < 256
    → bit_xor (shifts poly 8 (bit_and (bit_xor c b) 255)) (c / 2 ^ 8) ≡ shifts poly 8 (bit_xor c b)
table_step poly c b h =
    ap (λ (t : ℕ). bit_xor (shifts poly 8 (bit_and (bit_xor c b) 255)) t)
      (sym (bit_xor_high 8 c b (omega arith)))
    ∙ sym (shifts_byte poly (bit_xor c b))

module _ (bytes : ℕ → ℕ) (small : (i : ℕ) → bytes i < 256) where
  crc32_loop_lem : (i n c : ℕ) → crc32_loop bytes i n c ≡ register 3988292384 bytes i n c
  unfolding crc32_loop register make_entry_rt
  crc32_loop_lem i zero c = refl
  crc32_loop_lem i (suc n) c =
      ap (λ (t : ℕ). crc32_loop bytes (i + 1) n t) (table_step 3988292384 c (bytes i) (small i))
      ∙ crc32_loop_lem (i + 1) n (shifts 3988292384 8 (bit_xor c (bytes i)))

  crc16_loop_lem : (i n c : ℕ) → crc16_loop bytes i n c ≡ register 33800 bytes i n c
  unfolding crc16_loop register make_crc16_entry
  crc16_loop_lem i zero c = refl
  crc16_loop_lem i (suc n) c =
      ap (λ (t : ℕ). crc16_loop bytes (i + 1) n t) (table_step 33800 c (bytes i) (small i))
      ∙ crc16_loop_lem (i + 1) n (shifts 33800 8 (bit_xor c (bytes i)))

  crc8_loop_lem : (i n c : ℕ) → crc8_loop bytes i n c ≡ register 224 bytes i n c
  unfolding crc8_loop register make_crc8_entry
  crc8_loop_lem i zero c = refl
  crc8_loop_lem i (suc n) c = crc8_loop_lem (i + 1) n (shifts 224 8 (bit_xor c (bytes i)))

  -- On bytes, each checksum is the negated content of its bitwise shift register.
  pub crc-register :
      (n : ℕ)
      → (crc32_ieee bytes n ≡ 2 ^ 32 - 1 - register 3988292384 bytes 0 n 4294967295)
        × (crc16_ccitt bytes n ≡ 2 ^ 16 - 1 - register 33800 bytes 0 n 65535)
        × (crc8 bytes n ≡ 2 ^ 8 - 1 - register 224 bytes 0 n 255)
  unfolding crc32_ieee crc16_ccitt crc8
  crc-register n = (
    ap (λ (t : ℕ). 2 ^ 32 - 1 - t) (crc32_loop_lem 0 n 4294967295),
    ap (λ (t : ℕ). 2 ^ 16 - 1 - t) (crc16_loop_lem 0 n 65535),
    ap (λ (t : ℕ). 2 ^ 8 - 1 - t) (crc8_loop_lem 0 n 255),
  )
