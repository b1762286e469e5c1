-- ===== src/Payload/Bitstream.antt =====
-- Packing a number into a bit stream and reading it back.
use native.Mathlib.Nat.{pow-le-pow_right}
use crsce.Prelude.{
  ℕ, zero, suc, ◌+◌, ◌-◌, ◌*◌, ◌/◌, ◌%◌, ◌^◌, ◌≤◌, ◌<◌, ◌≡◌, refl, ap, ◌∙◌, ◌⊎◌, inl, arith, ◌==◌,
  if◌then◌else◌, bit_or,
}
use crsce.Bits.{
  get_bit, set_bit, get_bit-le, get_bit-set_bit, set_bit_sum, get_bit-zero, get_bit-suc,
  bit_or-zero, pow_parts, get_bit-zero_word,
}
use crsce.Payload.{bit_at, write_bit, pack_bits, unpack_loop, unpack_bits}

-- The n bits from `offset` on spell the low bits of v, the highest first.
abbrev pub Spells : (ℕ → ℕ) → ℕ → ℕ → ℕ → Type 0
Spells bytes offset n v = (j : ℕ) → j < n → bit_at bytes (offset + j) ≡ get_bit v (n - 1 - j)

-- From `offset` on every bit is clear.
abbrev pub Clear : (ℕ → ℕ) → ℕ → Type 0
Clear bytes offset = (j : ℕ) → offset ≤ j → bit_at bytes j ≡ 0

or_bit :
    (w b k : ℕ)
    → b ≤ 1
    → bit_or w (if b == 0 then 0 else 2 ^ k) ≡ (if b == 0 then w else set_bit w k)
unfolding set_bit
or_bit w zero k h = bit_or-zero w w (omega arith)
or_bit w (suc b) k h = ground arith

small_byte : (b p : ℕ) → b ≤ 1 → p < 256 → b * p % 256 ≡ (if b == 0 then 0 else p)
small_byte zero p h h' = omega arith
small_byte (suc zero) p h h' = omega arith
small_byte (suc (suc b)) p h h' = absurd (omega arith)

small_word : (b p : ℕ) → b ≤ 1 → p < 65536 → b * p % 65536 ≡ (if b == 0 then 0 else p)
small_word zero p h h' = omega arith
small_word (suc zero) p h h' = omega arith
small_word (suc (suc b)) p h h' = absurd (omega arith)

byte_bit : (k : ℕ) → k ≤ 7 → 2 ^ k < 256
byte_bit k h = omega (arith, pow-le-pow_right {n = 2} (omega arith) {i = k} {j = 7} h)

word_bit : (k : ℕ) → k ≤ 15 → 2 ^ k < 65536
word_bit k h = omega (arith, pow-le-pow_right {n = 2} (omega arith) {i = k} {j = 15} h)

pub bit_at-write_bit :
    (buf : ℕ → ℕ) (offset b j : ℕ)
    → b ≤ 1
    → bit_at (write_bit buf offset b) j
      ≡ (if offset == j then (if b == 0 then bit_at buf j else 1) else bit_at buf j)
unfolding bit_at write_bit
bit_at-write_bit buf offset b j h =
    rw
      (
        small_byte b (2 ^ (7 - offset % 8)) h (byte_bit (7 - offset % 8) (omega arith)),
        or_bit (buf (offset / 8)) b (7 - offset % 8) h,
      )
      (ground (arith, get_bit-set_bit (buf (offset / 8)) (7 - offset % 8) (7 - j % 8)))

pub pack_bits-offset : (buf : ℕ → ℕ) (offset v n : ℕ) → (pack_bits buf offset v n).1 ≡ offset + n
unfolding pack_bits
pack_bits-offset buf offset v zero = omega arith
pack_bits-offset buf offset v (suc n) =
    omega (arith, pack_bits-offset (write_bit buf offset (get_bit v n)) (offset + 1) v n)

-- The bytes behind the n bits that are written stay.
pub pack_bits_beyond :
    (buf : ℕ → ℕ) (offset v n i : ℕ) → offset + n ≤ 8 * i → (pack_bits buf offset v n).0 i ≡ buf i
unfolding pack_bits write_bit
pack_bits_beyond buf offset v zero i h = refl
pack_bits_beyond buf offset v (suc n) i h =
    pack_bits_beyond (write_bit buf offset (get_bit v n)) (offset + 1) v n i (omega arith)
    ∙ ground arith

-- The bits outside the n that are written stay.
pub pack_bits_outside :
    (buf : ℕ → ℕ) (offset v n j : ℕ)
    → (j < offset) ⊎ (offset + n ≤ j)
    → bit_at (pack_bits buf offset v n).0 j ≡ bit_at buf j
unfolding pack_bits
pack_bits_outside buf offset v zero j h = refl
pack_bits_outside buf offset v (suc n) j h = ground (
  arith,
  pack_bits_outside (write_bit buf offset (get_bit v n)) (offset + 1) v n j,
  bit_at-write_bit buf offset (get_bit v n) j (get_bit-le v n),
)

bit_of_le : (b : ℕ) → b ≤ 1 → (if b == 0 then 0 else 1) ≡ b
bit_of_le b h = ground arith

-- On clear bits, the bits that are written spell the value.
pub pack_bits-Spells :
    (buf : ℕ → ℕ) (offset v n : ℕ)
    → Clear buf offset
    → Spells (pack_bits buf offset v n).0 offset n v
unfolding pack_bits
pack_bits-Spells buf offset v zero clear j h = absurd (omega arith)
pack_bits-Spells buf offset v (suc n) clear zero h =
    pack_bits_outside (write_bit buf offset (get_bit v n)) (offset + 1) v n (offset + 0)
      (inl (omega arith))
    ∙ ground (
      arith,
      bit_at-write_bit buf offset (get_bit v n) (offset + 0) (get_bit-le v n),
      clear (offset + 0) (omega arith),
      get_bit-le v n,
    )
pack_bits-Spells buf offset v (suc n) clear (suc j) h =
    let buf' = write_bit buf offset (get_bit v n) in
    let clear' : Clear buf' (offset + 1) = λ i hi. ground (
      arith,
      bit_at-write_bit buf offset (get_bit v n) i (get_bit-le v n),
      clear i (omega arith),
    ) in
    ap (λ (i : ℕ). bit_at (pack_bits buf' (offset + 1) v n).0 i) {x = offset + suc j}
      {y = offset + 1 + j} (omega arith)
    ∙ pack_bits-Spells buf' (offset + 1) v n clear' j (omega arith)
    ∙ ap (λ (i : ℕ). get_bit v i) {x = n - 1 - j} {y = suc n - 1 - suc j} (omega arith)

-- The number that the n low bits of v make.
low : ℕ → ℕ → ℕ
low v zero = 0
low v (suc k) = (if get_bit v k == 0 then 0 else 2 ^ k) + low v k

low_half : (v n : ℕ) → low v (suc n) ≡ 2 * low (v / 2) n + v % 2
unfolding low
low_half v zero = ground (arith, get_bit-zero v)
low_half v (suc n) = ground (arith, low_half v n, get_bit-suc v n, pow_parts n)

low_all : (n v : ℕ) → v < 2 ^ n → low v n ≡ v
unfolding low
low_all zero v h = omega arith
low_all (suc n) v h =
    omega (arith, low_half v n, low_all n (v / 2) (omega (arith, pow_parts n)), pow_parts n)

set_bit_fresh : (w b : ℕ) → get_bit w b ≡ 0 → set_bit w b ≡ w + 2 ^ b
set_bit_fresh w b h = omega (arith, set_bit_sum w b, ap (λ (t : ℕ). t * 2 ^ b) h)

add_zero : (n : ℕ) → n ≡ n + 0
add_zero n = omega arith

read_loop :
    (bytes : ℕ → ℕ) (offset acc n v : ℕ)
    → n ≤ 16
    → Spells bytes offset n v
    → ((i : ℕ) → i < n → get_bit acc i ≡ 0)
    → unpack_loop bytes offset acc n ≡ (acc + low v n, offset + n)
unfolding unpack_loop low
read_loop bytes offset acc zero v h spells free = λ i. (add_zero acc i, add_zero offset i)
read_loop bytes offset acc (suc n) v h spells free =
    let b = get_bit v n in
    let first : bit_at bytes offset ≡ b =
      ap (λ (i : ℕ). bit_at bytes i) {x = offset} {y = offset + 0} (omega arith)
      ∙ spells 0 (omega arith)
      ∙ ap (λ (i : ℕ). get_bit v i) {x = suc n - 1 - 0} {y = n} (omega arith) in
    let rest : Spells bytes (offset + 1) n v = λ j hj.
      ap (λ (i : ℕ). bit_at bytes i) {x = offset + 1 + j} {y = offset + suc j} (omega arith)
      ∙ spells (suc j) (omega arith)
      ∙ ap (λ (i : ℕ). get_bit v i) {x = suc n - 1 - suc j} {y = n - 1 - j} (omega arith) in
    let acc' = if b == 0 then acc else set_bit acc n in
    let more : acc' + low v n ≡ acc + low v (suc n) =
      ground (arith, set_bit_fresh acc n (free n (omega arith))) in
    let step : offset + 1 + n ≡ offset + suc n = omega arith in
    let free' : (i : ℕ) → i < n → get_bit acc' i ≡ 0 =
      λ i hi. ground (arith, free i (omega arith), get_bit-set_bit acc n i) in
    rw
      (
        first,
        small_word b (2 ^ n) (get_bit-le v n) (word_bit n (omega arith)),
        or_bit acc b n (get_bit-le v n),
      )
      (read_loop bytes (offset + 1) acc' n v (omega arith) rest free' ∙ (λ i. (more i, step i)))

-- Reading n bits that spell a number of n bits gives that number.
pub unpack_bits-Spells :
    (bytes : ℕ → ℕ) (offset n v : ℕ)
    → n ≤ 16
    → v < 2 ^ n
    → Spells bytes offset n v
    → unpack_bits bytes offset n ≡ (v, offset + n)
unfolding unpack_bits
unpack_bits-Spells bytes offset n v h small spells =
    let whole : 0 + low v n ≡ v = omega (arith, low_all n v small) in
    read_loop bytes offset 0 n v h spells (λ i hi. get_bit-zero_word i)
    ∙ (λ i. (whole i, offset + n))

-- Bits before `offset` are in bytes that are written later only in part: a byte that ends before
-- `offset` stays.
pub pack_bits_byte :
    (buf : ℕ → ℕ) (offset v n i : ℕ) → i < offset / 8 → (pack_bits buf offset v n).0 i ≡ buf i
unfolding pack_bits write_bit
pack_bits_byte buf offset v zero i h = refl
pack_bits_byte buf offset v (suc n) i h =
    pack_bits_byte (write_bit buf offset (get_bit v n)) (offset + 1) v n i (omega arith)
    ∙ ground arith
