-- ===== src/Crc.antt =====
-- The table-driven checksums of include/common/Util: crc8.h, crc16_ccitt.h, make_entry_rt.h,
-- crc32_table.h and crc32_ieee.h. A table entry is computed where the code reads it.
pub mod Register
use crsce.Prelude.{
  ℕ, zero, suc, ◌+◌, ◌-◌, ◌*◌, ◌/◌, ◌%◌, ◌^◌, ◌==◌, if◌then◌else◌, bit_and, bit_xor,
}

-- One step of the reflected shift register with the polynomial `poly`.
unfoldable pub shift : ℕ → ℕ → ℕ
shift poly c = if bit_and c 1 == 0 then c / 2 else bit_xor poly (c / 2)

unfoldable pub shifts : ℕ → ℕ → ℕ → ℕ
unfolding shift
shifts poly zero c = c
shifts poly (suc n) c = shifts poly n (shift poly c)

-- make_crc8_entry, make_crc16_entry and make_entry_rt
unfoldable pub make_crc8_entry : ℕ → ℕ
unfolding shifts
make_crc8_entry i = shifts 224 8 i

unfoldable pub make_crc16_entry : ℕ → ℕ
unfolding shifts
make_crc16_entry i = shifts 33800 8 i

unfoldable pub make_entry_rt : ℕ → ℕ
unfolding shifts
make_entry_rt i = shifts 3988292384 8 i

-- The loops over the bytes, from index i on for n bytes.
unfoldable pub crc8_loop : (ℕ → ℕ) → ℕ → ℕ → ℕ → ℕ
unfolding make_crc8_entry
crc8_loop bytes i zero c = c
crc8_loop bytes i (suc n) c = crc8_loop bytes (i + 1) n (make_crc8_entry (bit_xor c (bytes i)))

unfoldable pub crc8 : (ℕ → ℕ) → ℕ → ℕ
unfolding crc8_loop
crc8 bytes len = 2 ^ 8 - 1 - crc8_loop bytes 0 len 255

unfoldable pub crc16_loop : (ℕ → ℕ) → ℕ → ℕ → ℕ → ℕ
unfolding make_crc16_entry
crc16_loop bytes i zero c = c
crc16_loop bytes i (suc n) c =
    crc16_loop bytes (i + 1) n
      (bit_xor (make_crc16_entry (bit_and (bit_xor c (bytes i)) 255)) (c / 2 ^ 8))

unfoldable pub crc16_ccitt : (ℕ → ℕ) → ℕ → ℕ
unfolding crc16_loop
crc16_ccitt bytes len = 2 ^ 16 - 1 - crc16_loop bytes 0 len 65535

unfoldable pub crc32_loop : (ℕ → ℕ) → ℕ → ℕ → ℕ → ℕ
unfolding make_entry_rt
crc32_loop bytes i zero c = c
crc32_loop bytes i (suc n) c =
    crc32_loop bytes (i + 1) n
      (bit_xor (make_entry_rt (bit_and (bit_xor c (bytes i)) 255)) (c / 2 ^ 8))

-- ~c of a 32-bit number
unfoldable pub crc32_ieee : (ℕ → ℕ) → ℕ → ℕ
unfolding crc32_loop
crc32_ieee bytes len = 2 ^ 32 - 1 - crc32_loop bytes 0 len 4294967295
