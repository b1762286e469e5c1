-- ===== src/Driver/Cut.antt =====
-- The bits that the compressor cuts out of the file for a block.
use crsce.Prelude.{
  ℕ, zero, suc, ◌+◌, ◌-◌, ◌/◌, ◌%◌, ◌≤◌, ◌≡◌, refl, ap, ◌∙◌, inl, inr, arith, ◌&&◌, Bool-cases, ltb,
  leb, ◌==◌, if◌then◌else◌,
}
use crsce.Bits.{get_bit, get_bit-le}
use crsce.Payload.{bit_at, write_bit}
use crsce.Payload.Bitstream.{Clear, bit_at-write_bit}
use crsce.Driver.{File, copy_block_bits}

bit_value : (v : ℕ) → v ≤ 1 → (if v == 0 then 0 else 1) ≡ v
bit_value v h = ground arith

-- The block after one more bit.
abbrev next_block : File → ℕ → ℕ → (ℕ → ℕ) → ℕ → ℕ
next_block f start i block =
    if ltb ((start + i) / 8) f.size
    then write_bit block i (get_bit (f.bytes ((start + i) / 8)) (7 - (start + i) % 8))
    else block

bit_at-next_block :
    (f : File) (start i : ℕ) (block : ℕ → ℕ) (j : ℕ)
    → bit_at block i ≡ 0
    → bit_at (next_block f start i block) j ≡ (
        if (i == j) && ltb ((start + j) / 8) f.size
        then bit_at f.bytes (start + j)
        else bit_at block j)
bit_at-next_block f start i block j clear =
    let v = get_bit (f.bytes ((start + i) / 8)) (7 - (start + i) % 8) in
    let small : v ≤ 1 = get_bit-le _ _ in
    let source : v ≡ bit_at f.bytes (start + i) = unfold bit_at in refl in
    elim (Bool-cases (ltb ((start + i) / 8) f.size)) [
      | inl e ↦
          ap (λ b. bit_at (if b then write_bit block i v else block) j) e
          ∙ bit_at-write_bit block i v j small
          ∙ ground (
            arith,
            clear,
            bit_value v small,
            e,
            source,
            ap (λ (x : ℕ). bit_at f.bytes (start + x)) {x = i} {y = j},
            ap (λ (x : ℕ). ltb ((start + x) / 8) f.size) {x = i} {y = j},
            ap (bit_at block) {x = i} {y = j},
          )
      | inr e ↦
          ap (λ b. bit_at (if b then write_bit block i v else block) j) e
          ∙ ground (arith, e, ap (λ (x : ℕ). ltb ((start + x) / 8) f.size) {x = i} {y = j})
    ]

-- The bits of a block: those of the file, as far as the file goes.
pub copy_block_bits_lem :
    (f : File) (start i n : ℕ) (block : ℕ → ℕ) (j : ℕ)
    → Clear block i
    → bit_at (copy_block_bits f start i n block) j ≡ (
        if leb i j && (ltb j (i + n) && ltb ((start + j) / 8) f.size)
        then bit_at f.bytes (start + j)
        else bit_at block j)
unfolding copy_block_bits
copy_block_bits_lem f start i zero block j clear = ground arith
copy_block_bits_lem f start i (suc n) block j clear =
    let step = bit_at-next_block f start i block in
    copy_block_bits_lem f start (i + 1) n (next_block f start i block) j
      (λ j' h. step j' (clear i (omega arith)) ∙ ground (arith, clear j'))
    ∙ rw (step j (clear i (omega arith))) (ground arith)
