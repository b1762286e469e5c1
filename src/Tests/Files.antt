-- ===== src/Tests/Files.antt =====
-- The theorems on whole files and on row checksums, applied with a pair of searches that hide the
-- matrix in the index.
use crsce.Prelude.{
  ℕ, zero, suc, ◌+◌, ◌-◌, ◌*◌, ◌/◌, ◌%◌, ◌^◌, ◌≤◌, ◌<◌, ◌≡◌, ◌≢◌, ◌↔◌, refl, sym, ap, ◌∙◌, arith,
  true, Option, some, ltb, ◌==◌, if◌then◌else◌, lt→ltb, le→ltb,
}
use native.Mathlib.Decide.{dec_lt}
use crsce.Bits.{get_bit, bit_and-one}
use crsce.Lines.{s, diag_len}
use crsce.Csm.{Csm, load_csm, vec}
use crsce.Csm.Load.{bit_at-vec}
use crsce.Csm.RoundTrip.{vec-load_csm}
use crsce.Payload.{Payload, payload_bytes, new_payload, bit_at, serialize_block, deserialize_block}
use crsce.Payload.RoundTrip.{Fits, SameBlock}
use crsce.RowHash.{row_crc, verify_row, compute_lh, expect_rows, new_verifier}
use crsce.RowHash.Verify.{verify_row-compute_lh}
use crsce.Driver.{File, written, decompress, compress, payload_of}
use crsce.Driver.Blocks.{Inverts, some_injective, compress_total}
use crsce.Driver.Layout.{
  Restored, decompress-compress, decompress-compress_small, decompress-compress_spoils,
}
use crsce.Tests.Sample.{sample, sample-IsLtp}

-- The first n bits of a buffer from bit i on, as a number whose lowest digit is bit i.
packed : (ℕ → ℕ) → ℕ → ℕ → ℕ
packed bytes i zero = 0
packed bytes i (suc n) = bit_at bytes i + 2 * packed bytes (i + 1) n

digit : ℕ → ℕ → ℕ
digit x zero = x % 2
digit x (suc j) = digit (x / 2) j

bit_at-le : (bytes : ℕ → ℕ) (j : ℕ) → bit_at bytes j ≤ 1
unfolding bit_at get_bit
bit_at-le bytes j = omega (arith, bit_and-one (bytes (j / 8) / 2 ^ (7 - j % 8)))

digit-packed :
    (bytes : ℕ → ℕ) (i n j : ℕ) → j < n → digit (packed bytes i n) j ≡ bit_at bytes (i + j)
unfolding digit packed
digit-packed bytes i zero j h = absurd (omega arith)
digit-packed bytes i (suc n) zero h =
    omega (arith, bit_at-le bytes i, ap (bit_at bytes) {x = i} {y = i + 0} (omega arith))
digit-packed bytes i (suc n) (suc j) h =
    ap (λ (x : ℕ). digit x j) {x = packed bytes i (suc n) / 2} {y = packed bytes (i + 1) n}
      (omega (arith, bit_at-le bytes i))
    ∙ digit-packed bytes (i + 1) n j (omega arith)
    ∙ ap (bit_at bytes) {x = i + 1 + j} {y = i + suc j} (omega arith)

digit-le : (x j : ℕ) → digit x j ≤ 1
unfolding digit
digit-le x zero = omega arith
digit-le x (suc j) = digit-le (x / 2) j

-- The bytes whose bits are the digits.
abbrev spread : ℕ → ℕ → ℕ
spread x i =
    128 * digit x (8 * i)
    + 64 * digit x (8 * i + 1)
    + 32 * digit x (8 * i + 2)
    + 16 * digit x (8 * i + 3)
    + 8 * digit x (8 * i + 4)
    + 4 * digit x (8 * i + 5)
    + 2 * digit x (8 * i + 6)
    + digit x (8 * i + 7)

octet :
    (x i : ℕ)
    → (digit x (8 * i) ≤ 1)
      × (digit x (8 * i + 1) ≤ 1)
      × (digit x (8 * i + 2) ≤ 1)
      × (digit x (8 * i + 3) ≤ 1)
      × (digit x (8 * i + 4) ≤ 1)
      × (digit x (8 * i + 5) ≤ 1)
      × (digit x (8 * i + 6) ≤ 1)
      × (digit x (8 * i + 7) ≤ 1)
octet x i = (
  digit-le x _,
  digit-le x _,
  digit-le x _,
  digit-le x _,
  digit-le x _,
  digit-le x _,
  digit-le x _,
  digit-le x _,
)

-- Eight binary digits, the highest first.
get_bit-byte : (x i k : ℕ) → k < 8 → get_bit (spread x i) (7 - k) ≡ digit x (8 * i + k)
unfolding get_bit
get_bit-byte x i zero h = omega (
  arith,
  bit_and-one (spread x i / 128),
  octet x i,
  ap (digit x) {x = 8 * i} {y = 8 * i + 0} (omega arith),
)
get_bit-byte x i (suc zero) h = omega (arith, bit_and-one (spread x i / 64), octet x i)
get_bit-byte x i (suc (suc zero)) h = omega (arith, bit_and-one (spread x i / 32), octet x i)
get_bit-byte x i (suc (suc (suc zero))) h = omega (arith, bit_and-one (spread x i / 16), octet x i)
get_bit-byte x i (suc (suc (suc (suc zero)))) h =
    omega (arith, bit_and-one (spread x i / 8), octet x i)
get_bit-byte x i (suc (suc (suc (suc (suc zero))))) h =
    omega (arith, bit_and-one (spread x i / 4), octet x i)
get_bit-byte x i (suc (suc (suc (suc (suc (suc zero)))))) h =
    omega (arith, bit_and-one (spread x i / 2), octet x i)
get_bit-byte x i (suc (suc (suc (suc (suc (suc (suc zero))))))) h =
    omega (arith, bit_and-one (spread x i / 1), octet x i)
get_bit-byte x i (suc (suc (suc (suc (suc (suc (suc (suc k)))))))) h = absurd (omega arith)

bit_at-spread : (x j : ℕ) → bit_at (spread x) j ≡ digit x j
unfolding bit_at
bit_at-spread x j =
    get_bit-byte x (j / 8) (j % 8) (omega arith)
    ∙ ap (digit x) {x = 8 * (j / 8) + j % 8} {y = j} (omega arith)

-- The compressor's search gives the matrix away; the decompressor's reads it off.
abbrev discover : Csm → Payload → Option ℕ
discover m p = some (packed (vec m) 0 16129)

abbrev reconstruct : Payload → Option Csm
reconstruct p = load_csm (spread p.di) 16129

abbrev no_hash : Csm → ℕ → ℕ
no_hash m j = 0

inverse : Inverts sample sample-IsLtp no_hash discover reconstruct
inverse m di p' found same =
    let (m', loaded, bits) = vec-load_csm (spread p'.di) 16129 (omega arith) in
    (m', loaded, λ j. bits j ∙ by_place m di p' found same j (dec_lt j 16129))
  where
    by_place :
        (m : Csm) (di : ℕ) (p' : Payload)
        → discover m (payload_of sample no_hash m) ≡ some di
        → SameBlock (record (payload_of sample no_hash m) { di = di }) p'
        → (j : ℕ) → Dec (j < 16129)
        → (if ltb j 16129 then bit_at (spread p'.di) j else 0) ≡ bit_at (vec m) j
    by_place m di p' found same j (yes h) = rw (lt→ltb j 16129 h) (
        bit_at-spread p'.di j
        ∙ ap (λ (x : ℕ). digit x j) (same.same_di ∙ some_injective (sym found))
        ∙ digit-packed (vec m) 0 16129 j h
        ∙ ap (bit_at (vec m)) {x = 0 + j} {y = j} (omega arith))
    by_place m di p' found same j (no h) =
        rw (le→ltb j 16129 (omega arith))
          (sym (bit_at-vec m j ∙ rw (le→ltb j 16129 (omega arith)) refl))

abbrev short : File
short = record { size = 300; bytes = λ i. i % 256 }

abbrev long : File
long = record { size = 5000; bytes = λ i. if i == 2016 then 65 else 0 }

always : (m : Csm) (p : Payload) → (di : ℕ) × (discover m p ≡ some di)
always m p = (packed (vec m) 0 16129, refl)

made : (f : File) → (g : File) × (compress sample no_hash discover f ≡ some g)
made f = compress_total sample no_hash discover f always

decompress-compress_example :
    (out : File) × (decompress reconstruct (made long).0 ≡ written out) × Restored long out
decompress-compress_example =
    decompress-compress sample sample-IsLtp no_hash discover reconstruct inverse long (made long).0
      (omega arith) (made long).1

decompress-compress_small_example :
    (out : File) × (decompress reconstruct (made short).0 ≡ written out)
    × (out.size ≡ 300)
    × ((j : ℕ) → j < 8 * 300 → bit_at out.bytes j ≡ bit_at (λ i. i % 256) j)
decompress-compress_small_example =
    decompress-compress_small sample sample-IsLtp no_hash discover reconstruct inverse short
      (made short).0 (omega arith) (made short).1

decompress-compress_spoils_example :
    (out : File) × (decompress reconstruct (made long).0 ≡ written out)
    × (bit_at out.bytes 16135 ≢ bit_at long.bytes 16135)
decompress-compress_spoils_example =
    decompress-compress_spoils sample sample-IsLtp no_hash discover reconstruct inverse long
      (made long).0 16135 (omega arith) (omega arith) (omega arith) (omega arith)
      (unfold bit_at get_bit in refl) (made long).1

abbrev two_rows : Csm
two_rows = record { rows = λ r w. r * 2 ^ 40 + w }

two_rows-Fits : Fits (compute_lh two_rows 0 s new_payload)
unfolding diag_len compute_lh new_payload
two_rows-Fits = record {
  lsm_fits = λ k h. omega arith;
  vsm_fits = λ k h. omega arith;
  dsm_fits = λ k h. omega arith;
  xsm_fits = λ k h. omega arith;
  ltp1sm_fits = λ k h. omega arith;
  ltp2sm_fits = λ k h. omega arith;
}

verify_row-compute_lh_example :
    (p' : Payload) × (deserialize_block
        (serialize_block (compute_lh two_rows 0 s new_payload)).0
        payload_bytes
        new_payload
      ≡ some p')
    × ((r : ℕ) (row : ℕ → ℕ)
        → r < s
        → (verify_row (expect_rows p' 0 s new_verifier) r row ≡ true)
          ↔ (row_crc row ≡ row_crc (two_rows.rows r)))
verify_row-compute_lh_example = verify_row-compute_lh two_rows new_payload new_payload two_rows-Fits
