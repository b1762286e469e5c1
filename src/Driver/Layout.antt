-- ===== src/Driver/Layout.antt =====
-- What comes out of the decompressor when the compressor's file goes in.
use crsce.Prelude.{
  ℕ, zero, suc, ◌+◌, ◌-◌, ◌*◌, ◌/◌, ◌%◌, ◌^◌, ◌≤◌, ◌<◌, min, ◌≡◌, ◌≢◌, refl, sym, ap, ◌∙◌, inl,
  arith, ◌&&◌, Option, some, ltb, leb, if◌then◌else◌, ==_iff, lt→ltb, le→ltb, ◌>>=◌,
}
use native.Mathlib.Decide.{dec_lt}
use crsce.Lines.{Ltp, IsLtp}
use crsce.Csm.{Csm, vec}
use crsce.Csm.RoundTrip.{vec-load_csm}
use crsce.Payload.{Payload, payload_bytes, bit_at, copy}
use crsce.Payload.Bytes.{copy_within, copy_outside}
use mathlib.Core.Path.{subst}
use crsce.Bits.{get_bit, get_bit-zero_word}
use crsce.Header.{FileHeader, header_bytes, serialize, deserialize, header}
use crsce.Header.RoundTrip.{deserialize-serialize, deserialize_same}
use crsce.Driver.{
  File, written, file_bits, count_blocks, block_bits, vec_bytes, slice, compress_blocks, compress,
  copy_block_bits, decompress_blocks, decompress_body, decompress,
}
use crsce.Driver.Cut.{copy_block_bits_lem}
use crsce.Driver.Blocks.{
  Placed, Packed, Inverts, bits_of, >>=-eq-some, some_injective, compress_blocks-Placed,
  decompress_block-Placed,
}

-- A bit of the copied bytes, and one before them.
bit_at-copy :
    (src : ℕ → ℕ) (n offset : ℕ) (buf : ℕ → ℕ) (j : ℕ)
    → j < 8 * n
    → bit_at (copy src n offset buf) (8 * offset + j) ≡ bit_at src j
unfolding bit_at
bit_at-copy src n offset buf j h =
    ap (λ w. get_bit w (7 - (8 * offset + j) % 8))
      (copy_within src n offset buf ((8 * offset + j) / 8) (omega arith) (omega arith)
        ∙ ap src {x = (8 * offset + j) / 8 - offset} {y = j / 8} (omega arith))
    ∙ ap (λ (x : ℕ). get_bit (src (j / 8)) x) {x = 7 - (8 * offset + j) % 8} {y = 7 - j % 8}
        (omega arith)

bit_at-copy_before :
    (src : ℕ → ℕ) (n offset : ℕ) (buf : ℕ → ℕ) (j : ℕ)
    → j < 8 * offset
    → bit_at (copy src n offset buf) j ≡ bit_at buf j
unfolding bit_at
bit_at-copy_before src n offset buf j h =
    ap (λ w. get_bit w (7 - j % 8)) (copy_outside src n offset buf (j / 8) (inl (omega arith)))

-- A bit of the bytes that are not cut off.
bit_at-slice :
    (src : ℕ → ℕ) (size j : ℕ) → j < 8 * size → bit_at (slice src 0 size) j ≡ bit_at src j
unfolding bit_at
bit_at-slice src size j h =
    ap (λ w. get_bit w (7 - j % 8))
      (rw (lt→ltb (j / 8) size (omega arith)) (ap src {x = 0 + j / 8} {y = j / 8} (omega arith)))

bit_at-zeros : (j : ℕ) → bit_at (λ i. 0) j ≡ 0
unfolding bit_at
bit_at-zeros j = get_bit-zero_word (7 - j % 8)

-- The bits of a block lie in the file.
inside_file :
    (n start size j a : ℕ)
    → (j < n → start + j < 8 * size)
    → (if ltb j n
        then (if leb 0 j && (ltb j (0 + n) && ltb ((start + j) / 8) size) then a else 0)
        else 0)
      ≡ (if ltb j n then a else 0)
inside_file n start size j a h = elim (dec_lt j n) [
  | yes p ↦ ground (arith, h p)
  | no p ↦ ground arith
]

-- The file that decompression writes: as many bytes as the first one, and in these bytes, for every
-- block, 16136 bits, which are the block's bits and then clear bits.
pub record Restored (f out : File) : Type 0 where
  pub same_size : out.size ≡ f.size
  pub block_bit :
      (k i : ℕ)
      → k < count_blocks f.size
      → i < 16136
      → k * 16136 + i < 8 * out.size
      → bit_at out.bytes (k * 16136 + i)
        ≡ (if ltb i (bits_of f k) then bit_at f.bytes (k * block_bits + i) else 0)

module _ (t : Ltp) (ok : IsLtp t) (block_hash : Csm → ℕ → ℕ) (discover : Csm → Payload → Option ℕ)
    (reconstruct : Payload → Option Csm)
    (inverts : Inverts t ok block_hash discover reconstruct) where
  -- The bits of the matrix of a block are those of the file, and clear bits behind them.
  vec-Packed :
      (f : File) (k : ℕ) (block : ℕ → ℕ) (packed : Packed t block_hash discover f k block) (j : ℕ)
      → f.size < 2 ^ 60
      → bit_at (vec packed.matrix) j
        ≡ (if ltb j (bits_of f k) then bit_at f.bytes (k * block_bits + j) else 0)
  unfolding file_bits
  vec-Packed f k block packed j h =
      let (m, loaded, bits) =
        vec-load_csm (copy_block_bits f (k * block_bits) 0 (bits_of f k) (λ i. 0)) (bits_of f k)
          (omega arith) in
      ap (λ x. bit_at (vec x) j) (some_injective (sym packed.loaded ∙ loaded))
      ∙ bits j
      ∙ ap (λ (x : ℕ). if ltb j (bits_of f k) then x else 0)
          (copy_block_bits_lem f (k * block_bits) 0 (bits_of f k) (λ i. 0) j
              (λ j' h'. bit_at-zeros j')
            ∙ ap
                (λ (x : ℕ).
                  if leb 0 j && (ltb j (0 + bits_of f k) && ltb ((k * block_bits + j) / 8) f.size)
                  then bit_at f.bytes (k * block_bits + j)
                  else x)
                (bit_at-zeros j))
      ∙ inside_file (bits_of f k) (k * block_bits) f.size j (bit_at f.bytes (k * block_bits + j))
          (λ p. omega arith)

  -- The n blocks from b on.
  decompress_blocks-Placed :
      (f : File) (g : ℕ → ℕ) (b n : ℕ) (out : ℕ → ℕ)
      → f.size < 2 ^ 60
      → ((k : ℕ) → b ≤ k → k < b + n → Placed t block_hash discover f g k)
      → (out' : ℕ → ℕ) × (decompress_blocks reconstruct g b n out ≡ some out')
        × ((j : ℕ) → j < b * 16136 → bit_at out' j ≡ bit_at out j)
        × ((k i : ℕ)
            → b ≤ k
            → k < b + n
            → i < 16136
            → bit_at out' (k * 16136 + i)
              ≡ (if ltb i (bits_of f k) then bit_at f.bytes (k * block_bits + i) else 0))
  unfolding decompress_blocks
  decompress_blocks-Placed f g b zero out h placed =
      (out, refl, λ j hj. refl, λ k i lo hi hi'. absurd (omega arith))
  decompress_blocks-Placed f g b (suc n) out h placed =
      let first = placed b (omega arith) (omega arith) in
      let (m, found, bits) =
        decompress_block-Placed t ok block_hash discover reconstruct inverts f g b first in
      let next = copy (vec m) vec_bytes (b * vec_bytes) out in
      let (out', run, before, after) =
        decompress_blocks-Placed f g (b + 1) n next h
          (λ k lo hi. placed k (omega arith) (omega arith)) in
      (
        out',
        ap
              (λ x. x >>= (λ m.
                decompress_blocks reconstruct g (b + 1) n
                  (copy (vec m) vec_bytes (b * vec_bytes) out)))
              found
            ∙ run,
        λ j hj.
            before j (omega arith)
            ∙ bit_at-copy_before (vec m) vec_bytes (b * vec_bytes) out j (omega arith),
        λ k i lo hi hi'. elim (dec_lt b k) [
          | yes more ↦ after k i (omega arith) (omega arith) hi'
          | no last ↦
              subst
                (λ (x : ℕ).
                  bit_at out' (x * 16136 + i)
                  ≡ (if ltb i (bits_of f x) then bit_at f.bytes (x * block_bits + i) else 0))
                (omega arith)
                (before (b * 16136 + i) (omega arith)
                  ∙ ap (bit_at next) {x = b * 16136 + i} {y = 8 * (b * vec_bytes) + i} (omega arith)
                  ∙ bit_at-copy (vec m) vec_bytes (b * vec_bytes) out i (omega arith)
                  ∙ bits i
                  ∙ vec-Packed f b first.block first.packed i h)
        ],
      )

  count_blocks_lem :
      (size : ℕ)
      → size < 2 ^ 60
      → (size ≤ count_blocks size * vec_bytes) × (count_blocks size < 2 ^ 50)
  unfolding count_blocks file_bits
  count_blocks_lem size h = ground arith

  decompress_written :
      (g : File) (head : FileHeader) (out : ℕ → ℕ)
      → deserialize g.bytes g.size ≡ header head
      → g.size ≡ header_bytes + head.block_count * payload_bytes
      → head.block_count < 2 ^ 50
      → decompress_blocks reconstruct g.bytes 0 head.block_count (λ i. 0) ≡ some out
      → head.original_file_size_bytes ≤ head.block_count * vec_bytes
      → decompress reconstruct g
        ≡ written (record {
          size = head.original_file_size_bytes;
          bytes = slice out 0 head.original_file_size_bytes;
        })
  unfolding decompress decompress_body
  decompress_written g head out read size few run le =
      let all : min (head.block_count * vec_bytes) head.original_file_size_bytes
          ≡ head.original_file_size_bytes =
        omega arith in
      rw (read, decompress)
        (rw (run, decompress_body)
          (rw
            ((==_iff g.size ((header_bytes + head.block_count * payload_bytes % 2 ^ 64) % 2 ^ 64)).1
              (omega (arith, size, few)))
            (ap (λ (x : ℕ). written (record { size = x; bytes = slice out 0 x })) all)))

  -- If a file of less than 2^60 bytes is compressed, and the search of decompression inverts that of
  -- compression, then the decompressor accepts the compressed file and writes a file of the first one's
  -- size, each bit of which is found thus: the bits of block k start at bit k * 16136 and are followed
  -- by clear bits up to bit (k + 1) * 16136, as far as the file's size goes.
  pub decompress-compress :
      (f g : File)
      → f.size < 2 ^ 60
      → compress t block_hash discover f ≡ some g
      → (out : File) × (decompress reconstruct g ≡ written out) × Restored f out
  unfolding compress
  decompress-compress f g h made =
      let n = count_blocks f.size in
      let head : FileHeader = record { original_file_size_bytes = f.size; block_count = n } in
      let (blocks, run, e) =
        >>=-eq-some
          (compress_blocks t block_hash discover f 0 n
            (copy (serialize head) header_bytes 0 (λ i. 0)))
          _ made in
      let g' : File = record { size = header_bytes + n * payload_bytes; bytes = blocks } in
      let (front, placed) = compress_blocks-Placed t block_hash discover f 0 n _ blocks run in
      let (out, restored, before, after) =
        decompress_blocks-Placed f blocks 0 n (λ i. 0) h (λ k lo hi. placed k lo (omega arith)) in
      let read : deserialize blocks g'.size ≡ header head =
        deserialize_same blocks (serialize head) g'.size (omega arith) (λ i hi.
          front i (omega arith)
          ∙ copy_within (serialize head) header_bytes 0 (λ i. 0) i (omega arith) (omega arith)
          ∙ ap (serialize head) {x = i - 0} {y = i} (omega arith))
        ∙ deserialize-serialize head (omega arith) (omega (arith, (count_blocks_lem f.size h).1)) in
      (
        record { size = f.size; bytes = slice out 0 f.size },
        ap (decompress reconstruct) (sym (some_injective e))
            ∙ decompress_written g' head out read refl (count_blocks_lem f.size h).1 restored
                (count_blocks_lem f.size h).0,
        record {
          same_size = refl;
          block_bit = λ k i hk hi inside.
              bit_at-slice out f.size (k * 16136 + i) inside
              ∙ after k i (omega arith) (omega arith) hi;
        },
      )

  first_bit :
      (f out : File)
      → Restored f out
      → (j : ℕ) → 0 < count_blocks f.size
      → j < 16136
      → j < 8 * out.size
      → bit_at out.bytes j ≡ (if ltb j (bits_of f 0) then bit_at f.bytes j else 0)
  first_bit f out restored j some_block h inside =
      ap (bit_at out.bytes) {x = j} {y = 0 * 16136 + j} (omega arith)
      ∙ restored.block_bit 0 j some_block h (omega (arith, inside))
      ∙ ap (λ (x : ℕ). if ltb j (bits_of f 0) then bit_at f.bytes x else 0) {x = 0 * block_bits + j}
          {y = j} (omega arith)

  has_block : (size : ℕ) → 0 < size → size < 2 ^ 60 → 0 < count_blocks size
  unfolding count_blocks file_bits
  has_block size h h' = ground arith

  -- If a file of at most 2016 bytes is compressed, and the search of decompression inverts that of
  -- compression, then decompression writes a file of the same size with the same bits.
  pub decompress-compress_small :
      (f g : File)
      → f.size ≤ 2016
      → compress t block_hash discover f ≡ some g
      → (out : File) × (decompress reconstruct g ≡ written out)
        × (out.size ≡ f.size)
        × ((j : ℕ) → j < 8 * f.size → bit_at out.bytes j ≡ bit_at f.bytes j)
  unfolding file_bits count_blocks
  decompress-compress_small f g h made =
      let (out, run, restored) = decompress-compress f g (omega arith) made in
      (
        out,
        run,
        restored.same_size,
        λ j hj.
            first_bit f out restored j (has_block f.size (omega arith) (omega arith)) (omega arith)
              (omega (arith, hj, restored.same_size))
            ∙ rw (lt→ltb j (bits_of f 0) (omega arith)) refl,
      )

  -- If a file is longer than 2016 bytes, shorter than 2^60, and has a one at bit j, 16129 ≤ j < 16136,
  -- then it does not come back, even if the search of decompression inverts that of compression: where compression
  -- succeeds, decompression ends without an error and writes a file with another bit j.
  pub decompress-compress_spoils :
      (f g : File) (j : ℕ)
      → f.size < 2 ^ 60
      → 2016 < f.size
      → 16129 ≤ j
      → j < 16136
      → bit_at f.bytes j ≡ 1
      → compress t block_hash discover f ≡ some g
      → (out : File) × (decompress reconstruct g ≡ written out)
        × (bit_at out.bytes j ≢ bit_at f.bytes j)
  unfolding file_bits count_blocks
  decompress-compress_spoils f g j h long lo hi one made =
      let (out, run, restored) = decompress-compress f g h made in
      let clear : bit_at out.bytes j ≡ 0 =
        first_bit f out restored j (has_block f.size (omega arith) h) hi
          (omega (arith, restored.same_size))
        ∙ rw (le→ltb j (bits_of f 0) (omega arith)) refl in
      (out, run, λ same. absurd (omega (arith, clear, one, same)))
