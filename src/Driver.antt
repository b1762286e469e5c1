-- ===== src/Driver.antt =====
-- Compressor::compress (src/Compress/Compressor/Compressor_compress.cpp) and
-- Decompressor::decompress (src/Decompress/Decompressor/Decompressor_decompress.cpp) on files that
-- are read and written without an error. A file is its size and its bytes. The two searches are
-- parameters: `discover` is discoverDI (or the constant 0 where it is disabled) and `reconstruct`
-- is reconstructBlock, `none` where they throw. `block_hash` is BlockHash::compute. The side file
-- that CRSCE_B44D_SUBBLOCK names is left out.
pub mod Cut
pub mod Blocks
pub mod Layout
use crsce.Prelude.{
  ℕ, zero, suc, ◌+◌, ◌-◌, ◌*◌, ◌/◌, ◌%◌, ◌^◌, min, Option, none, some, ltb, ◌==◌, if◌then◌else◌,
  not, ◌>>=◌,
}
use crsce.Bits.{get_bit}
use crsce.Lines.{Ltp, s}
use crsce.Csm.{Csm, load_csm, vec}
use crsce.Payload.{
  Payload, payload_bytes, new_payload, copy, write_bit, serialize_block, deserialize_block,
}
use crsce.Header.{
  FileHeader, HeaderResult, header, too_small, bad_magic, crc_mismatch, header_bytes, serialize,
  deserialize,
}
use crsce.CrossSum.{compute_cross_sums}
use crsce.RowHash.{compute_lh}

-- kBlockBits
abbrev pub block_bits : ℕ
block_bits = 16129

-- The bytes of vec().
abbrev pub vec_bytes : ℕ
vec_bytes = 2017

pub record File : Type 0 where
  pub size : ℕ
  pub bytes : ℕ → ℕ

-- fileSize * 8 and the number of blocks, both uint64
unfoldable pub file_bits : ℕ → ℕ
file_bits size = size * 8 % 2 ^ 64

unfoldable pub count_blocks : ℕ → ℕ
unfolding file_bits
count_blocks size =
    if file_bits size == 0 then 0 else (file_bits size + block_bits - 1) % 2 ^ 64 / block_bits

-- One bit of the file to bit i of the block, for n bits from i on.
unfoldable pub copy_block_bits : File → ℕ → ℕ → ℕ → (ℕ → ℕ) → ℕ → ℕ
unfolding write_bit
copy_block_bits f start i zero block = block
copy_block_bits f start i (suc n) block =
    let src = start + i in
    copy_block_bits f start (i + 1) n (
      if ltb (src / 8) f.size
      then write_bit block i (get_bit (f.bytes (src / 8)) (7 - src % 8))
      else block)

module _ (t : Ltp) (block_hash : Csm → ℕ → ℕ) where
  -- The payload of a matrix, and the block: 1369 bytes.
  unfoldable pub payload_of : Csm → Payload
  unfolding compute_cross_sums compute_lh new_payload
  payload_of m = record (compute_lh m 0 s (compute_cross_sums t m new_payload)) {
    bh = block_hash m;
  }

  module _ (discover : Csm → Payload → Option ℕ) where
    unfoldable pub compress_block : File → ℕ → Option (ℕ → ℕ)
    unfolding payload_of copy_block_bits load_csm serialize_block
    compress_block f b = do
      let start = b * block_bits
      let n = min (file_bits f.size - start) block_bits
      m ← load_csm (copy_block_bits f start 0 n (λ i. 0)) n
      di ← discover m (payload_of m)
      some (serialize_block (record (payload_of m) { di = di })).0

    -- The n blocks from b on, each written behind the last.
    unfoldable pub compress_blocks : File → ℕ → ℕ → (ℕ → ℕ) → Option (ℕ → ℕ)
    unfolding compress_block copy
    compress_blocks f b zero out = some out
    compress_blocks f b (suc n) out = do
      block ← compress_block f b
      compress_blocks f (b + 1) n (copy block payload_bytes (header_bytes + b * payload_bytes) out)

    unfoldable pub compress : File → Option File
    unfolding compress_blocks count_blocks serialize
    compress f = do
      let n = count_blocks f.size
      let head = serialize (record { original_file_size_bytes = f.size; block_count = n })
      out ← compress_blocks f 0 n (copy head header_bytes 0 (λ i. 0))
      some (record { size = header_bytes + n * payload_bytes; bytes = out })

-- The exceptions of decompress, or the file that it writes.
pub data Outcome : Type 0 where
  header_invalid size_mismatch di_out_of_range : Outcome
  written : File → Outcome

-- `data + offset` for a call that reads at most n bytes.
abbrev pub slice : (ℕ → ℕ) → ℕ → ℕ → ℕ → ℕ
slice bytes offset n i = if ltb i n then bytes (offset + i) else 0

module _ (reconstruct : Payload → Option Csm) where
  unfoldable pub decompress_block : (ℕ → ℕ) → ℕ → Option Csm
  unfolding deserialize_block new_payload
  decompress_block bytes b = do
    p ←
        deserialize_block (slice bytes (header_bytes + b * payload_bytes) payload_bytes)
          payload_bytes new_payload
    reconstruct p

  -- The n blocks from b on; each one's bytes are put behind the last.
  unfoldable pub decompress_blocks : (ℕ → ℕ) → ℕ → ℕ → (ℕ → ℕ) → Option (ℕ → ℕ)
  unfolding decompress_block copy vec
  decompress_blocks bytes b zero out = some out
  decompress_blocks bytes b (suc n) out = do
    m ← decompress_block bytes b
    decompress_blocks bytes (b + 1) n (copy (vec m) vec_bytes (b * vec_bytes) out)

  -- The file after the header was read. The expected size is a uint64; the bytes behind the original
  -- size are cut off.
  unfoldable pub decompress_body : File → FileHeader → Outcome
  unfolding decompress_blocks
  decompress_body f h =
      if not (f.size == (header_bytes + h.block_count * payload_bytes % 2 ^ 64) % 2 ^ 64)
      then size_mismatch
      else elim (decompress_blocks f.bytes 0 h.block_count (λ i. 0)) [
        | none ↦ di_out_of_range
        | some out ↦
            let size = min (h.block_count * vec_bytes) h.original_file_size_bytes in
            written (record { size = size; bytes = slice out 0 size })
      ]

  unfoldable pub decompress : File → Outcome
  unfolding decompress_body deserialize
  decompress f = elim (deserialize f.bytes f.size) [
    | header h ↦ decompress_body f h
    | _ ↦ header_invalid
  ]
