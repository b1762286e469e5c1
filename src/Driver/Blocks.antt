-- ===== src/Driver/Blocks.antt =====
-- The blocks that the compressor writes, and that the decompressor reads them back.
use mathlib.Core.Path.{subst}
use crsce.Prelude.{
  ℕ, zero, suc, ◌+◌, ◌-◌, ◌*◌, ◌≤◌, ◌<◌, min, ◌≡◌, refl, sym, ap, fun_ext, ◌∙◌, inl, arith, Option,
  none, some, lt→ltb, le→ltb, ◌>>=◌,
}
use native.Mathlib.Decide.{dec_lt}
use crsce.Lines.{Ltp, IsLtp, s}
use crsce.Csm.{Csm, load_csm, vec}
use crsce.Payload.{
  Payload, payload_bytes, new_payload, bit_at, copy, serialize_block, deserialize_block,
}
use crsce.Payload.RoundTrip.{
  Fits, SameBlock, serialize_block_beyond, deserialize_block-serialize_block,
}
use crsce.RowHash.{compute_lh}
use crsce.Payload.Bytes.{copy_within, copy_outside}
use crsce.Header.{header_bytes, serialize}
use crsce.Csm.RoundTrip.{vec-load_csm}
use crsce.Block.{computed-Fits}
use crsce.Driver.{
  File, copy_block_bits, file_bits, block_bits, payload_of, compress_block, compress_blocks,
  compress, count_blocks, slice, decompress_block,
}

pub some_injective : {A : Type 0} {a b : A} → some a ≡ some b → a ≡ b
some_injective h = cc

-- A chain that has a result has one at its first step.
pub >>=-eq-some :
    {A B : Type 0} (m : Option A) (f : A → Option B) {b : B}
    → (m >>= f) ≡ some b
    → (a : A) × (m ≡ some a) × (f a ≡ some b)
>>=-eq-some none f h = cc
>>=-eq-some (some a) f h = (a, refl, h)

-- The number of bits of block b in the file.
abbrev pub bits_of : File → ℕ → ℕ
bits_of f b = min (file_bits f.size - b * block_bits) block_bits

module _ (t : Ltp) (block_hash : Csm → ℕ → ℕ) (discover : Csm → Payload → Option ℕ) where
  -- The matrix and the index of disambiguation of a block that was compressed.
  pub record Packed (f : File) (b : ℕ) (block : ℕ → ℕ) : Type 0 where
    pub matrix : Csm
    pub di : ℕ
    pub loaded :
        load_csm (copy_block_bits f (b * block_bits) 0 (bits_of f b) (λ i. 0)) (bits_of f b)
        ≡ some matrix
    pub found : discover matrix (payload_of t block_hash matrix) ≡ some di
    pub same : block ≡ (serialize_block (record (payload_of t block_hash matrix) { di = di })).0

  compress_block-Packed :
      (f : File) (b : ℕ) (block : ℕ → ℕ)
      → compress_block t block_hash discover f b ≡ some block
      → Packed f b block
  unfolding compress_block
  compress_block-Packed f b block h =
      let (m, loaded, h1) =
        >>=-eq-some
          (load_csm (copy_block_bits f (b * block_bits) 0 (bits_of f b) (λ i. 0)) (bits_of f b)) _
          h in
      let (di, found, h2) = >>=-eq-some (discover m (payload_of t block_hash m)) _ h1 in
      record { matrix = m; di = di; loaded = loaded; found = found; same = sym (some_injective h2) }

  -- Block k stands in its place.
  pub record Placed (f : File) (out : ℕ → ℕ) (k : ℕ) : Type 0 where
    pub block : ℕ → ℕ
    pub packed : Packed f k block
    pub in_place :
        (i : ℕ) → i < payload_bytes → out (header_bytes + k * payload_bytes + i) ≡ block i

  pub compress_blocks-Placed :
      (f : File) (b n : ℕ) (out g : ℕ → ℕ)
      → compress_blocks t block_hash discover f b n out ≡ some g
      → ((i : ℕ) → i < header_bytes + b * payload_bytes → g i ≡ out i)
        × ((k : ℕ) → b ≤ k → k < b + n → Placed f g k)
  unfolding compress_blocks copy
  compress_blocks-Placed f b zero out g h =
      (λ i hi. ap (λ o. o i) (sym (some_injective h)), λ k lo hi. absurd (omega arith))
  compress_blocks-Placed f b (suc n) out g h =
      let (block, made, h1) = >>=-eq-some (compress_block t block_hash discover f b) _ h in
      let offset = header_bytes + b * payload_bytes in
      let (before, later) =
        compress_blocks-Placed f (b + 1) n (copy block payload_bytes offset out) g h1 in
      let here : Placed f g b = record {
        block = block;
        packed = compress_block-Packed f b block made;
        in_place = λ i hi.
            before (offset + i) (omega arith)
            ∙ copy_within block payload_bytes offset out (offset + i) (omega arith) (omega arith)
            ∙ ap block {x = offset + i - offset} {y = i} (omega arith);
      } in
      (
        λ i hi. before i (omega arith) ∙ copy_outside block payload_bytes offset out i (inl hi),
        λ k lo hi. elim (dec_lt b k) [
          | yes more ↦ later k (omega arith) (omega arith)
          | no last ↦ subst (Placed f g) (omega arith) here
        ],
      )

  -- If the search of compression always finds an index, then compression succeeds.
  compress_blocks_total :
      (f : File) (b n : ℕ) (out : ℕ → ℕ)
      → ((m : Csm) (p : Payload) → (di : ℕ) × (discover m p ≡ some di))
      → (g : ℕ → ℕ) × (compress_blocks t block_hash discover f b n out ≡ some g)
  unfolding compress_blocks compress_block
  compress_blocks_total f b zero out found = (out, refl)
  compress_blocks_total f b (suc n) out found =
      let (m, loaded, bits) =
        vec-load_csm (copy_block_bits f (b * block_bits) 0 (bits_of f b) (λ i. 0)) (bits_of f b)
          (omega arith) in
      let (di, e) = found m (payload_of t block_hash m) in
      let block = (serialize_block (record (payload_of t block_hash m) { di = di })).0 in
      let (g, run) =
        compress_blocks_total f (b + 1) n
          (copy block payload_bytes (header_bytes + b * payload_bytes) out) found in
      (
        g,
        ap
              (λ x.
                x
                >>= (λ m. discover m (payload_of t block_hash m) >>= (λ di.
                    some (serialize_block (record (payload_of t block_hash m) { di = di })).0))
                >>= (λ block.
                    compress_blocks t block_hash discover f (b + 1) n
                      (copy block payload_bytes (header_bytes + b * payload_bytes) out)))
              loaded
            ∙ ap
                (λ x.
                  x
                  >>= (λ di.
                      some (serialize_block (record (payload_of t block_hash m) { di = di })).0)
                  >>= (λ block.
                      compress_blocks t block_hash discover f (b + 1) n
                        (copy block payload_bytes (header_bytes + b * payload_bytes) out)))
                e
            ∙ run,
      )

  pub compress_total :
      (f : File)
      → ((m : Csm) (p : Payload) → (di : ℕ) × (discover m p ≡ some di))
      → (g : File) × (compress t block_hash discover f ≡ some g)
  unfolding compress
  compress_total f found =
      let n = count_blocks f.size in
      let head = serialize (record { original_file_size_bytes = f.size; block_count = n }) in
      let (out, run) = compress_blocks_total f 0 n (copy head header_bytes 0 (λ i. 0)) found in
      (
        record { size = header_bytes + n * payload_bytes; bytes = out },
        ap
            (λ x.
              x >>= (λ out. some (record { size = header_bytes + n * payload_bytes; bytes = out })))
            run,
      )

compute_lh-Fits : (m : Csm) (r n : ℕ) (p : Payload) → Fits p → Fits (compute_lh m r n p)
unfolding compute_lh
compute_lh-Fits m r zero p fits = fits
compute_lh-Fits m r (suc n) p fits = compute_lh-Fits m (r + 1) n _ (record {
  lsm_fits = fits.lsm_fits;
  vsm_fits = fits.vsm_fits;
  dsm_fits = fits.dsm_fits;
  xsm_fits = fits.xsm_fits;
  ltp1sm_fits = fits.ltp1sm_fits;
  ltp2sm_fits = fits.ltp2sm_fits;
})

module _ (t : Ltp) (ok : IsLtp t) (block_hash : Csm → ℕ → ℕ) where
  packed-Fits : (m : Csm) (di : ℕ) → Fits (record (payload_of t block_hash m) { di = di })
  unfolding payload_of
  packed-Fits m di =
      let fits = compute_lh-Fits m 0 s _ (computed-Fits t ok m new_payload) in
      record {
        lsm_fits = fits.lsm_fits;
        vsm_fits = fits.vsm_fits;
        dsm_fits = fits.dsm_fits;
        xsm_fits = fits.xsm_fits;
        ltp1sm_fits = fits.ltp1sm_fits;
        ltp2sm_fits = fits.ltp2sm_fits;
      }

  module _ (discover : Csm → Payload → Option ℕ) (reconstruct : Payload → Option Csm) where
    -- The search of the decompressor finds the bits of the matrix again whose index the compressor
    -- found.
    abbrev pub Inverts : Type 0
    Inverts =
        (m : Csm) (di : ℕ) (p' : Payload)
        → discover m (payload_of t block_hash m) ≡ some di
        → SameBlock (record (payload_of t block_hash m) { di = di }) p'
        → (m' : Csm) × (reconstruct p' ≡ some m') × ((j : ℕ) → bit_at (vec m') j ≡ bit_at (vec m) j)

    pub decompress_block-Placed :
        Inverts
        → (f : File) (g : ℕ → ℕ) (k : ℕ) (placed : Placed t block_hash discover f g k)
        → (m' : Csm) × (decompress_block reconstruct g k ≡ some m')
          × ((j : ℕ) → bit_at (vec m') j ≡ bit_at (vec placed.packed.matrix) j)
    unfolding decompress_block
    decompress_block-Placed inverts f g k placed =
        let p = record (payload_of t block_hash placed.packed.matrix) { di = placed.packed.di } in
        let (p', read, same) =
          deserialize_block-serialize_block p new_payload
            (packed-Fits placed.packed.matrix placed.packed.di) in
        let cut : slice g (header_bytes + k * payload_bytes) payload_bytes ≡ (serialize_block p).0 =
          fun_ext (λ i. elim (dec_lt i payload_bytes) [
            | yes h ↦
                rw (lt→ltb i payload_bytes h)
                  (placed.in_place i h ∙ ap (λ block. block i) placed.packed.same)
            | no h ↦
                rw (le→ltb i payload_bytes (omega arith))
                  (sym (serialize_block_beyond p i (omega arith)))
          ]) in
        let (m', found, bits) =
          inverts placed.packed.matrix placed.packed.di p' placed.packed.found same in
        (
          m',
          ap (λ bytes. deserialize_block bytes payload_bytes new_payload >>= reconstruct) cut
              ∙ ap (λ x. x >>= reconstruct) read
              ∙ found,
          bits,
        )
