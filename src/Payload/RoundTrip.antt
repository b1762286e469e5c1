-- ===== src/Payload/RoundTrip.antt =====
-- `deserializeBlock` reads back what `serializeBlock` writes, and the block is full.
use crsce.Prelude.{ℕ, ◌+◌, ◌-◌, ◌*◌, ◌/◌, ◌^◌, ◌≤◌, ◌<◌, ◌≡◌, refl, sym, ap, ◌∙◌, arith, some}
use crsce.Lines.{s, num_diags, diag_len}
use crsce.Payload.{
  Payload, payload_bytes, bit_at, pack_sums, unpack_sums, full_bits, diag_bits, bit_width,
  width_loop, serialize_bytes, serialize_block, read_block, deserialize_block, copy,
}
use crsce.Payload.Bitstream.{Clear}
use crsce.Payload.Sections.{
  ends, ends_le, pack_sums-offset, pack_sums_before, pack_sums_byte, pack_sums-Clear,
  pack_sums-Holds, pack_sums_beyond, Holds-same, unpack_sums-Holds,
}
use crsce.Payload.Bytes.{
  copy_within, read_rows_at, serialize_bytes-lh, serialize_bytes-bh, serialize_bytes-di,
  serialize_bytes-Clear, zero_after,
}
use crsce.Payload.Widths.{full_bits-le, full_bits_fit, diag_bits-le, diag_bits_fit}

-- Every sum is at most the length of its line.
pub record Fits (p : Payload) : Type 0 where
  pub lsm_fits : (k : ℕ) → k < s → p.lsm k ≤ s
  pub vsm_fits : (k : ℕ) → k < s → p.vsm k ≤ s
  pub dsm_fits : (k : ℕ) → k < num_diags → p.dsm k ≤ diag_len k
  pub xsm_fits : (k : ℕ) → k < num_diags → p.xsm k ≤ diag_len k
  pub ltp1sm_fits : (k : ℕ) → k < s → p.ltp1sm k ≤ s
  pub ltp2sm_fits : (k : ℕ) → k < s → p.ltp2sm k ≤ s

-- Two payloads agree on every slot of a block.
pub record SameBlock (p q : Payload) : Type 0 where
  pub same_lh : (r j : ℕ) → r < s → j < 4 → q.lh r j ≡ p.lh r j
  pub same_bh : (j : ℕ) → j < 32 → q.bh j ≡ p.bh j
  pub same_di : q.di ≡ p.di
  pub same_lsm : (k : ℕ) → k < s → q.lsm k ≡ p.lsm k
  pub same_vsm : (k : ℕ) → k < s → q.vsm k ≡ p.vsm k
  pub same_dsm : (k : ℕ) → k < num_diags → q.dsm k ≡ p.dsm k
  pub same_xsm : (k : ℕ) → k < num_diags → q.xsm k ≡ p.xsm k
  pub same_ltp1sm : (k : ℕ) → k < s → q.ltp1sm k ≡ p.ltp1sm k
  pub same_ltp2sm : (k : ℕ) → k < s → q.ltp2sm k ≡ p.ltp2sm k

-- The finished stream has the bits and the whole bytes that a stage has written.
Kept : (ℕ → ℕ) → (ℕ → ℕ) × ℕ → Type 0
Kept final at =
    ((j : ℕ) → j < at.1 → bit_at final j ≡ bit_at at.0 j)
    × ((i : ℕ) → i < at.1 / 8 → final i ≡ at.0 i)

module _ (width sums : ℕ → ℕ) (final : ℕ → ℕ) (at : (ℕ → ℕ) × ℕ) (n : ℕ) where
  later : at.1 ≤ (pack_sums width sums at 0 n).1
  later = omega (arith, pack_sums-offset width sums at 0 n, ends_le width at.1 0 n)

  Kept-before : Kept final (pack_sums width sums at 0 n) → Kept final at
  unfolding Kept
  Kept-before h = (
    λ j hj. h.0 j (omega (arith, later)) ∙ pack_sums_before width sums at 0 n j hj,
    λ i hi. h.1 i (omega (arith, later)) ∙ pack_sums_byte width sums at 0 n i hi,
  )

  -- Reading one section where it was written.
  read_section :
      (dst : ℕ → ℕ) (offset : ℕ)
      → ((i : ℕ) → width i ≤ 16)
      → ((i : ℕ) → i < n → sums i < 2 ^ width i)
      → Clear at.0 at.1
      → Kept final (pack_sums width sums at 0 n)
      → offset ≡ at.1
      → ((unpack_sums width final (dst, offset) 0 n).1 ≡ (pack_sums width sums at 0 n).1)
        × ((k : ℕ) → k < n → (unpack_sums width final (dst, offset) 0 n).0 k ≡ sums k)
  unfolding Kept
  read_section dst offset short small clear kept start =
      let e = pack_sums-offset width sums at 0 n in
      let held =
        Holds-same width sums (pack_sums width sums at 0 n).0 final at.1 0 n
          (λ j h. kept.0 j (omega arith)) (pack_sums-Holds width sums at 0 n clear) in
      let (stop, values) =
        unpack_sums-Holds width sums final dst at.1 0 n short (λ i a b. small i (omega arith))
          held in
      rw start (rw e stop, λ k h. values k ∙ ground arith)

-- 508 + 32 + 1 bytes, then 4 * 127 sums of 7 bits and 2 * 253 sums of 1 to 7 bits.
total_bits :
    ends full_bits
      (ends full_bits
        (ends diag_bits
          (ends diag_bits (ends full_bits (ends full_bits (541 * 8) 0 s) 0 s) 0 num_diags)
          0
          num_diags)
        0
        s)
      0
      s
    ≡ 8 * payload_bytes - 6
unfolding full_bits diag_bits bit_width width_loop diag_len
total_bits = refl

-- The six sections of a block, with the buffer and the offset after each.
module _ (p : Payload) where
  abbrev start : (ℕ → ℕ) × ℕ
  start = (serialize_bytes p, 541 * 8)

  abbrev after_lsm : (ℕ → ℕ) × ℕ
  after_lsm = pack_sums full_bits p.lsm start 0 s

  abbrev after_vsm : (ℕ → ℕ) × ℕ
  after_vsm = pack_sums full_bits p.vsm after_lsm 0 s

  abbrev after_dsm : (ℕ → ℕ) × ℕ
  after_dsm = pack_sums diag_bits p.dsm after_vsm 0 num_diags

  abbrev after_xsm : (ℕ → ℕ) × ℕ
  after_xsm = pack_sums diag_bits p.xsm after_dsm 0 num_diags

  abbrev after_ltp1sm : (ℕ → ℕ) × ℕ
  after_ltp1sm = pack_sums full_bits p.ltp1sm after_xsm 0 s

  abbrev after_ltp2sm : (ℕ → ℕ) × ℕ
  after_ltp2sm = pack_sums full_bits p.ltp2sm after_ltp1sm 0 s

  serialize_block_stages : serialize_block p ≡ after_ltp2sm
  unfolding serialize_block
  serialize_block_stages = refl

  -- The bits are clear from the end of every section on.
  record Clears : Type 0 where
    c0 : Clear start.0 start.1
    c1 : Clear after_lsm.0 after_lsm.1
    c2 : Clear after_vsm.0 after_vsm.1
    c3 : Clear after_dsm.0 after_dsm.1
    c4 : Clear after_xsm.0 after_xsm.1
    c5 : Clear after_ltp1sm.0 after_ltp1sm.1
    c6 : Clear after_ltp2sm.0 after_ltp2sm.1

  clears : Clears
  clears =
      let c0 = serialize_bytes-Clear p in
      let c1 = pack_sums-Clear full_bits p.lsm start 0 s c0 in
      let c2 = pack_sums-Clear full_bits p.vsm after_lsm 0 s c1 in
      let c3 = pack_sums-Clear diag_bits p.dsm after_vsm 0 num_diags c2 in
      let c4 = pack_sums-Clear diag_bits p.xsm after_dsm 0 num_diags c3 in
      let c5 = pack_sums-Clear full_bits p.ltp1sm after_xsm 0 s c4 in
      let c6 = pack_sums-Clear full_bits p.ltp2sm after_ltp1sm 0 s c5 in
      record { c0 = c0; c1 = c1; c2 = c2; c3 = c3; c4 = c4; c5 = c5; c6 = c6 }

  end_offset : (serialize_block p).1 ≡ 8 * payload_bytes - 6
  end_offset = rw serialize_block_stages (
      pack_sums-offset full_bits p.ltp2sm after_ltp1sm 0 s
      ∙ ap (λ (o : ℕ). ends full_bits o 0 s)
          (pack_sums-offset full_bits p.ltp1sm after_xsm 0 s
            ∙ ap (λ (o : ℕ). ends full_bits o 0 s)
                (pack_sums-offset diag_bits p.xsm after_dsm 0 num_diags
                  ∙ ap (λ (o : ℕ). ends diag_bits o 0 num_diags)
                      (pack_sums-offset diag_bits p.dsm after_vsm 0 num_diags
                        ∙ ap (λ (o : ℕ). ends diag_bits o 0 num_diags)
                            (pack_sums-offset full_bits p.vsm after_lsm 0 s
                              ∙ ap (λ (o : ℕ). ends full_bits o 0 s)
                                  (pack_sums-offset full_bits p.lsm start 0 s)))))
      ∙ total_bits)

  -- The packed sums end 6 bits before the end of the block, and a bit from there on is clear.
  pub serialize_block-offset :
      (j : ℕ)
      → 8 * payload_bytes - 6 ≤ j
      → ((serialize_block p).1 ≡ 8 * payload_bytes - 6) × (bit_at (serialize_block p).0 j ≡ 0)
  serialize_block-offset j h =
      (end_offset, unfold serialize_block in (clears.c6 j (omega (arith, end_offset))))

  -- Nothing is written behind the block.
  pub serialize_block_beyond : (i : ℕ) → payload_bytes ≤ i → (serialize_block p).0 i ≡ 0
  serialize_block_beyond i h =
      let e : after_ltp2sm.1 ≡ 8 * payload_bytes - 6 =
        ap (λ q. q.1) (sym serialize_block_stages) ∙ end_offset in
      let l5 = later full_bits p.ltp2sm (λ i. 0) after_ltp1sm s in
      let l4 = later full_bits p.ltp1sm (λ i. 0) after_xsm s in
      let l3 = later diag_bits p.xsm (λ i. 0) after_dsm num_diags in
      let l2 = later diag_bits p.dsm (λ i. 0) after_vsm num_diags in
      let l1 = later full_bits p.vsm (λ i. 0) after_lsm s in
      rw serialize_block_stages (
        pack_sums_beyond full_bits p.ltp2sm after_ltp1sm 0 s i (omega (arith, e))
        ∙ pack_sums_beyond full_bits p.ltp1sm after_xsm 0 s i (omega (arith, e, l5))
        ∙ pack_sums_beyond diag_bits p.xsm after_dsm 0 num_diags i (omega (arith, e, l5, l4))
        ∙ pack_sums_beyond diag_bits p.dsm after_vsm 0 num_diags i (omega (arith, e, l5, l4, l3))
        ∙ pack_sums_beyond full_bits p.vsm after_lsm 0 s i (omega (arith, e, l5, l4, l3, l2))
        ∙ pack_sums_beyond full_bits p.lsm start 0 s i (omega (arith, e, l5, l4, l3, l2, l1))
        ∙ zero_after p i (omega arith))

  -- The finished buffer has what every stage has written.
  record Keeps : Type 0 where
    k0 : Kept (serialize_block p).0 start
    k1 : Kept (serialize_block p).0 after_lsm
    k2 : Kept (serialize_block p).0 after_vsm
    k3 : Kept (serialize_block p).0 after_dsm
    k4 : Kept (serialize_block p).0 after_xsm
    k5 : Kept (serialize_block p).0 after_ltp1sm
    k6 : Kept (serialize_block p).0 after_ltp2sm

  keeps : Keeps
  unfolding serialize_block Kept
  keeps =
      let final = after_ltp2sm.0 in
      let k6 : Kept final after_ltp2sm = (λ j h. refl, λ i h. refl) in
      let k5 = Kept-before full_bits p.ltp2sm final after_ltp1sm s k6 in
      let k4 = Kept-before full_bits p.ltp1sm final after_xsm s k5 in
      let k3 = Kept-before diag_bits p.xsm final after_dsm num_diags k4 in
      let k2 = Kept-before diag_bits p.dsm final after_vsm num_diags k3 in
      let k1 = Kept-before full_bits p.vsm final after_lsm s k2 in
      let k0 = Kept-before full_bits p.lsm final start s k1 in
      record { k0 = k0; k1 = k1; k2 = k2; k3 = k3; k4 = k4; k5 = k5; k6 = k6 }

  same_bytes : (q : Payload) (i : ℕ) → i < 541 → (serialize_block p).0 i ≡ serialize_bytes p i
  unfolding Kept
  same_bytes q i h = keeps.k0.1 i (omega arith)

  -- `deserializeBlock`, into any payload, reads back every slot of a block whose sums are no larger
  -- than their lines.
  pub deserialize_block-serialize_block :
      (q : Payload)
      → Fits p
      → (p' : Payload) × (deserialize_block (serialize_block p).0 payload_bytes q ≡ some p')
        × SameBlock p p'
  unfolding deserialize_block read_block copy
  deserialize_block-serialize_block q fits =
      let f = (serialize_block p).0 in
      let (o1, lsm) =
        read_section full_bits p.lsm f start s q.lsm (541 * 8) full_bits-le
          (λ i h. full_bits_fit i _ (fits.lsm_fits i h)) clears.c0 keeps.k1 refl in
      let (o2, vsm) =
        read_section full_bits p.vsm f after_lsm s q.vsm _ full_bits-le
          (λ i h. full_bits_fit i _ (fits.vsm_fits i h)) clears.c1 keeps.k2 o1 in
      let (o3, dsm) =
        read_section diag_bits p.dsm f after_vsm num_diags q.dsm _ diag_bits-le
          (λ i h. diag_bits_fit i _ (fits.dsm_fits i h)) clears.c2 keeps.k3 o2 in
      let (o4, xsm) =
        read_section diag_bits p.xsm f after_dsm num_diags q.xsm _ diag_bits-le
          (λ i h. diag_bits_fit i _ (fits.xsm_fits i h)) clears.c3 keeps.k4 o3 in
      let (o5, ltp1sm) =
        read_section full_bits p.ltp1sm f after_xsm s q.ltp1sm _ full_bits-le
          (λ i h. full_bits_fit i _ (fits.ltp1sm_fits i h)) clears.c4 keeps.k5 o4 in
      let (o6, ltp2sm) =
        read_section full_bits p.ltp2sm f after_ltp1sm s q.ltp2sm _ full_bits-le
          (λ i h. full_bits_fit i _ (fits.ltp2sm_fits i h)) clears.c5 keeps.k6 o5 in
      (
        read_block f q,
        refl,
        record {
          same_lh = λ r j hr hj. read_lh r j hr hj;
          same_bh = λ j h. read_bh j h;
          same_di = same_bytes q 540 (omega arith) ∙ serialize_bytes-di p;
          same_lsm = lsm;
          same_vsm = vsm;
          same_dsm = dsm;
          same_xsm = xsm;
          same_ltp1sm = ltp1sm;
          same_ltp2sm = ltp2sm;
        },
      )
    where
      read_lh : (r j : ℕ) → r < s → j < 4 → (read_block (serialize_block p).0 q).lh r j ≡ p.lh r j
      read_lh r j hr hj =
          ap (λ (i : ℕ). (read_block (serialize_block p).0 q).lh i j) {x = r} {y = 0 + r}
            (omega arith)
          ∙ read_rows_at (serialize_block p).0 q.lh 0 127 0 r j hr hj
          ∙ ap (λ (i : ℕ). (serialize_block p).0 i) {x = 0 + 4 * r + j} {y = 4 * r + j}
              (omega arith)
          ∙ same_bytes q (4 * r + j) (omega arith)
          ∙ serialize_bytes-lh p r j hr hj

      read_bh : (j : ℕ) → j < 32 → (read_block (serialize_block p).0 q).bh j ≡ p.bh j
      read_bh j h =
          copy_within (λ i. (serialize_block p).0 (508 + i)) 32 0 q.bh j (omega arith) h
          ∙ ap (λ (i : ℕ). (serialize_block p).0 (508 + i)) {x = j - 0} {y = j} (omega arith)
          ∙ same_bytes q (508 + j) (omega arith)
          ∙ serialize_bytes-bh p j h
