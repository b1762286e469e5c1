-- ===== src/RowHash/Verify.antt =====
-- The row verifier of the decompressor accepts exactly the rows with the compressor's checksum.
use crsce.Prelude.{
  ℕ, zero, suc, ◌+◌, ◌^◌, ◌<◌, ◌≡◌, ◌↔◌, refl, ap, ◌∙◌, arith, true, ◌&&◌, ltb, leb, if◌then◌else◌,
  some, update,
}
use crsce.Lines.{s}
use crsce.Csm.{Csm}
use crsce.Crc.{crc32_ieee}
use crsce.Payload.{Payload, payload_bytes, serialize_block, deserialize_block}
use crsce.Payload.RoundTrip.{Fits, SameBlock, deserialize_block-serialize_block}
use crsce.RowHash.{
  row_crc, digest_byte, lateral_hash, same_bytes, Verifier, new_verifier, set_expected, verify_row,
  compute_lh, expect_rows,
}

row_crc-lt : (row : ℕ → ℕ) → row_crc row < 2 ^ 32
unfolding row_crc crc32_ieee
row_crc-lt row = omega arith

-- The four bytes determine the checksum.
same_bytes-digest :
    (a b : ℕ)
    → a < 2 ^ 32
    → b < 2 ^ 32
    → (same_bytes (digest_byte a) (digest_byte b) 4 ≡ true) ↔ (a ≡ b)
unfolding same_bytes digest_byte
same_bytes-digest a b ha hb = (λ h. ground arith, λ h. ground arith)

compute_lh-row :
    (m : Csm) (r n : ℕ) (p : Payload) (i : ℕ)
    → (compute_lh m r n p).lh i
      ≡ (if leb r i && ltb i (r + n) then lateral_hash (m.rows i) else p.lh i)
unfolding compute_lh
compute_lh-row m r zero p i = ground arith
compute_lh-row m r (suc n) p i = ground (
  arith,
  compute_lh-row m (r + 1) n (record p { lh = update p.lh r (lateral_hash (m.rows r)) }) i,
  ap m.rows {x = i} {y = r},
)

expect_rows-row :
    (p : Payload) (r n : ℕ) (v : Verifier) (i j : ℕ)
    → j < 4
    → (expect_rows p r n v).expected i j
      ≡ (if leb r i && ltb i (r + n) then p.lh i j else v.expected i j)
unfolding expect_rows set_expected
expect_rows-row p r zero v i j h = ground arith
expect_rows-row p r (suc n) v i j h =
    ground (arith, expect_rows-row p (r + 1) n (set_expected r (p.lh r) v) i j h)

same_bytes-congr :
    (a b b' : ℕ → ℕ) (n : ℕ) → ((j : ℕ) → j < n → b j ≡ b' j) → same_bytes a b n ≡ same_bytes a b' n
unfolding same_bytes
same_bytes-congr a b b' zero h = refl
same_bytes-congr a b b' (suc n) h =
    ground (arith, h n (omega arith), same_bytes-congr a b b' n (λ j hj. h j (omega arith)))

verify_row-SameBlock :
    (m : Csm) (p p' : Payload)
    → SameBlock (compute_lh m 0 s p) p'
    → (r : ℕ) (row : ℕ → ℕ) → r < s
    → (verify_row (expect_rows p' 0 s new_verifier) r row ≡ true)
      ↔ (row_crc row ≡ row_crc (m.rows r))
unfolding verify_row
verify_row-SameBlock m p p' same r row h =
    let stored : (j : ℕ)
        → j < 4
        → (expect_rows p' 0 s new_verifier).expected r j ≡ lateral_hash (m.rows r) j =
      λ j hj.
        expect_rows-row p' 0 127 new_verifier r j hj
        ∙ ground (arith, same.same_lh r j h hj, ap (λ f. f j) (compute_lh-row m 0 127 p r)) in
    rw (same_bytes-congr (lateral_hash row) _ (lateral_hash (m.rows r)) 4 stored) (
      same_bytes-digest (row_crc row) (row_crc (m.rows r)) (row_crc-lt row) (row_crc-lt (m.rows r)))

-- If a payload is given the digests of a matrix, its sums are no larger than their lines, and it is
-- written as a block, then the block is read without an error into any payload, and the verifier that
-- is filled from what was read accepts a row of words, as row r of the matrix, exactly when the row
-- has the checksum of the matrix's row r.
pub verify_row-compute_lh :
    (m : Csm) (p q : Payload)
    → Fits (compute_lh m 0 s p)
    → (p' : Payload) × (deserialize_block (serialize_block (compute_lh m 0 s p)).0 payload_bytes q
        ≡ some p')
      × ((r : ℕ) (row : ℕ → ℕ)
          → r < s
          → (verify_row (expect_rows p' 0 s new_verifier) r row ≡ true)
            ↔ (row_crc row ≡ row_crc (m.rows r)))
verify_row-compute_lh m p q fits =
    let (p', read, same) = deserialize_block-serialize_block (compute_lh m 0 s p) q fits in
    (p', read, verify_row-SameBlock m p p' same)
