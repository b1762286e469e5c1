-- ===== src/Payload/Bytes.antt =====
-- The bytes before the bit stream: the row digests, the block hash and the DI byte.
use crsce.Prelude.{
  ℕ, zero, suc, ◌+◌, ◌-◌, ◌*◌, ◌/◌, ◌%◌, ◌≤◌, ◌<◌, ◌≡◌, refl, ap, ◌∙◌, ◌⊎◌, inl, inr, arith, update,
}
use crsce.Bits.{get_bit, get_bit-zero_word}
use crsce.Lines.{s}
use crsce.Payload.{Payload, bit_at, copy, copy_rows, read_rows, serialize_bytes}
use crsce.Payload.Bitstream.{Clear}

update_other : (f : ℕ → ℕ) (i v j : ℕ) → (i < j) ⊎ (j < i) → update f i v j ≡ f j
update_other f i v j h = ground arith

-- What a copy writes.
pub copy_within :
    (src : ℕ → ℕ) (n offset : ℕ) (buf : ℕ → ℕ) (i : ℕ)
    → offset ≤ i
    → i < offset + n
    → copy src n offset buf i ≡ src (i - offset)
unfolding copy
copy_within src n offset buf i h h' = ground arith

pub copy_outside :
    (src : ℕ → ℕ) (n offset : ℕ) (buf : ℕ → ℕ) (i : ℕ)
    → (i < offset) ⊎ (offset + n ≤ i)
    → copy src n offset buf i ≡ buf i
unfolding copy
copy_outside src n offset buf i h = ground arith

copy_rows_outside :
    (lh : ℕ → ℕ → ℕ) (r n offset : ℕ) (buf : ℕ → ℕ) (i : ℕ)
    → (i < offset) ⊎ (offset + 4 * n ≤ i)
    → copy_rows lh r n offset buf i ≡ buf i
unfolding copy_rows copy
copy_rows_outside lh r zero offset buf i h = refl
copy_rows_outside lh r (suc n) offset buf i h =
    copy_rows_outside lh (r + 1) n (offset + 4) (copy (lh r) 4 offset buf) i (ground arith)
    ∙ ground arith

copy_rows_at :
    (lh : ℕ → ℕ → ℕ) (r n offset : ℕ) (buf : ℕ → ℕ) (q j : ℕ)
    → q < n
    → j < 4
    → copy_rows lh r n offset buf (offset + 4 * q + j) ≡ lh (r + q) j
unfolding copy_rows copy
copy_rows_at lh r zero offset buf q j hq hj = absurd (omega arith)
copy_rows_at lh r (suc n) offset buf zero j hq hj =
    copy_rows_outside lh (r + 1) n (offset + 4) (copy (lh r) 4 offset buf) (offset + 4 * 0 + j)
      (inl (omega arith))
    ∙ ground arith
    ∙ ap (λ (i : ℕ). lh i (offset + 4 * 0 + j - offset)) {x = r} {y = r + 0} (omega arith)
    ∙ ap (λ (i : ℕ). lh (r + 0) i) {x = offset + 4 * 0 + j - offset} {y = j} (omega arith)
copy_rows_at lh r (suc n) offset buf (suc q) j hq hj =
    ap (λ (i : ℕ). copy_rows lh (r + 1) n (offset + 4) (copy (lh r) 4 offset buf) i)
      {x = offset + 4 * suc q + j} {y = offset + 4 + 4 * q + j} (omega arith)
    ∙ copy_rows_at lh (r + 1) n (offset + 4) (copy (lh r) 4 offset buf) q j (omega arith) hj
    ∙ ap (λ (i : ℕ). lh i j) {x = r + 1 + q} {y = r + suc q} (omega arith)

read_rows_outside :
    (bytes : ℕ → ℕ) (lh : ℕ → ℕ → ℕ) (r n offset i j : ℕ)
    → i < r
    → read_rows bytes lh r n offset i j ≡ lh i j
unfolding read_rows copy
read_rows_outside bytes lh r zero offset i j h = refl
read_rows_outside bytes lh r (suc n) offset i j h =
    read_rows_outside bytes (update lh r (copy (λ i. bytes (offset + i)) 4 0 (lh r))) (r + 1) n
      (offset + 4) i j (omega arith)
    ∙ ground arith

-- The digests that are read are the bytes in their order.
pub read_rows_at :
    (bytes : ℕ → ℕ) (lh : ℕ → ℕ → ℕ) (r n offset q j : ℕ)
    → q < n
    → j < 4
    → read_rows bytes lh r n offset (r + q) j ≡ bytes (offset + 4 * q + j)
unfolding read_rows copy
read_rows_at bytes lh r zero offset q j hq hj = absurd (omega arith)
read_rows_at bytes lh r (suc n) offset zero j hq hj =
    read_rows_outside bytes (update lh r (copy (λ i. bytes (offset + i)) 4 0 (lh r))) (r + 1) n
      (offset + 4) (r + 0) j (omega arith)
    ∙ ground arith
    ∙ ap (λ (i : ℕ). bytes i) {x = offset + (j - 0)} {y = offset + 4 * 0 + j} (omega arith)
read_rows_at bytes lh r (suc n) offset (suc q) j hq hj =
    let lh' = update lh r (copy (λ i. bytes (offset + i)) 4 0 (lh r)) in
    ap (λ (i : ℕ). read_rows bytes lh' (r + 1) n (offset + 4) i j) {x = r + suc q} {y = r + 1 + q}
      (omega arith)
    ∙ read_rows_at bytes lh' (r + 1) n (offset + 4) q j (omega arith) hj
    ∙ ap (λ (i : ℕ). bytes i) {x = offset + 4 + 4 * q + j} {y = offset + 4 * suc q + j}
        (omega arith)

module _ (p : Payload) where
  pub serialize_bytes-lh : (r j : ℕ) → r < s → j < 4 → serialize_bytes p (4 * r + j) ≡ p.lh r j
  unfolding serialize_bytes
  serialize_bytes-lh r j hr hj =
      update_other (copy p.bh 32 508 (copy_rows p.lh 0 s 0 (λ i. 0))) 540 p.di (4 * r + j)
        (inr (omega arith))
      ∙ copy_outside p.bh 32 508 (copy_rows p.lh 0 s 0 (λ i. 0)) (4 * r + j) (inl (omega arith))
      ∙ ap (λ (i : ℕ). copy_rows p.lh 0 127 0 (λ i. 0) i) {x = 4 * r + j} {y = 0 + 4 * r + j}
          (omega arith)
      ∙ copy_rows_at p.lh 0 127 0 (λ i. 0) r j hr hj
      ∙ ap (λ (i : ℕ). p.lh i j) {x = 0 + r} {y = r} (omega arith)

  pub serialize_bytes-bh : (j : ℕ) → j < 32 → serialize_bytes p (508 + j) ≡ p.bh j
  unfolding serialize_bytes
  serialize_bytes-bh j h =
      update_other (copy p.bh 32 508 (copy_rows p.lh 0 s 0 (λ i. 0))) 540 p.di (508 + j)
        (inr (omega arith))
      ∙ copy_within p.bh 32 508 (copy_rows p.lh 0 s 0 (λ i. 0)) (508 + j) (omega arith)
          (omega arith)
      ∙ ap (λ (i : ℕ). p.bh i) {x = 508 + j - 508} {y = j} (omega arith)

  pub serialize_bytes-di : serialize_bytes p 540 ≡ p.di
  unfolding serialize_bytes
  serialize_bytes-di = refl

  pub zero_after : (i : ℕ) → 541 ≤ i → serialize_bytes p i ≡ 0
  unfolding serialize_bytes
  zero_after i h =
      update_other (copy p.bh 32 508 (copy_rows p.lh 0 s 0 (λ i. 0))) 540 p.di i (inl (omega arith))
      ∙ copy_outside p.bh 32 508 (copy_rows p.lh 0 s 0 (λ i. 0)) i (inr (omega arith))
      ∙ copy_rows_outside p.lh 0 127 0 (λ i. 0) i (inr (omega arith))

  pub serialize_bytes-Clear : Clear (serialize_bytes p) (541 * 8)
  unfolding bit_at
  serialize_bytes-Clear j h =
      ap (λ (w : ℕ). get_bit w (7 - j % 8)) (zero_after (j / 8) (omega arith))
      ∙ get_bit-zero_word (7 - j % 8)
