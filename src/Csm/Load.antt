-- ===== src/Csm/Load.antt =====
-- Loading bytes into the matrix and writing them out again.
use crsce.Prelude.{
  ℕ, zero, suc, ◌+◌, ◌-◌, ◌*◌, ◌/◌, ◌%◌, ◌≤◌, ◌<◌, ◌≡◌, refl, ap, ◌∙◌, arith, ltb, ◌==◌,
  if◌then◌else◌,
}
use native.Mathlib.Decide.{dec_lt}
use crsce.Bits.{get_bit-le, get_bit-set_bit, get_bit-zero_word}
use crsce.Lines.{s}
use crsce.Csm.{Csm, cell, put_bit, vec_row, vec_rows, vec}
use crsce.Payload.{bit_at}
use crsce.Payload.Bitstream.{Clear}

cell-le : (m : Csm) (r c : ℕ) → cell m r c ≤ 1
unfolding cell
cell-le m r c = get_bit-le (m.rows r (c / 64)) (63 - c % 64)

bit_at-put_bit :
    (out : ℕ → ℕ) (b v j : ℕ)
    → v ≤ 1
    → bit_at out b ≡ 0
    → bit_at (put_bit out b v) j ≡ (if b == j then v else bit_at out j)
unfolding put_bit bit_at
bit_at-put_bit out b v j h clear =
    ground (arith, clear, get_bit-set_bit (out (b / 8)) (7 - b % 8) (7 - j % 8))

module _ (m : Csm) where
  vec_row-offset : (r c n : ℕ) (at : (ℕ → ℕ) × ℕ) → (vec_row m r c n at).1 ≡ at.1 + n
  unfolding vec_row
  vec_row-offset r c zero at = omega arith
  vec_row-offset r c (suc n) at =
      omega (arith, vec_row-offset r (c + 1) n (put_bit at.0 at.1 (cell m r c), at.1 + 1))

  put-Clear :
      (r c : ℕ) (at : (ℕ → ℕ) × ℕ)
      → Clear at.0 at.1
      → Clear (put_bit at.0 at.1 (cell m r c)) (at.1 + 1)
  put-Clear r c at clear j h =
      bit_at-put_bit at.0 at.1 (cell m r c) j (cell-le m r c) (clear at.1 (omega arith))
      ∙ ground (arith, clear j)

  vec_row-Clear :
      (r c n : ℕ) (at : (ℕ → ℕ) × ℕ)
      → Clear at.0 at.1
      → Clear (vec_row m r c n at).0 (vec_row m r c n at).1
  unfolding vec_row
  vec_row-Clear r c zero at clear = clear
  vec_row-Clear r c (suc n) at clear =
      vec_row-Clear r (c + 1) n (put_bit at.0 at.1 (cell m r c), at.1 + 1) (put-Clear r c at clear)

  vec_row_before :
      (r c n : ℕ) (at : (ℕ → ℕ) × ℕ) (j : ℕ)
      → Clear at.0 at.1
      → j < at.1
      → bit_at (vec_row m r c n at).0 j ≡ bit_at at.0 j
  unfolding vec_row
  vec_row_before r c zero at j clear h = refl
  vec_row_before r c (suc n) at j clear h =
      vec_row_before r (c + 1) n (put_bit at.0 at.1 (cell m r c), at.1 + 1) j
        (put-Clear r c at clear) (omega arith)
      ∙ bit_at-put_bit at.0 at.1 (cell m r c) j (cell-le m r c) (clear at.1 (omega arith))
      ∙ ground arith

  vec_row_at :
      (r c n : ℕ) (at : (ℕ → ℕ) × ℕ) (k : ℕ)
      → Clear at.0 at.1
      → k < n
      → bit_at (vec_row m r c n at).0 (at.1 + k) ≡ cell m r (c + k)
  unfolding vec_row
  vec_row_at r c zero at k clear h = absurd (omega arith)
  vec_row_at r c (suc n) at zero clear h =
      vec_row_before r (c + 1) n (put_bit at.0 at.1 (cell m r c), at.1 + 1) (at.1 + 0)
        (put-Clear r c at clear) (omega arith)
      ∙ bit_at-put_bit at.0 at.1 (cell m r c) (at.1 + 0) (cell-le m r c) (clear at.1 (omega arith))
      ∙ ground arith
      ∙ ap (λ (i : ℕ). cell m r i) {x = c} {y = c + 0} (omega arith)
  vec_row_at r c (suc n) at (suc k) clear h =
      ap (λ (i : ℕ). bit_at (vec_row m r (c + 1) n (put_bit at.0 at.1 (cell m r c), at.1 + 1)).0 i)
        {x = at.1 + suc k} {y = at.1 + 1 + k} (omega arith)
      ∙ vec_row_at r (c + 1) n (put_bit at.0 at.1 (cell m r c), at.1 + 1) k (put-Clear r c at clear)
          (omega arith)
      ∙ ap (λ (i : ℕ). cell m r i) {x = c + 1 + k} {y = c + suc k} (omega arith)

  vec_rows_before :
      (r n : ℕ) (at : (ℕ → ℕ) × ℕ) (j : ℕ)
      → Clear at.0 at.1
      → j < at.1
      → bit_at (vec_rows m r n at).0 j ≡ bit_at at.0 j
  unfolding vec_rows
  vec_rows_before r zero at j clear h = refl
  vec_rows_before r (suc n) at j clear h =
      vec_rows_before (r + 1) n (vec_row m r 0 s at) j (vec_row-Clear r 0 127 at clear)
        (omega (arith, vec_row-offset r 0 127 at))
      ∙ vec_row_before r 0 127 at j clear h

  vec_rows_after :
      (r n : ℕ) (at : (ℕ → ℕ) × ℕ) (j : ℕ)
      → Clear at.0 at.1
      → at.1 + 127 * n ≤ j
      → bit_at (vec_rows m r n at).0 j ≡ 0
  unfolding vec_rows
  vec_rows_after r zero at j clear h = clear j (omega arith)
  vec_rows_after r (suc n) at j clear h =
      vec_rows_after (r + 1) n (vec_row m r 0 s at) j (vec_row-Clear r 0 127 at clear)
        (omega (arith, vec_row-offset r 0 127 at))

  vec_rows_at :
      (r n : ℕ) (at : (ℕ → ℕ) × ℕ) (q k : ℕ)
      → Clear at.0 at.1
      → q < n
      → k < s
      → bit_at (vec_rows m r n at).0 (at.1 + 127 * q + k) ≡ cell m (r + q) k
  unfolding vec_rows
  vec_rows_at r zero at q k clear hq hk = absurd (omega arith)
  vec_rows_at r (suc n) at zero k clear hq hk =
      vec_rows_before (r + 1) n (vec_row m r 0 s at) (at.1 + 127 * 0 + k)
        (vec_row-Clear r 0 127 at clear) (omega (arith, vec_row-offset r 0 127 at))
      ∙ ap (λ (i : ℕ). bit_at (vec_row m r 0 s at).0 i) {x = at.1 + 127 * 0 + k} {y = at.1 + k}
          (omega arith)
      ∙ vec_row_at r 0 127 at k clear hk
      ∙ ap (λ (i : ℕ). cell m i (0 + k)) {x = r} {y = r + 0} (omega arith)
      ∙ ap (λ (i : ℕ). cell m (r + 0) i) {x = 0 + k} {y = k} (omega arith)
  vec_rows_at r (suc n) at (suc q) k clear hq hk =
      ap (λ (i : ℕ). bit_at (vec_rows m (r + 1) n (vec_row m r 0 s at)).0 i)
        {x = at.1 + 127 * suc q + k} {y = (vec_row m r 0 s at).1 + 127 * q + k}
        (omega (arith, vec_row-offset r 0 127 at))
      ∙ vec_rows_at (r + 1) n (vec_row m r 0 s at) q k (vec_row-Clear r 0 127 at clear)
          (omega arith) hk
      ∙ ap (λ (i : ℕ). cell m i k) {x = r + 1 + q} {y = r + suc q} (omega arith)

  zero-Clear : Clear (λ i. 0) 0
  unfolding bit_at
  zero-Clear j h = get_bit-zero_word (7 - j % 8)

  -- The bytes that `vec` writes: the cells in row-major order, then clear bits.
  pub bit_at-vec :
      (i : ℕ) → bit_at (vec m) i ≡ (if ltb i 16129 then cell m (i / 127) (i % 127) else 0)
  unfolding vec
  bit_at-vec i = elim (dec_lt i 16129) [
    | yes h ↦
        ap (λ (j : ℕ). bit_at (vec_rows m 0 s (λ i. 0, 0)).0 j) {x = i}
          {y = 0 + 127 * (i / 127) + i % 127} (omega arith)
        ∙ vec_rows_at 0 127 (λ i. 0, 0) (i / 127) (i % 127) zero-Clear (omega arith) (omega arith)
        ∙ ap (λ (j : ℕ). cell m j (i % 127)) {x = 0 + i / 127} {y = i / 127} (omega arith)
        ∙ ground arith
    | no h ↦ vec_rows_after 0 127 (λ i. 0, 0) i zero-Clear (omega arith) ∙ ground arith
  ]
