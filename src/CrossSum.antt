-- ===== src/CrossSum.antt =====
-- The cross sums of a matrix: CrossSumVector::set with the four lineIndex functions
-- (src/common/CrossSum/*.cpp) and Compressor::computeCrossSums
-- (src/Compress/Compressor/Compressor_computeCrossSums.cpp). A vector is a function from its index.
pub mod Grid
pub mod Total
use crsce.Prelude.{
  ℕ, zero, suc, ◌+◌, ◌-◌, ◌*◌, ◌%◌, ltb, ◌==◌, if◌then◌else◌, update, List, [], ◌∷◌, map, range,
}
use crsce.Lines.{Ltp, s, num_diags, basic_lines, ltp2_base, members}
use crsce.Csm.{Csm, cell}
use crsce.Payload.{Payload}
use crsce.Store.{Store, new_store}

pub record CrossSums : Type 0 where
  pub row_sums : ℕ → ℕ
  pub col_sums : ℕ → ℕ
  pub diag_sums : ℕ → ℕ
  pub anti_diag_sums : ℕ → ℕ
  pub ltp1_sums : ℕ → ℕ
  pub ltp2_sums : ℕ → ℕ

unfoldable pub no_sums : CrossSums
no_sums = record {
  row_sums = λ k. 0;
  col_sums = λ k. 0;
  diag_sums = λ k. 0;
  anti_diag_sums = λ k. 0;
  ltp1_sums = λ k. 0;
  ltp2_sums = λ k. 0;
}

-- sums_[k] += v, in 16 bits
unfoldable pub add_sum : (ℕ → ℕ) → ℕ → ℕ → ℕ → ℕ
add_sum sums k v = update sums k ((sums k + v) % 65536)

-- The loop over the LTP lines of a cell that is one.
unfoldable pub add_ltp : List ℕ → CrossSums → CrossSums
unfolding add_sum
add_ltp [] x = x
add_ltp (f ∷ fs) x = add_ltp fs (
    if ltb f ltp2_base
    then record x { ltp1_sums = add_sum x.ltp1_sums ((f + 65536 - basic_lines) % 65536) 1 }
    else record x { ltp2_sums = add_sum x.ltp2_sums ((f + 65536 - ltp2_base) % 65536) 1 })

-- The loops that copy the sums into the payload's slots.
unfoldable pub fill_payload : CrossSums → Payload → Payload
fill_payload x p = record p {
  lsm = λ k. if ltb k s then x.row_sums k else p.lsm k;
  vsm = λ k. if ltb k s then x.col_sums k else p.vsm k;
  dsm = λ k. if ltb k num_diags then x.diag_sums k else p.dsm k;
  xsm = λ k. if ltb k num_diags then x.anti_diag_sums k else p.xsm k;
  ltp1sm = λ k. if ltb k s then x.ltp1_sums k else p.ltp1sm k;
  ltp2sm = λ k. if ltb k s then x.ltp2_sums k else p.ltp2sm k;
}

module _ (t : Ltp) (m : Csm) where
  unfoldable pub add_cell : ℕ → ℕ → CrossSums → CrossSums
  unfolding add_ltp add_sum cell
  add_cell r c x =
      let v = cell m r c in
      let x' : CrossSums = record x {
        row_sums = add_sum x.row_sums r v;
        col_sums = add_sum x.col_sums c v;
        diag_sums = add_sum x.diag_sums (c + 126 - r) v;
        anti_diag_sums = add_sum x.anti_diag_sums (r + c) v;
      } in
      if v == 0 then x' else add_ltp (members (t.membership r c)) x'

  unfoldable pub add_row : ℕ → ℕ → ℕ → CrossSums → CrossSums
  unfolding add_cell
  add_row r c zero x = x
  add_row r c (suc n) x = add_row r (c + 1) n (add_cell r c x)

  unfoldable pub add_rows : ℕ → ℕ → CrossSums → CrossSums
  unfolding add_row
  add_rows r zero x = x
  add_rows r (suc n) x = add_rows (r + 1) n (add_row r 0 s x)

  -- computeCrossSums
  unfoldable pub compute_cross_sums : Payload → Payload
  unfolding add_rows no_sums fill_payload
  compute_cross_sums p = fill_payload (add_rows 0 s no_sums) p

-- The store that reconstructBlock builds from a payload.
unfoldable pub store_of_payload : Payload → Store
unfolding new_store
store_of_payload p =
    new_store (map p.lsm (range 0 s)) (map p.vsm (range 0 s)) (map p.dsm (range 0 num_diags))
      (map p.xsm (range 0 num_diags)) (map p.ltp1sm (range 0 s)) (map p.ltp2sm (range 0 s))
