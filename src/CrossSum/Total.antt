-- ===== src/CrossSum/Total.antt =====
-- The accumulated sums count, on every line, the cells of the matrix that are one; so the matrix
-- solves the store that is built from its sums.
use crsce.Prelude.{
  ℕ, zero, suc, ◌+◌, ◌-◌, ◌/◌, ◌%◌, ◌≤◌, ◌<◌, ◌≡◌, refl, sym, ap, ◌∙◌, arith, not, Bool, List, [],
  ◌∷◌, map, range, ltb, ◌==◌, if◌then◌else◌, to_bit, count, get_or, All, length,
}
use crsce.Bits.{get_bit-le}
use crsce.Lines.{
  Ltp, IsLtp, s, basic_lines, total_lines, line_indices, members, Cell, line_len, diag_len,
}
use crsce.Lines.Flat.{line_index-flat_index_to_line_id}
use crsce.Lines.Extent.{length-cells_on_line}
use crsce.Csm.{Csm, cell}
use crsce.Payload.{Payload}
use crsce.Store.{new_store}
use crsce.Store.Consistent.{line_cells, line_cells-InMatrix, count_lines}
use crsce.Propagation.Judge.{Matrix, sum_on, IsSolution}
use crsce.CrossSum.{
  CrossSums, no_sums, add_sum, add_ltp, add_cell, add_row, add_rows, compute_cross_sums,
  fill_payload, store_of_payload,
}
use crsce.CrossSum.Grid.{row_total, grid_total, hits, grid_total-hits}

-- The sum of line i of the flat numbering.
unfoldable pub line_sum : CrossSums → ℕ → ℕ
line_sum x i =
    if ltb i 127
    then x.row_sums i
    else if ltb i 254
    then x.col_sums (i - 127)
    else if ltb i 507
    then x.diag_sums (i - 254)
    else if ltb i 760
    then x.anti_diag_sums (i - 507)
    else if ltb i 887
    then x.ltp1_sums (i - 760)
    else x.ltp2_sums (i - 887)

-- No sum has passed 16 bits.
abbrev Words : CrossSums → Type 0
Words x = (i : ℕ) → i < total_lines → line_sum x i < 65536

add_one_ltp :
    (f : ℕ) (x : CrossSums) (i : ℕ)
    → basic_lines ≤ f
    → f < total_lines
    → i < total_lines
    → line_sum x i < 65536
    → line_sum (add_ltp (f ∷ []) x) i ≡ (line_sum x i + to_bit (f == i)) % 65536
unfolding add_ltp add_sum line_sum
add_one_ltp f x i lo hi h small = ground arith

add_ltp-line_sum :
    (fs : List ℕ) (x : CrossSums) (i : ℕ)
    → All (λ f. (basic_lines ≤ f) × (f < total_lines)) fs
    → i < total_lines
    → line_sum x i < 65536
    → line_sum (add_ltp fs x) i ≡ (line_sum x i + count i fs) % 65536
unfolding add_ltp
add_ltp-line_sum [] x i a h small = omega arith
add_ltp-line_sum (f ∷ fs) x i a h small =
    let one = add_one_ltp f x i a.0.0 a.0.1 h small in
    omega (arith, one, add_ltp-line_sum fs (add_ltp (f ∷ []) x) i a.1 h (omega arith))

cell-le : (m : Csm) (r c : ℕ) → cell m r c ≤ 1
unfolding cell
cell-le m r c = get_bit-le (m.rows r (c / 64)) (63 - c % 64)

-- The four sums of a cell of value v, before its LTP lines.
basics : ℕ → ℕ → ℕ → CrossSums → CrossSums
basics r c v x = record x {
  row_sums = add_sum x.row_sums r v;
  col_sums = add_sum x.col_sums c v;
  diag_sums = add_sum x.diag_sums (c + 126 - r) v;
  anti_diag_sums = add_sum x.anti_diag_sums (r + c) v;
}

add_sum_at :
    (sums : ℕ → ℕ) (k v j : ℕ)
    → sums j < 65536
    → add_sum sums k v j ≡ (sums j + (if k == j then v else 0)) % 65536
unfolding add_sum
add_sum_at sums k v j h = ground arith

basics-line_sum :
    (r c v : ℕ) (x : CrossSums) (i : ℕ)
    → r < s
    → c < s
    → i < total_lines
    → line_sum x i < 65536
    → line_sum (basics r c v x) i
      ≡ (line_sum x i
          + (if r == i then v else 0)
          + (if 127 + c == i then v else 0)
          + (if 254 + (c + 126 - r) == i then v else 0)
          + (if 507 + (r + c) == i then v else 0))
        % 65536
unfolding basics line_sum
basics-line_sum r c v x i hr hc h small = ground (
  arith,
  add_sum_at x.row_sums r v i,
  add_sum_at x.col_sums c v (i - 127),
  add_sum_at x.diag_sums (c + 126 - r) v (i - 254),
  add_sum_at x.anti_diag_sums (r + c) v (i - 507),
)

no_sums_line : (i : ℕ) → line_sum no_sums i ≡ 0
unfolding no_sums line_sum
no_sums_line i = ground arith

pub sum_on-le : (m : Matrix) (ps : List Cell) → sum_on m ps ≤ length ps
unfolding sum_on
sum_on-le m [] = omega arith
sum_on-le m (p ∷ ps) = ground (arith, sum_on-le m ps)

line_cells-short : (t : Ltp) → IsLtp t → (i : ℕ) → i < total_lines → length (line_cells t i) ≤ s
unfolding line_len diag_len
line_cells-short t ok i h =
    ground (arith, length-cells_on_line t ok _ (line_index-flat_index_to_line_id i h).0)

if_bit : (b : Bool) (v : ℕ) → v ≤ 1 → (if b then v else 0) ≡ (if not (v == 0) then to_bit b else 0)
if_bit b v h = ground arith

get_or-map : (f : ℕ → ℕ) (lo n k : ℕ) → k < n → get_or (map f (range lo n)) k 0 ≡ f (lo + k)
unfolding range
get_or-map f lo zero k h = absurd (omega arith)
get_or-map f lo (suc n) zero h = ap f {x = lo} {y = lo + 0} (omega arith)
get_or-map f lo (suc n) (suc k) h =
    get_or-map f (lo + 1) n k (omega arith) ∙ ap f {x = lo + 1 + k} {y = lo + suc k} (omega arith)

-- The sum of line i in a payload.
unfoldable pub payload_sum : Payload → ℕ → ℕ
payload_sum p i =
    line_sum
      (record {
        row_sums = p.lsm;
        col_sums = p.vsm;
        diag_sums = p.dsm;
        anti_diag_sums = p.xsm;
        ltp1_sums = p.ltp1sm;
        ltp2_sums = p.ltp2sm;
      })
      i

pub fill_payload_lem :
    (x : CrossSums) (p : Payload) (i : ℕ)
    → i < total_lines
    → payload_sum (fill_payload x p) i ≡ line_sum x i
unfolding payload_sum fill_payload line_sum
fill_payload_lem x p i h = ground arith

pub target_right :
    (p : Payload) (i : ℕ)
    → i < total_lines
    → ((store_of_payload p).stats i).target ≡ payload_sum p i
unfolding store_of_payload new_store payload_sum line_sum
target_right p i h = ground (
  arith,
  get_or-map p.lsm 0 127 i,
  get_or-map p.vsm 0 127 (i - 127),
  get_or-map p.dsm 0 253 (i - 254),
  get_or-map p.xsm 0 253 (i - 507),
  get_or-map p.ltp1sm 0 127 (i - 760),
  get_or-map p.ltp2sm 0 127 (i - 887),
)

-- The cells that are one.
abbrev pub matrix_of : Csm → Matrix
matrix_of m r c = not (cell m r c == 0)

module _ (t : Ltp) (ok : IsLtp t) (m : Csm) where
  -- What a cell adds to line i.
  abbrev adds : ℕ → ℕ → ℕ → ℕ
  adds i r c = if not (cell m r c == 0) then count i (line_indices t r c) else 0

  add_cell-line_sum :
      (r c : ℕ) (x : CrossSums) (i : ℕ)
      → r < s
      → c < s
      → i < total_lines
      → line_sum x i < 65536
      → line_sum (add_cell t m r c x) i ≡ (line_sum x i + adds i r c) % 65536
  unfolding add_cell basics line_indices
  add_cell-line_sum r c x i hr hc h small =
      let v = cell m r c in
      let le = cell-le m r c in
      let base = basics-line_sum r c v x i hr hc h small in
      let rest =
        add_ltp-line_sum (members (t.membership r c)) (basics r c v x) i
          (ok.members_range r c hr hc) h in
      ground (
        arith,
        base,
        rest,
        if_bit (r == i) v le,
        if_bit (127 + c == i) v le,
        if_bit (254 + (c + 126 - r) == i) v le,
        if_bit (507 + (r + c) == i) v le,
      )

  add_row-line_sum :
      (r c n : ℕ) (x : CrossSums) (i : ℕ)
      → r < s
      → c + n ≤ s
      → i < total_lines
      → line_sum x i < 65536
      → line_sum (add_row t m r c n x) i ≡ (line_sum x i + row_total (adds i r) c n) % 65536
  unfolding add_row row_total
  add_row-line_sum r c zero x i hr hc h small = omega arith
  add_row-line_sum r c (suc n) x i hr hc h small =
      let one = add_cell-line_sum r c x i hr (omega arith) h small in
      omega (
        arith,
        one,
        add_row-line_sum r (c + 1) n (add_cell t m r c x) i hr (omega arith) h (omega arith),
      )

  add_rows-line_sum :
      (r n : ℕ) (x : CrossSums) (i : ℕ)
      → r + n ≤ s
      → i < total_lines
      → line_sum x i < 65536
      → line_sum (add_rows t m r n x) i ≡ (line_sum x i + grid_total (adds i) r n) % 65536
  unfolding add_rows grid_total
  add_rows-line_sum r zero x i hr h small = omega arith
  add_rows-line_sum r (suc n) x i hr h small =
      let one = add_row-line_sum r 0 127 x i (omega arith) (omega arith) h small in
      omega (
        arith,
        one,
        add_rows-line_sum (r + 1) n (add_row t m r 0 s x) i (omega arith) h (omega arith),
      )

  row_same :
      (i r c n : ℕ)
      → i < total_lines
      → r < s
      → c + n ≤ s
      → row_total (adds i r) c n ≡ row_total (hits (matrix_of m) (line_cells t i) r) c n
  unfolding row_total
  row_same i r c zero h hr hc = refl
  row_same i r c (suc n) h hr hc = omega (
    arith,
    ap (λ (x : ℕ). if matrix_of m r c then x else 0) (count_lines t ok i r c h hr (omega arith)),
    row_same i r (c + 1) n h hr (omega arith),
  )

  grid_same :
      (i r n : ℕ)
      → i < total_lines
      → r + n ≤ s
      → grid_total (adds i) r n ≡ grid_total (hits (matrix_of m) (line_cells t i)) r n
  unfolding grid_total
  grid_same i r zero h hr = refl
  grid_same i r (suc n) h hr = omega (
    arith,
    row_same i r 0 127 h (omega arith) (omega arith),
    grid_same i (r + 1) n h (omega arith),
  )

  pub final_sum :
      (i : ℕ)
      → i < total_lines
      → line_sum (add_rows t m 0 s no_sums) i ≡ sum_on (matrix_of m) (line_cells t i)
  final_sum i h = omega (
    arith,
    no_sums_line i,
    add_rows-line_sum 0 127 no_sums i (omega arith) h (omega (arith, no_sums_line i)),
    grid_same i 0 127 h (omega arith),
    grid_total-hits (matrix_of m) (line_cells t i) (line_cells-InMatrix t ok i h),
    sum_on-le (matrix_of m) (line_cells t i),
    line_cells-short t ok i h,
  )

  -- The compressor's sums of a matrix, with the lookup table's laws: the matrix has every target sum
  -- of the store that the decompressor builds from them.
  pub cross_sums-IsSolution :
      (p : Payload) → IsSolution t (store_of_payload (compute_cross_sums t m p)) (matrix_of m)
  unfolding compute_cross_sums
  cross_sums-IsSolution p = record {
    sums = λ i h. sym (
        target_right (compute_cross_sums t m p) i h
        ∙ fill_payload_lem (add_rows t m 0 s no_sums) p i h
        ∙ final_sum i h);
  }
