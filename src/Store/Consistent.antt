-- ===== src/Store/Consistent.antt =====
-- The invariant of the constraint store: the statistics count the cells of their lines, and both
-- packed copies show the cells. `assign` on an unassigned cell and `unassign` on an assigned one
-- keep it.
use crsce.Prelude.{
  ℕ, ◌+◌, ◌-◌, ◌/◌, ◌%◌, ◌^◌, ◌≤◌, ◌<◌, ◌≡◌, sym, ◌∙◌, arith, true, false, not, List, ◌==◌,
  if◌then◌else◌, to_bit, count, update, ap, All,
}
use crsce.Bits.{get_bit}
use crsce.Lines.{
  Ltp, IsLtp, LineId, s, total_lines, cells_on_line, flat_index_to_line_id, line_indices,
  count_cell, line_len, Cell, InMatrix,
}
use crsce.Lines.Flat.{line_index-flat_index_to_line_id}
use crsce.Lines.Extent.{length-cells_on_line, cells_on_line-InMatrix}
use crsce.Lines.Incidence.{count_cell-cells_on_line}
use crsce.Store.{
  CellState, unassigned, Store, flat, is_unassigned, is_one, for_lines, dec_unknown, inc_unknown,
  assign, unassign,
}
use crsce.Store.Tally.{unknown_on, ones_on, tally-update, tally-le-length, count_cell-le-unknown_on}
use crsce.Store.Stats.{
  for_lines-dec_unknown, for_lines-inc_unknown, for_lines-dec_assigned, for_lines-inc_assigned,
}

-- The cells of the line with flat number i.
abbrev pub line_cells : Ltp → ℕ → List Cell
line_cells t i = cells_on_line t (flat_index_to_line_id i)

pub record Consistent (t : Ltp) (st : Store) : Type 0 where
  pub unknown_right :
      (i : ℕ) → i < total_lines → (st.stats i).unknown ≡ unknown_on st.cells (line_cells t i)
  pub assigned_right :
      (i : ℕ) → i < total_lines → (st.stats i).assigned ≡ ones_on st.cells (line_cells t i)
  pub row_bit :
      (r c : ℕ)
      → c < s
      → get_bit (st.row_bits r (c / 64)) (63 - c % 64) ≡ to_bit (is_one (st.cells (flat r c)))
  pub assigned_bit :
      (r c : ℕ)
      → c < s
      → get_bit (st.assigned r (c / 64)) (c % 64)
        ≡ to_bit (not (is_unassigned (st.cells (flat r c))))
  pub row_word : (r w : ℕ) → st.row_bits r w < 2 ^ 64
  pub assigned_word : (r w : ℕ) → st.assigned r w < 2 ^ 64

line_len-le : (l : LineId) → line_len l ≤ s
unfolding line_len
line_len-le l = ground arith

module _ (t : Ltp) (ok : IsLtp t) where
  -- No count passes the 127 cells of a line.
  pub counts_small :
      (f : ℕ → CellState) (i : ℕ)
      → i < total_lines
      → unknown_on f (line_cells t i) + ones_on f (line_cells t i) ≤ s
  counts_small f i h =
      let l = flat_index_to_line_id i in
      omega (
        arith,
        tally-le-length f (cells_on_line t l),
        length-cells_on_line t ok l (line_index-flat_index_to_line_id i h).0,
        line_len-le l,
      )

  pub count_lines :
      (i r c : ℕ)
      → i < total_lines
      → r < s
      → c < s
      → count i (line_indices t r c) ≡ count_cell (r, c) (line_cells t i)
  count_lines i r c h hr hc =
      let (line, back) = line_index-flat_index_to_line_id i h in
      ap (λ (j : ℕ). count j (line_indices t r c)) (sym back)
      ∙ sym (count_cell-cells_on_line t ok (flat_index_to_line_id i) r c line hr hc)

  pub line_cells-InMatrix : (i : ℕ) → i < total_lines → All InMatrix (line_cells t i)
  line_cells-InMatrix i h = cells_on_line-InMatrix t ok _ (line_index-flat_index_to_line_id i h).0

  module _ (st : Store) (k : Consistent t st) (r c : ℕ) (hr : r < s) (hc : c < s) where
    -- On every line of the cell, at least as many cells are unassigned as the line passes it.
    pub count-le-unknown :
        is_unassigned (st.cells (flat r c)) ≡ true
        → (i : ℕ) → i < total_lines
        → count i (line_indices t r c) ≤ (st.stats i).unknown
    count-le-unknown e i h = omega (
      arith,
      count_lines i r c h hr hc,
      k.unknown_right i h,
      count_cell-le-unknown_on st.cells r c (line_cells t i) hr hc (line_cells-InMatrix i h) e,
    )

    -- The statistics of one line after the cell is assigned.
    pub assign-stats :
        (v : ℕ)
        → is_unassigned (st.cells (flat r c)) ≡ true
        → (i : ℕ) → i < total_lines
        → (assign t st r c v).stats i ≡ record {
          target = (st.stats i).target;
          unknown = (st.stats i).unknown - count i (line_indices t r c);
          assigned = (st.stats i).assigned + (if v == 0 then 0 else count i (line_indices t r c));
        }
    unfolding assign
    assign-stats v e i h =
        let lines = line_indices t r c in
        let small = counts_small st.cells i h in
        let enough = count-le-unknown e i h in
        ground (
          arith,
          small,
          enough,
          k.unknown_right i h,
          k.assigned_right i h,
          for_lines-dec_unknown lines st.stats i,
          for_lines-inc_assigned lines (for_lines dec_unknown lines st.stats) i,
        )

    pub unassign-stats :
        is_unassigned (st.cells (flat r c)) ≡ false
        → (i : ℕ) → i < total_lines
        → (unassign t st r c).stats i ≡ record {
          target = (st.stats i).target;
          unknown = (st.stats i).unknown + count i (line_indices t r c);
          assigned =
              (st.stats i).assigned
              - (if is_one (st.cells (flat r c)) then count i (line_indices t r c) else 0);
        }
    unfolding unassign
    unassign-stats e i h =
        let lines = line_indices t r c in
        let after = update st.cells (flat r c) unassigned in
        let inside = line_cells-InMatrix i h in
        ground (
          arith,
          counts_small st.cells i h,
          counts_small after i h,
          count_lines i r c h hr hc,
          tally-update is_unassigned st.cells r c unassigned (line_cells t i) hr hc inside,
          tally-update is_one st.cells r c unassigned (line_cells t i) hr hc inside,
          k.unknown_right i h,
          k.assigned_right i h,
          for_lines-inc_unknown lines st.stats i,
          for_lines-dec_assigned lines (for_lines inc_unknown lines st.stats) i,
        )
