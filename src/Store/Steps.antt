-- ===== src/Store/Steps.antt =====
-- `assign` on an unassigned cell and `unassign` on an assigned one keep the store consistent.
use crsce.Prelude.{ℕ, ◌-◌, ◌/◌, ◌%◌, ◌<◌, ◌≡◌, arith, true, false}
use crsce.Lines.{Ltp, IsLtp, s, total_lines}
use crsce.Store.{Store, unassigned, flat, is_unassigned, is_one, state_of, assign, unassign}
use crsce.Store.Tally.{tally-update, unknown_on, ones_on}
use crsce.Store.Words.{
  get_bit-set_word, get_bit-clear_word, set_word-lt, clear_word-lt, same_bit, same_assigned_bit,
}
use crsce.Store.Consistent.{
  Consistent, line_cells, line_cells-InMatrix, count_lines, count-le-unknown, assign-stats,
  unassign-stats,
}

module _ (t : Ltp) (ok : IsLtp t) (st : Store) (k : Consistent t st) (r c : ℕ) (hr : r < s)
    (hc : c < s) where
  assign-counts :
      (v : ℕ)
      → is_unassigned (st.cells (flat r c)) ≡ true
      → (i : ℕ) → i < total_lines
      → (((assign t st r c v).stats i).unknown
          ≡ unknown_on (assign t st r c v).cells (line_cells t i))
        × (((assign t st r c v).stats i).assigned
            ≡ ones_on (assign t st r c v).cells (line_cells t i))
  assign-counts v e i h =
      let inside = line_cells-InMatrix t ok i h in
      let unknowns =
        tally-update is_unassigned st.cells r c (state_of v) (line_cells t i) hr hc inside in
      let ones = tally-update is_one st.cells r c (state_of v) (line_cells t i) hr hc inside in
      rw (assign-stats t ok st k r c hr hc v e i h) (
        unfold assign in
        (ground (
          arith,
          unknowns,
          ones,
          count-le-unknown t ok st k r c hr hc e i h,
          count_lines t ok i r c h hr hc,
          k.unknown_right i h,
          k.assigned_right i h,
        )))

  -- `assign` on an unassigned cell keeps the store consistent.
  pub assign-Consistent :
      (v : ℕ) → is_unassigned (st.cells (flat r c)) ≡ true → Consistent t (assign t st r c v)
  unfolding assign
  assign-Consistent v e = record {
    unknown_right = λ i h. (assign-counts v e i h).0;
    assigned_right = λ i h. (assign-counts v e i h).1;
    row_bit = λ r' c' h. ground (
      arith,
      get_bit-set_word st.row_bits k.row_word r (c / 64) (63 - c % 64) (omega arith) r' (c' / 64)
          (63 - c' % 64),
      same_bit r c r' c' hc h,
      k.row_bit r' c' h,
    );
    assigned_bit = λ r' c' h. ground (
      arith,
      get_bit-set_word st.assigned k.assigned_word r (c / 64) (c % 64) (omega arith) r' (c' / 64)
          (c' % 64),
      same_assigned_bit r c r' c' hc h,
      k.assigned_bit r' c' h,
    );
    row_word = λ r' w. ground (
      arith,
      k.row_word r' w,
      set_word-lt st.row_bits k.row_word r (c / 64) (63 - c % 64) (omega arith) r' w,
    );
    assigned_word =
        λ r' w. set_word-lt st.assigned k.assigned_word r (c / 64) (c % 64) (omega arith) r' w;
  }

  unassign-counts :
      is_unassigned (st.cells (flat r c)) ≡ false
      → (i : ℕ) → i < total_lines
      → (((unassign t st r c).stats i).unknown
          ≡ unknown_on (unassign t st r c).cells (line_cells t i))
        × (((unassign t st r c).stats i).assigned
            ≡ ones_on (unassign t st r c).cells (line_cells t i))
  unassign-counts e i h =
      let inside = line_cells-InMatrix t ok i h in
      let unknowns =
        tally-update is_unassigned st.cells r c unassigned (line_cells t i) hr hc inside in
      let ones = tally-update is_one st.cells r c unassigned (line_cells t i) hr hc inside in
      rw (unassign-stats t ok st k r c hr hc e i h) (
        unfold unassign in
        (ground (
          arith,
          unknowns,
          ones,
          count_lines t ok i r c h hr hc,
          k.unknown_right i h,
          k.assigned_right i h,
        )))

  -- `unassign` on an assigned cell keeps the store consistent.
  pub unassign-Consistent :
      is_unassigned (st.cells (flat r c)) ≡ false → Consistent t (unassign t st r c)
  unfolding unassign
  unassign-Consistent e = record {
    unknown_right = λ i h. (unassign-counts e i h).0;
    assigned_right = λ i h. (unassign-counts e i h).1;
    row_bit = λ r' c' h. ground (
      arith,
      get_bit-clear_word st.row_bits k.row_word r (c / 64) (63 - c % 64) (omega arith) r' (c' / 64)
          (63 - c' % 64),
      same_bit r c r' c' hc h,
      k.row_bit r' c' h,
      k.row_bit r c hc,
    );
    assigned_bit = λ r' c' h. ground (
      arith,
      get_bit-clear_word st.assigned k.assigned_word r (c / 64) (c % 64) (omega arith) r' (c' / 64)
          (c' % 64),
      same_assigned_bit r c r' c' hc h,
      k.assigned_bit r' c' h,
    );
    row_word = λ r' w. ground (
      arith,
      k.row_word r' w,
      clear_word-lt st.row_bits k.row_word r (c / 64) (63 - c % 64) (omega arith) r' w,
    );
    assigned_word =
        λ r' w. clear_word-lt st.assigned k.assigned_word r (c / 64) (c % 64) (omega arith) r' w;
  }
