-- ===== src/Lines/Incidence.antt =====
-- The walk over a line (forEachCellOnLine) and the list of a cell's lines (getLinesForCell) agree.
use crsce.Prelude.{
  ℕ, ◌+◌, ◌-◌, ◌%◌, min, ◌≤◌, ◌<◌, ◌≡◌, refl, sym, ◌∙◌, ◌⊎◌, inl, arith, List, [], ◌∷◌, count, All,
  ◌==◌, to_bit,
}
use crsce.Lines.{
  LineType, row, column, diagonal, anti_diagonal, ltp1, ltp2, LineId, s, basic_lines, total_lines,
  line_index, cells_on_line, line_indices, IsLine, Ltp, IsLtp, count_cell, members,
}
use crsce.Lines.Counts.{count_cell-row, count_cell-column, count_cell-walk, count_cell-walk_inside}

-- A number outside a range is not in a list of numbers of that range.
pub count_outside :
    (i lo hi : ℕ) (xs : List ℕ)
    → All (λ x. (lo ≤ x) × (x < hi)) xs
    → (i < lo) ⊎ (hi ≤ i)
    → count i xs ≡ 0
count_outside i lo hi [] a h = refl
count_outside i lo hi (x ∷ xs) a h = ground (arith, count_outside i lo hi xs a.1 h)

module _ (t : Ltp) (ok : IsLtp t) where
  outside : (i r c : ℕ) → r < s → c < s → i < basic_lines → count i (members (t.membership r c)) ≡ 0
  outside i r c hr hc h =
      count_outside i basic_lines total_lines _ (ok.members_range r c hr hc) (inl h)

  -- A cell stands as often on a line of the system as the line's number stands among the numbers of
  -- the cell's lines.
  pub count_cell-cells_on_line :
      (l : LineId) (r c : ℕ)
      → IsLine l
      → r < s
      → c < s
      → count_cell (r, c) (cells_on_line t l) ≡ count (line_index l) (line_indices t r c)
  unfolding cells_on_line line_index line_indices
  count_cell-cells_on_line l r c h hr hc = by_type l.type l.index h
    where
      by_type :
          (ty : LineType) (k : ℕ)
          → IsLine (record { type = ty; index = k })
          → count_cell (r, c) (cells_on_line t (record { type = ty; index = k }))
            ≡ count (line_index (record { type = ty; index = k })) (line_indices t r c)
      by_type row k h =
          ground (arith, outside k r c hr hc (omega arith), count_cell-row k r c 0 127)
      by_type column k h =
          ground (arith, outside (127 + k) r c hr hc (omega arith), count_cell-column k r c 0 127)
      by_type diagonal k h = ground (
        arith,
        outside (254 + k) r c hr hc (omega arith),
        count_cell-walk_inside (λ r. (r + k + 65536 - 126) % 65536) r c (126 - k)
            (min 126 (252 - k) + 1 - (126 - k)) hc,
      )
      by_type anti_diagonal k h = ground (
        arith,
        outside (507 + k) r c hr hc (omega arith),
        count_cell-walk (λ r. (k + 65536 - r) % 65536) r c (k - 126) (min k 126 + 1 - (k - 126)),
      )
      by_type ltp1 k h = ground (arith, ok.incident r c 0 k hr hc)
      by_type ltp2 k h = ground (arith, ok.incident r c 1 k hr hc)
      by_type _ k h = absurd (omega arith)

  -- The number of the row, column, diagonal or anti-diagonal of a cell.
  abbrev pub number_of : LineType → ℕ → ℕ → ℕ
  number_of row r c = r
  number_of column r c = c
  number_of diagonal r c = c + 126 - r
  number_of anti_diagonal r c = r + c
  number_of _ r c = 0

  -- Let a line be a row, column, diagonal or anti-diagonal, and (r, c) a cell of the matrix. If the
  -- line has the number r, c, c + 126 - r or r + c in its family, then the walk over the line meets the
  -- cell once and the line is listed once among the cell's lines; otherwise both never happen.
  pub count_cell-number_of :
      (l : LineId) (r c : ℕ)
      → IsLine l
      → line_index l < basic_lines
      → r < s
      → c < s
      → (count_cell (r, c) (cells_on_line t l) ≡ to_bit (number_of l.type r c == l.index))
        × (count (line_index l) (line_indices t r c) ≡ to_bit (number_of l.type r c == l.index))
  unfolding cells_on_line line_index
  count_cell-number_of l r c h basic hr hc =
      let walked = by_type l.type l.index h basic in
      (walked, sym (count_cell-cells_on_line l r c h hr hc) ∙ walked)
    where
      by_type :
          (ty : LineType) (k : ℕ)
          → IsLine (record { type = ty; index = k })
          → line_index (record { type = ty; index = k }) < basic_lines
          → count_cell (r, c) (cells_on_line t (record { type = ty; index = k }))
            ≡ to_bit (number_of ty r c == k)
      by_type row k h b = ground (arith, count_cell-row k r c 0 127)
      by_type column k h b = ground (arith, count_cell-column k r c 0 127)
      by_type diagonal k h b = ground (
        arith,
        count_cell-walk_inside (λ r. (r + k + 65536 - 126) % 65536) r c (126 - k)
            (min 126 (252 - k) + 1 - (126 - k)) hc,
      )
      by_type anti_diagonal k h b = ground (
        arith,
        count_cell-walk (λ r. (k + 65536 - r) % 65536) r c (k - 126) (min k 126 + 1 - (k - 126)),
      )
      by_type _ k h b = absurd (omega arith)
