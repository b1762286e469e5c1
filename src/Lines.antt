-- ===== src/Lines.antt =====
-- The lines of the constraint system: include/decompress/Solvers/LineID.h, the flat line numbering of
-- ConstraintStore.h, the walk over a line's cells of PropagationEngine_propagate.cpp, and the
-- lines of a cell (ConstraintStore_getLinesForCell.cpp). LtpTable.h enters as an interface.
pub mod Flat
pub mod Counts
pub mod Extent
pub mod Incidence
use crsce.Prelude.{
  ℕ, zero, suc, ◌+◌, ◌-◌, ◌*◌, ◌%◌, ◌≤◌, ◌<◌, min, ◌≡◌, Bool, true, false, ◌&&◌, List, [], ◌∷◌,
  ◌++◌, map, ltb, leb, ◌==◌, if◌then◌else◌, to_bit, range, count, All, length,
}

-- kS
abbrev pub s : ℕ
s = 127

-- kNumDiags and kNumAntiDiags
abbrev pub num_diags : ℕ
num_diags = 253

-- kBasicLines and kLTP1Base
abbrev pub basic_lines : ℕ
basic_lines = 760

-- kTotalLines
abbrev pub total_lines : ℕ
total_lines = 1014

abbrev pub ltp2_base : ℕ
ltp2_base = 887

abbrev pub ltp3_base : ℕ
ltp3_base = 1014

abbrev pub ltp4_base : ℕ
ltp4_base = 1141

abbrev pub ltp5_base : ℕ
ltp5_base = 1268

abbrev pub ltp6_base : ℕ
ltp6_base = 1521

pub data LineType : Type 0 where
  row column diagonal anti_diagonal ltp1 ltp2 ltp3 ltp4 ltp5 ltp6 : LineType

pub record LineId : Type 0 where
  pub type : LineType
  pub index : ℕ

-- The base of each family in the flat numbering.
unfoldable pub family_base : LineType → ℕ
family_base row = 0
family_base column = s
family_base diagonal = 2 * s
family_base anti_diagonal = 2 * s + num_diags
family_base ltp1 = basic_lines
family_base ltp2 = ltp2_base
family_base ltp3 = ltp3_base
family_base ltp4 = ltp4_base
family_base ltp5 = ltp5_base
family_base ltp6 = ltp6_base

unfoldable pub line_index : LineId → ℕ
unfolding family_base
line_index l = family_base l.type + l.index

unfoldable pub flat_index_to_line_id : ℕ → LineId
flat_index_to_line_id i =
    if ltb i s
    then record { type = row; index = i }
    else if ltb i (s + s)
    then record { type = column; index = i - s }
    else if ltb i (s + s + num_diags)
    then record { type = diagonal; index = i - s - s }
    else if ltb i basic_lines
    then record { type = anti_diagonal; index = i - s - s - num_diags }
    else if ltb i ltp2_base
    then record { type = ltp1; index = i - basic_lines }
    else if ltb i ltp3_base
    then record { type = ltp2; index = i - ltp2_base }
    else if ltb i ltp4_base
    then record { type = ltp3; index = i - ltp3_base }
    else if ltb i ltp5_base
    then record { type = ltp4; index = i - ltp4_base }
    else if ltb i ltp6_base
    then record { type = ltp5; index = i - ltp5_base }
    else record { type = ltp6; index = i - ltp6_base }

-- A row and a column.
abbrev pub Cell : Type 0
Cell = ℕ × ℕ

abbrev pub same_cell : Cell → Cell → Bool
same_cell (r, c) (r', c') = (r == r') && (c == c')

abbrev pub count_cell : Cell → List Cell → ℕ
count_cell p [] = 0
count_cell p (q ∷ qs) = to_bit (same_cell q p) + count_cell p qs

-- LtpMembership: the first `count` entries of `flat` are flat line numbers.
pub record LtpMembership : Type 0 where
  pub count : ℕ
  pub flat : ℕ → ℕ

-- The lookup table of LtpTable.h: the lines of a cell, and the cells of line k of sub-table j.
pub record Ltp : Type 0 where
  pub membership : ℕ → ℕ → LtpMembership
  pub cells : ℕ → ℕ → List Cell

-- for (j = 0; j < mem.count; ++j) … mem.flat[j]
abbrev pub members : LtpMembership → List ℕ
members m = map m.flat (range 0 m.count)

abbrev pub InMatrix : Cell → Type 0
InMatrix (r, c) = (r < s) × (c < s)

-- What the solver relies on: a cell stands on an LTP line as often as the line's number is among the
-- cell's members, of which there are at most six, all members are LTP lines, a line has kS cells, and
-- these lie in the matrix.
pub record IsLtp (t : Ltp) : Type 0 where
  pub count_small : (r c : ℕ) → (t.membership r c).count ≤ 6
  pub members_range :
      (r c : ℕ)
      → r < s
      → c < s
      → All (λ i. (basic_lines ≤ i) × (i < total_lines)) (members (t.membership r c))
  pub incident :
      (r c j k : ℕ)
      → r < s
      → c < s
      → j < 2
      → k < s
      → count_cell (r, c) (t.cells j k)
        ≡ count (basic_lines + j * s + k) (members (t.membership r c))
  pub line_full : (j k : ℕ) → j < 2 → k < s → length (t.cells j k) ≡ s
  pub inside : (j k : ℕ) → j < 2 → k < s → All InMatrix (t.cells j k)

-- Cells (r, i + offset), … of a diagonal or anti-diagonal: `next r` is the column of row r.
unfoldable pub walk : (ℕ → ℕ) → ℕ → ℕ → List Cell
walk next r zero = []
walk next r (suc n) = (r, next r) ∷ walk next (r + 1) n

-- The diagonal's loop keeps the cells whose column is below kS.
unfoldable pub walk_inside : (ℕ → ℕ) → ℕ → ℕ → List Cell
walk_inside next r zero = []
walk_inside next r (suc n) =
    let rest = walk_inside next (r + 1) n in if ltb (next r) s then (r, next r) ∷ rest else rest

-- Diagonal d: offset = d - 126, rows max(0, -offset) to min(126, 126 - offset), column r + offset
-- cast to 16 bits. On a line of the system d is at most 252, so the bounds are not negative.
unfoldable pub diagonal_cells : ℕ → List Cell
unfolding walk_inside
diagonal_cells d =
    let r_min = 126 - d in
    let r_max = min 126 (252 - d) in
    walk_inside (λ r. (r + d + 65536 - 126) % 65536) r_min (r_max + 1 - r_min)

-- Anti-diagonal x: rows max(0, x - 126) to min(x, 126), column x - r.
unfoldable pub anti_diagonal_cells : ℕ → List Cell
unfolding walk
anti_diagonal_cells x =
    let r_min = x - 126 in
    let r_max = min x 126 in walk (λ r. (x + 65536 - r) % 65536) r_min (r_max + 1 - r_min)

module _ (t : Ltp) where
  -- The cells that forEachCellOnLine hands to its callback, in order.
  unfoldable pub cells_on_line : LineId → List Cell
  unfolding diagonal_cells anti_diagonal_cells walk
  cells_on_line l = elim l.type [
    | row ↦ map (λ c. (l.index, c)) (range 0 s)
    | column ↦ map (λ r. (r, l.index)) (range 0 s)
    | diagonal ↦ diagonal_cells l.index
    | anti_diagonal ↦ anti_diagonal_cells l.index
    | ltp1 ↦ t.cells 0 l.index
    | ltp2 ↦ t.cells 1 l.index
    | ltp3 ↦ t.cells 2 l.index
    | ltp4 ↦ t.cells 3 l.index
    | ltp5 ↦ t.cells 4 l.index
    | ltp6 ↦ t.cells 5 l.index
  ]

  -- The four basic lines of a cell in the flat numbering (ri, ci, di, xi), then its LTP lines.
  unfoldable pub line_indices : ℕ → ℕ → List ℕ
  line_indices r c =
      r
      ∷ (s + c)
      ∷ (2 * s + (c + 126 - r))
      ∷ (2 * s + num_diags + (r + c))
      ∷ members (t.membership r c)

  unfoldable pub lines_for_cell : ℕ → ℕ → List LineId
  unfolding flat_index_to_line_id
  lines_for_cell r c =
      record { type = row; index = r }
      ∷ record { type = column; index = c }
      ∷ record { type = diagonal; index = c + 126 - r }
      ∷ record { type = anti_diagonal; index = r + c }
      ∷ map flat_index_to_line_id (members (t.membership r c))

-- The length of diagonal or anti-diagonal k.
unfoldable pub diag_len : ℕ → ℕ
diag_len k = min (k + 1) (min s (num_diags - k))

unfoldable pub line_len : LineId → ℕ
unfolding diag_len
line_len l = elim l.type [ diagonal ↦ diag_len l.index | anti_diagonal ↦ diag_len l.index | _ ↦ s ]

-- The lines of the system: two LTP families are in use.
abbrev pub line_count : LineType → ℕ
line_count row = s
line_count column = s
line_count diagonal = num_diags
line_count anti_diagonal = num_diags
line_count ltp1 = s
line_count ltp2 = s
line_count _ = 0

abbrev pub IsLine : LineId → Type 0
IsLine l = l.index < line_count l.type
