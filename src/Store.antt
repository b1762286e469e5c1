-- ===== src/Store.antt =====
-- ConstraintStore (include/decompress/Solvers/ConstraintStore.h and
-- src/Decompress/Solvers/ConstraintStore_*.cpp): the cells of the matrix, the statistics of all
-- lines, and two packed copies of the cells. An array is a function from its index; the code reads
-- and writes none of them out of bounds for a cell of the matrix and a line of the system.
pub mod Tally
pub mod Stats
pub mod Consistent
pub mod Fresh
pub mod Words
pub mod Steps
pub mod Undo
use crsce.Prelude.{
  ℕ, ◌+◌, ◌-◌, ◌*◌, ◌/◌, ◌%◌, ◌^◌, ◌≤◌, ◌<◌, min, ◌≡◌, Bool, true, false, List, [], ◌∷◌, ltb, leb,
  ◌==◌, if◌then◌else◌, get_or, update,
}
use crsce.Bits.{get_bit, set_bit, clear_bit}
use crsce.Lines.{
  Ltp, LineId, s, num_diags, diag_len, basic_lines, total_lines, ltp2_base, line_index,
  line_indices,
}

pub data CellState : Type 0 where
  unassigned zero one : CellState

-- Target sum S(L), count of unassigned cells u(L) and of ones a(L), each a uint16.
pub record LineStat : Type 0 where
  pub target : ℕ
  pub unknown : ℕ
  pub assigned : ℕ

-- Rows of two 64-bit words: bit 63 - c % 64 of word c / 64 of `row_bits`, and bit c % 64 of word
-- c / 64 of `assigned`.
pub record Store : Type 0 where
  pub cells : ℕ → CellState
  pub stats : ℕ → LineStat
  pub row_bits : ℕ → ℕ → ℕ
  pub assigned : ℕ → ℕ → ℕ

abbrev pub flat : ℕ → ℕ → ℕ
flat r c = r * s + c

abbrev pub is_unassigned : CellState → Bool
is_unassigned unassigned = true
is_unassigned _ = false

abbrev pub is_one : CellState → Bool
is_one one = true
is_one _ = false

-- What assign writes into `cells_`.
abbrev pub state_of : ℕ → CellState
state_of v = if v == 0 then zero else one

-- uint16 steps
abbrev pub dec_unknown : LineStat → LineStat
dec_unknown l = record l { unknown = (l.unknown + 65535) % 65536 }

abbrev pub inc_unknown : LineStat → LineStat
inc_unknown l = record l { unknown = (l.unknown + 1) % 65536 }

abbrev pub dec_assigned : LineStat → LineStat
dec_assigned l = record l { assigned = (l.assigned + 65535) % 65536 }

abbrev pub inc_assigned : LineStat → LineStat
inc_assigned l = record l { assigned = (l.assigned + 1) % 65536 }

-- One step on the statistics of every line listed, in order.
unfoldable pub for_lines : (LineStat → LineStat) → List ℕ → (ℕ → LineStat) → ℕ → LineStat
for_lines step [] stats = stats
for_lines step (i ∷ is) stats = for_lines step is (update stats i (step (stats i)))

-- A fresh line of the constructor.
abbrev fresh : List ℕ → ℕ → ℕ → LineStat
fresh sums k len = record { target = get_or sums k 0; unknown = len; assigned = 0 }

-- The constructor: rows, columns, diagonals, anti-diagonals, LTP1 and LTP2 one after the other.
unfoldable pub new_store :
    (row_sums col_sums diag_sums anti_diag_sums ltp1_sums ltp2_sums : List ℕ) → Store
unfolding diag_len
new_store row_sums col_sums diag_sums anti_diag_sums ltp1_sums ltp2_sums = record {
  cells = λ i. unassigned;
  stats = λ i.
      if ltb i s
      then fresh row_sums i s
      else if ltb i (2 * s)
      then fresh col_sums (i - s) s
      else if ltb i (2 * s + num_diags)
      then fresh diag_sums (i - 2 * s) (diag_len (i - 2 * s))
      else if ltb i basic_lines
      then fresh anti_diag_sums (i - 2 * s - num_diags) (diag_len (i - 2 * s - num_diags))
      else if ltb i ltp2_base
      then fresh ltp1_sums (i - basic_lines) s
      else if ltb i total_lines
      then fresh ltp2_sums (i - ltp2_base) s
      else record { target = 0; unknown = 0; assigned = 0 };
  row_bits = λ r w. 0;
  assigned = λ r w. 0;
}

-- words[r][w] = word
abbrev pub set_word : (ℕ → ℕ → ℕ) → ℕ → ℕ → ℕ → ℕ → ℕ → ℕ
set_word words r w word = update words r (update (words r) w word)

module _ (t : Ltp) where
  unfoldable pub assign : Store → ℕ → ℕ → ℕ → Store
  unfolding for_lines
  assign st r c v =
      let lines = line_indices t r c in
      let stats = for_lines dec_unknown lines st.stats in
      let word = c / 64 in
      record {
        cells = update st.cells (flat r c) (state_of v);
        stats = if v == 0 then stats else for_lines inc_assigned lines stats;
        row_bits =
            if v == 0
            then st.row_bits
            else set_word st.row_bits r word (set_bit (st.row_bits r word) (63 - c % 64));
        assigned = set_word st.assigned r word (set_bit (st.assigned r word) (c % 64));
      }

  unfoldable pub unassign : Store → ℕ → ℕ → Store
  unfolding for_lines
  unassign st r c =
      let lines = line_indices t r c in
      let was_one = is_one (st.cells (flat r c)) in
      let stats = for_lines inc_unknown lines st.stats in
      let word = c / 64 in
      record {
        cells = update st.cells (flat r c) unassigned;
        stats = if was_one then for_lines dec_assigned lines stats else stats;
        row_bits =
            if was_one
            then set_word st.row_bits r word (clear_bit 64 (st.row_bits r word) (63 - c % 64))
            else st.row_bits;
        assigned = set_word st.assigned r word (clear_bit 64 (st.assigned r word) (c % 64));
      }

unfoldable pub get_cell_state : Store → ℕ → ℕ → CellState
get_cell_state st r c = st.cells (flat r c)

unfoldable pub get_cell_value : Store → ℕ → ℕ → ℕ
get_cell_value st r c = if is_one (st.cells (flat r c)) then 1 else 0

unfoldable pub get_stat : Store → LineId → LineStat
get_stat st l = st.stats (line_index l)

unfoldable pub get_row : Store → ℕ → ℕ → ℕ
get_row st r = st.row_bits r

-- takeSnapshot copies every mutable member, and restoreSnapshot writes every one back.
unfoldable pub take_snapshot : Store → Store
take_snapshot st = record {
  cells = st.cells;
  stats = st.stats;
  row_bits = st.row_bits;
  assigned = st.assigned;
}

unfoldable pub restore_snapshot : Store → Store → Store
restore_snapshot st snap = record st {
  cells = snap.cells;
  stats = snap.stats;
  row_bits = snap.row_bits;
  assigned = snap.assigned;
}
