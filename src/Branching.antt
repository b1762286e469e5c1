-- ===== src/Branching.antt =====
-- BranchingController (include/decompress/Solvers/BranchingController.h and
-- src/Decompress/Solvers/BranchingController_*.cpp) and the scan of
-- ConstraintStore_getFirstUnassigned.cpp. The stack's newest entry is the list's first.
pub mod Undo
pub mod Rows
pub mod First
use crsce.Prelude.{
  ℕ, zero, suc, ◌+◌, ◌-◌, ◌*◌, ◌/◌, ◌%◌, ◌^◌, min, Option, none, some, List, [], ◌∷◌, ltb, ◌==◌,
  if◌then◌else◌, length, bit_and,
}
use crsce.Lines.{Ltp, Cell, s}
use crsce.Store.{Store, unassign}
use crsce.Propagation.{Assignment}

pub record Brancher : Type 0 where
  pub undo_stack : List Cell
  pub min_unassigned_row : ℕ

unfoldable pub record_assignment : ℕ → ℕ → Brancher → Brancher
record_assignment r c b = record b { undo_stack = (r, c) ∷ b.undo_stack }

unfoldable pub save_undo_point : Brancher → ℕ
save_undo_point b = length b.undo_stack

-- The callers' loop over the forced assignments.
unfoldable pub record_all : List Assignment → Brancher → Brancher
unfolding record_assignment
record_all [] b = b
record_all (a ∷ more) b = record_all more (record_assignment a.r a.c b)

module _ (t : Ltp) where
  -- while (undoStack_.size() > token): the store, the stack and minRow.
  unfoldable pub undo_entries : ℕ → List Cell → Store → ℕ → Store × List Cell × ℕ
  undo_entries token [] st min_row = (st, [], min_row)
  undo_entries token ((r, c) ∷ rest) st min_row =
      let undone = undo_entries token rest (unassign t st r c) (min r min_row) in
      if ltb token (length ((r, c) ∷ rest)) then undone else (st, (r, c) ∷ rest, min_row)

  unfoldable pub undo_to_save_point : ℕ → Store → Brancher → Store × Brancher
  unfolding undo_entries
  undo_to_save_point token st b =
      let (st', stack, min_row) = undo_entries token b.undo_stack st b.min_unassigned_row in
      (st', record { undo_stack = stack; min_unassigned_row = min_row })

-- __builtin_ctzll of a word of n bits that is not zero
unfoldable pub ctz : ℕ → ℕ → ℕ
ctz zero w = 0
ctz (suc n) w = let rest = ctz n (w / 2) in if w % 2 == 0 then rest + 1 else 0

-- The unassigned bits of word w of a row: ~assigned, and in the last word its low 63 bits.
unfoldable pub free_bits : Store → ℕ → ℕ → ℕ
free_bits st r w =
    let free = 2 ^ 64 - 1 - st.assigned r w in
    if w == 1 then bit_and free (2 ^ (s % 64) - 1) else free

-- The words of one row from w on.
unfoldable pub scan_words : Store → ℕ → ℕ → ℕ → Option Cell
unfolding free_bits ctz
scan_words st r w zero = none
scan_words st r w (suc n) =
    let rest = scan_words st r (w + 1) n in
    if free_bits st r w == 0 then rest else some (r, w * 64 + ctz 64 (free_bits st r w))

-- The rows from r on; a row without unknowns is passed over.
unfoldable pub scan_rows : Store → ℕ → ℕ → Option Cell
unfolding scan_words
scan_rows st r zero = none
scan_rows st r (suc n) =
    let rest = scan_rows st (r + 1) n in
    if (st.stats r).unknown == 0
    then rest
    else elim (scan_words st r 0 2) [ none ↦ rest | some p ↦ some p ]

unfoldable pub get_first_unassigned : Store → ℕ → Option Cell
unfolding scan_rows
get_first_unassigned st start_row = scan_rows st start_row (s - start_row)

unfoldable pub next_cell : Store → Brancher → Option Cell × Brancher
unfolding get_first_unassigned
next_cell st b = elim (get_first_unassigned st b.min_unassigned_row) [
  | none ↦ (none, b)
  | some (r, c) ↦ (some (r, c), record b { min_unassigned_row = r })
]
