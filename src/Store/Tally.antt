-- ===== src/Store/Tally.antt =====
-- Cells of a list counted by their state, and what one write changes of the count.
use crsce.Prelude.{
  ℕ, ◌+◌, ◌≤◌, ◌<◌, ◌≡◌, arith, Bool, List, [], ◌∷◌, if◌then◌else◌, to_bit, length, update, All,
}
use crsce.Lines.{Cell, InMatrix, count_cell, s}
use crsce.Store.{CellState, flat, is_unassigned, is_one}

module _ (wanted : CellState → Bool) where
  unfoldable pub tally : (ℕ → CellState) → List Cell → ℕ
  tally f [] = 0
  tally f ((r, c) ∷ ps) = to_bit (wanted (f (flat r c))) + tally f ps

  pub tally-update :
      (f : ℕ → CellState) (r c : ℕ) (v : CellState) (ps : List Cell)
      → r < s
      → c < s
      → All InMatrix ps
      → tally (update f (flat r c) v) ps
          + (if wanted (f (flat r c)) then count_cell (r, c) ps else 0)
        ≡ tally f ps + (if wanted v then count_cell (r, c) ps else 0)
  unfolding tally
  tally-update f r c v [] hr hc a = ground arith
  tally-update f r c v ((r', c') ∷ ps) hr hc a = ground (arith, tally-update f r c v ps hr hc a.1)

abbrev pub unknown_on : (ℕ → CellState) → List Cell → ℕ
unknown_on = tally is_unassigned

abbrev pub ones_on : (ℕ → CellState) → List Cell → ℕ
ones_on = tally is_one

pub tally-le-length :
    (f : ℕ → CellState) (ps : List Cell) → unknown_on f ps + ones_on f ps ≤ length ps
unfolding tally
tally-le-length f [] = omega arith
tally-le-length f ((r, c) ∷ ps) = ground (arith, tally-le-length f ps)

-- A cell on the list that is unassigned is counted.
pub count_cell-le-unknown_on :
    (f : ℕ → CellState) (r c : ℕ) (ps : List Cell)
    → r < s
    → c < s
    → All InMatrix ps
    → is_unassigned (f (flat r c)) ≡ Bool.true
    → count_cell (r, c) ps ≤ unknown_on f ps
unfolding tally
count_cell-le-unknown_on f r c [] hr hc a h = omega arith
count_cell-le-unknown_on f r c ((r', c') ∷ ps) hr hc a h =
    ground (arith, count_cell-le-unknown_on f r c ps hr hc a.1 h)
