-- ===== src/Propagation/Judge.antt =====
-- What a line's statistics say about a full matrix with the target sums.
use crsce.Prelude.{
  ℕ, ◌+◌, ◌≤◌, ◌<◌, ◌≡◌, arith, Bool, true, false, not, List, [], ◌∷◌, ◌==◌, to_bit, All,
}
use crsce.Lines.{Ltp, IsLtp, Cell, InMatrix, s, total_lines}
use crsce.Store.{CellState, unassigned, one, Store, flat, is_unassigned}
use crsce.Store.Tally.{tally, unknown_on, ones_on}
use crsce.Store.Consistent.{Consistent, line_cells, line_cells-InMatrix}
use crsce.Propagation.{Verdict, infeasible, skip, force, judge}

-- A full matrix, and its sum over a list of cells.
abbrev pub Matrix : Type 0
Matrix = ℕ → ℕ → Bool

unfoldable pub sum_on : Matrix → List Cell → ℕ
sum_on m [] = 0
sum_on m ((r, c) ∷ ps) = to_bit (m r c) + sum_on m ps

-- The matrix has every line's target sum.
pub record IsSolution (t : Ltp) (st : Store) (m : Matrix) : Type 0 where
  pub sums : (i : ℕ) → i < total_lines → sum_on m (line_cells t i) ≡ (st.stats i).target

abbrev pub AgreesAt : CellState → Bool → Type 0
AgreesAt unassigned b = Unit {0}
AgreesAt CellState.zero b = b ≡ false
AgreesAt one b = b ≡ true

-- The matrix has the value of every assigned cell.
pub record Agrees (st : Store) (m : Matrix) : Type 0 where
  pub at : (r c : ℕ) → r < s → c < s → AgreesAt (st.cells (flat r c)) (m r c)

-- Every unassigned cell of the list has value b in the matrix.
abbrev pub Forced : (ℕ → CellState) → Matrix → Bool → List Cell → Type 0
Forced f m b = All (λ p. is_unassigned (f (flat p.0 p.1)) ≡ true → m p.0 p.1 ≡ b)

module _ (st : Store) (m : Matrix) (agrees : Agrees st m) where
  sum_bounds :
      (ps : List Cell)
      → All InMatrix ps
      → (ones_on st.cells ps ≤ sum_on m ps)
        × (sum_on m ps ≤ ones_on st.cells ps + unknown_on st.cells ps)
  unfolding tally sum_on
  sum_bounds [] a = omega arith
  sum_bounds ((r, c) ∷ ps) a = ground (arith, agrees.at r c a.0.0 a.0.1, sum_bounds ps a.1)

  rest_zero :
      (ps : List Cell)
      → All InMatrix ps
      → sum_on m ps ≡ ones_on st.cells ps
      → Forced st.cells m false ps
  unfolding tally sum_on
  rest_zero [] a e = tt
  rest_zero ((r, c) ∷ ps) a e = (
    λ h. ground (arith, agrees.at r c a.0.0 a.0.1, sum_bounds ps a.1),
    rest_zero ps a.1 (ground (arith, agrees.at r c a.0.0 a.0.1, sum_bounds ps a.1)),
  )

  rest_one :
      (ps : List Cell)
      → All InMatrix ps
      → sum_on m ps ≡ ones_on st.cells ps + unknown_on st.cells ps
      → Forced st.cells m true ps
  unfolding tally sum_on
  rest_one [] a e = tt
  rest_one ((r, c) ∷ ps) a e = (
    λ h. ground (arith, agrees.at r c a.0.0 a.0.1, sum_bounds ps a.1),
    rest_one ps a.1 (ground (arith, agrees.at r c a.0.0 a.0.1, sum_bounds ps a.1)),
  )

-- What a verdict says when a solution exists.
abbrev pub Justified : (ℕ → CellState) → Matrix → List Cell → Verdict → Type 0
Justified f m ps infeasible = ⊥
Justified f m ps skip = Unit {0}
Justified f m ps (force v) = Forced f m (not (v == 0)) ps

module _ (t : Ltp) (ok : IsLtp t) (st : Store) (k : Consistent t st) (m : Matrix) where
  -- While a solution agrees with the store, no line is judged infeasible, and a line forces its
  -- unassigned cells to the value that every such solution has there.
  pub judge-Justified :
      IsSolution t st m
      → Agrees st m
      → (i : ℕ) → i < total_lines
      → Justified st.cells m (line_cells t i) (judge (st.stats i))
  unfolding judge
  judge-Justified sol agrees i h =
      let inside = line_cells-InMatrix t ok i h in
      ground (
        arith,
        k.unknown_right i h,
        k.assigned_right i h,
        sol.sums i h,
        sum_bounds st m agrees (line_cells t i) inside,
        rest_zero st m agrees (line_cells t i) inside,
        rest_one st m agrees (line_cells t i) inside,
      )
