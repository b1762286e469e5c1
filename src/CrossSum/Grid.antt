-- ===== src/CrossSum/Grid.antt =====
-- The sum over a list of cells, counted over the whole matrix.
use crsce.Prelude.{
  ℕ, zero, suc, ◌+◌, ◌<◌, ◌≡◌, refl, ◌∙◌, arith, ◌&&◌, List, [], ◌∷◌, ltb, leb, ◌==◌, if◌then◌else◌,
  to_bit, All,
}
use crsce.Lines.{s, Cell, InMatrix, count_cell}
use crsce.Propagation.Judge.{Matrix, sum_on}

-- g c + … + g (c + n - 1)
unfoldable pub row_total : (ℕ → ℕ) → ℕ → ℕ → ℕ
row_total g c zero = 0
row_total g c (suc n) = g c + row_total g (c + 1) n

-- The rows from r on, n of them.
unfoldable pub grid_total : (ℕ → ℕ → ℕ) → ℕ → ℕ → ℕ
unfolding row_total
grid_total f r zero = 0
grid_total f r (suc n) = row_total (f r) 0 s + grid_total f (r + 1) n

module _ (m : Matrix) where
  -- How often a cell that is one stands in the list.
  abbrev pub hits : List Cell → ℕ → ℕ → ℕ
  hits ps r c = if m r c then count_cell (r, c) ps else 0

  row_hits :
      (p : Cell) (ps : List Cell) (r c n : ℕ)
      → row_total (hits (p ∷ ps) r) c n
        ≡ row_total (hits ps r) c n
          + (if (p.0 == r) && (leb c p.1 && ltb p.1 (c + n)) then to_bit (m p.0 p.1) else 0)
  unfolding row_total
  row_hits p ps r c zero = ground arith
  row_hits p ps r c (suc n) = ground (arith, row_hits p ps r (c + 1) n)

  whole_row_hits :
      (p : Cell) (ps : List Cell) (r : ℕ)
      → p.1 < s
      → row_total (hits (p ∷ ps) r) 0 s
        ≡ row_total (hits ps r) 0 s + (if p.0 == r then to_bit (m p.0 p.1) else 0)
  whole_row_hits p ps r h = row_hits p ps r 0 127 ∙ ground arith

  next_row :
      (a r n x : ℕ)
      → (if a == r then x else 0) + (if leb (r + 1) a && ltb a (r + 1 + n) then x else 0)
        ≡ (if leb r a && ltb a (r + suc n) then x else 0)
  next_row a r n x = ground arith

  grid_hits :
      (p : Cell) (ps : List Cell) (r n : ℕ)
      → p.1 < s
      → grid_total (hits (p ∷ ps)) r n
        ≡ grid_total (hits ps) r n
          + (if leb r p.0 && ltb p.0 (r + n) then to_bit (m p.0 p.1) else 0)
  unfolding grid_total
  grid_hits p ps r zero h = ground arith
  grid_hits p ps r (suc n) h = omega (
    arith,
    whole_row_hits p ps r h,
    grid_hits p ps (r + 1) n h,
    next_row p.0 r n (to_bit (m p.0 p.1)),
  )

  row_none : (r c n : ℕ) → row_total (hits [] r) c n ≡ 0
  unfolding row_total
  row_none r c zero = refl
  row_none r c (suc n) = ground (arith, row_none r (c + 1) n)

  grid_none : (r n : ℕ) → grid_total (hits []) r n ≡ 0
  unfolding grid_total
  grid_none r zero = refl
  grid_none r (suc n) = omega (arith, row_none r 0 127, grid_none (r + 1) n)

  pub grid_total-hits : (ps : List Cell) → All InMatrix ps → grid_total (hits ps) 0 s ≡ sum_on m ps
  unfolding sum_on
  grid_total-hits [] a = grid_none 0 127
  grid_total-hits ((r, c) ∷ ps) a =
      ground (arith, grid_hits (r, c) ps 0 127 a.0.1, grid_total-hits ps a.1)
