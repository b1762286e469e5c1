-- ===== src/Lines/Extent.antt =====
-- The length of a line, and that its cells lie in the matrix.
use crsce.Prelude.{
  ℕ, zero, suc, ◌+◌, ◌-◌, ◌%◌, ◌≤◌, ◌<◌, min, ◌≡◌, refl, arith, map, range, length, All,
}
use crsce.Lines.{
  LineType, row, column, diagonal, anti_diagonal, ltp1, ltp2, LineId, s, line_len, cells_on_line,
  IsLine, Ltp, IsLtp, Cell, InMatrix, walk, walk_inside,
}

pub length-row : (f : ℕ → Cell) (lo n : ℕ) → length (map f (range lo n)) ≡ n
unfolding range
length-row f lo zero = refl
length-row f lo (suc n) = omega (arith, length-row f (lo + 1) n)

length-walk : (next : ℕ → ℕ) (lo n : ℕ) → length (walk next lo n) ≡ n
unfolding walk
length-walk next lo zero = refl
length-walk next lo (suc n) = omega (arith, length-walk next (lo + 1) n)

length-walk_inside :
    (next : ℕ → ℕ) (lo n : ℕ)
    → ((r : ℕ) → lo ≤ r → r < lo + n → next r < s)
    → length (walk_inside next lo n) ≡ n
unfolding walk_inside
length-walk_inside next lo zero h = refl
length-walk_inside next lo (suc n) h = ground (
  arith,
  h lo (omega arith) (omega arith),
  length-walk_inside next (lo + 1) n (λ r a b. h r (omega arith) (omega arith)),
)

pub inside-row :
    (f : ℕ → Cell) (lo n hi : ℕ)
    → ((x : ℕ) → x < hi → InMatrix (f x))
    → lo + n ≤ hi
    → All InMatrix (map f (range lo n))
unfolding range
inside-row f lo zero hi h e = tt
inside-row f lo (suc n) hi h e = (h lo (omega arith), inside-row f (lo + 1) n hi h (omega arith))

inside-walk :
    (next : ℕ → ℕ) (lo n : ℕ)
    → ((r : ℕ) → lo ≤ r → r < lo + n → (r < s) × (next r < s))
    → All InMatrix (walk next lo n)
unfolding walk
inside-walk next lo zero h = tt
inside-walk next lo (suc n) h = (
  h lo (omega arith) (omega arith),
  inside-walk next (lo + 1) n (λ r a b. h r (omega arith) (omega arith)),
)

inside-walk_inside :
    (next : ℕ → ℕ) (lo n : ℕ)
    → ((r : ℕ) → lo ≤ r → r < lo + n → r < s)
    → All InMatrix (walk_inside next lo n)
unfolding walk_inside
inside-walk_inside next lo zero h = tt
inside-walk_inside next lo (suc n) h = ground (
  arith,
  h lo (omega arith) (omega arith),
  inside-walk_inside next (lo + 1) n (λ r a b. h r (omega arith) (omega arith)),
)

module _ (t : Ltp) (ok : IsLtp t) where
  -- A line of the system has as many cells as `lineLen` says.
  pub length-cells_on_line : (l : LineId) → IsLine l → length (cells_on_line t l) ≡ line_len l
  unfolding cells_on_line line_len
  length-cells_on_line l h = by_type l.type l.index h
    where
      by_type :
          (ty : LineType) (k : ℕ)
          → IsLine (record { type = ty; index = k })
          → length (cells_on_line t (record { type = ty; index = k }))
            ≡ line_len (record { type = ty; index = k })
      by_type row k h = length-row _ 0 127
      by_type column k h = length-row _ 0 127
      by_type diagonal k h = omega (
        arith,
        length-walk_inside (λ r. (r + k + 65536 - 126) % 65536) (126 - k)
            (min 126 (252 - k) + 1 - (126 - k)) (λ r a b. omega arith),
      )
      by_type anti_diagonal k h =
          omega (
            arith,
            length-walk (λ r. (k + 65536 - r) % 65536) (k - 126) (min k 126 + 1 - (k - 126)),
          )
      by_type ltp1 k h = ok.line_full 0 k (omega arith) h
      by_type ltp2 k h = ok.line_full 1 k (omega arith) h
      by_type _ k h = absurd (omega arith)

  -- Every cell on a line of the system lies in the matrix.
  pub cells_on_line-InMatrix : (l : LineId) → IsLine l → All InMatrix (cells_on_line t l)
  unfolding cells_on_line
  cells_on_line-InMatrix l h = by_type l.type l.index h
    where
      by_type :
          (ty : LineType) (k : ℕ)
          → IsLine (record { type = ty; index = k })
          → All InMatrix (cells_on_line t (record { type = ty; index = k }))
      by_type row k h = inside-row _ 0 127 127 (λ x e. (h, e)) (omega arith)
      by_type column k h = inside-row _ 0 127 127 (λ x e. (e, h)) (omega arith)
      by_type diagonal k h =
          inside-walk_inside (λ r. (r + k + 65536 - 126) % 65536) (126 - k)
            (min 126 (252 - k) + 1 - (126 - k)) (λ r a b. omega arith)
      by_type anti_diagonal k h =
          inside-walk (λ r. (k + 65536 - r) % 65536) (k - 126) (min k 126 + 1 - (k - 126))
            (λ r a b. (omega arith, omega arith))
      by_type ltp1 k h = ok.inside 0 k (omega arith) h
      by_type ltp2 k h = ok.inside 1 k (omega arith) h
      by_type _ k h = absurd (omega arith)
