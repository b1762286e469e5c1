-- ===== src/Lines/Counts.antt =====
-- How often a cell stands on the lists that the walks over a line make.
use crsce.Prelude.{
  ℕ, zero, suc, ◌+◌, ◌<◌, ◌≡◌, arith, Bool, ◌&&◌, map, ltb, leb, ◌==◌, to_bit, range,
}
use crsce.Lines.{s, count_cell, walk, walk_inside}

abbrev pub within : ℕ → ℕ → ℕ → Bool
within lo n x = leb lo x && ltb x (lo + n)

pub count_cell-row :
    (i r c lo n : ℕ)
    → count_cell (r, c) (map (λ y. (i, y)) (range lo n)) ≡ to_bit ((i == r) && within lo n c)
unfolding range
count_cell-row i r c lo zero = ground arith
count_cell-row i r c lo (suc n) = ground (arith, count_cell-row i r c (lo + 1) n)

pub count_cell-column :
    (i r c lo n : ℕ)
    → count_cell (r, c) (map (λ y. (y, i)) (range lo n)) ≡ to_bit ((i == c) && within lo n r)
unfolding range
count_cell-column i r c lo zero = ground arith
count_cell-column i r c lo (suc n) = ground (arith, count_cell-column i r c (lo + 1) n)

pub count_cell-walk :
    (next : ℕ → ℕ) (r c lo n : ℕ)
    → count_cell (r, c) (walk next lo n) ≡ to_bit ((next r == c) && within lo n r)
unfolding walk
count_cell-walk next r c lo zero = ground arith
count_cell-walk next r c lo (suc n) = ground (arith, count_cell-walk next r c (lo + 1) n)

pub count_cell-walk_inside :
    (next : ℕ → ℕ) (r c lo n : ℕ)
    → c < s
    → count_cell (r, c) (walk_inside next lo n) ≡ to_bit ((next r == c) && within lo n r)
unfolding walk_inside
count_cell-walk_inside next r c lo zero h = ground arith
count_cell-walk_inside next r c lo (suc n) h =
    ground (arith, count_cell-walk_inside next r c (lo + 1) n h)
