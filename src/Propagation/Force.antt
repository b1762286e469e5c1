-- ===== src/Propagation/Force.antt =====
-- Forcing the cells of a line: what it keeps, and that it uses up unassigned cells.
use crsce.Prelude.{
  ℕ, zero, suc, ◌+◌, ◌*◌, ◌≤◌, ◌<◌, ◌≡◌, refl, arith, true, false, List, [], ◌∷◌, ◌++◌, map,
  if◌then◌else◌, ltb, to_bit, length, length-append, All, update, range, ◌∙◌,
}
use crsce.Lines.{
  Ltp, IsLtp, LineId, s, basic_lines, total_lines, flat_index_to_line_id, lines_for_cell, IsLine,
}
use crsce.Lines.Flat.{line_index-flat_index_to_line_id}
use crsce.Store.{CellState, is_unassigned}
use crsce.Propagation.{Engine, enqueue, push_line}

-- Unassigned cells among the first n.
unfoldable pub free_below : ℕ → (ℕ → CellState) → ℕ
free_below zero f = 0
free_below (suc n) f = to_bit (is_unassigned (f n)) + free_below n f

pub free_below-le : (n : ℕ) (f : ℕ → CellState) → free_below n f ≤ n
unfolding free_below
free_below-le zero f = omega arith
free_below-le (suc n) f = ground (arith, free_below-le n f)

pub free_below-update :
    (n x : ℕ) (f : ℕ → CellState) (v : CellState)
    → is_unassigned (f x) ≡ true
    → is_unassigned v ≡ false
    → free_below n (update f x v) + (if ltb x n then 1 else 0) ≡ free_below n f
unfolding free_below
free_below-update zero x f v h h' = ground arith
free_below-update (suc n) x f v h h' = ground (arith, free_below-update n x f v h h')

-- Lines waiting, and ten for every unassigned cell: a forced cell pushes ten lines at most.
unfoldable pub measure : Engine → ℕ
measure e = length e.work + 10 * free_below 16129 e.store.cells

length-map : (f : ℕ → LineId) (n lo : ℕ) (g : ℕ → ℕ) → length (map f (map g (range lo n))) ≡ n
unfolding range
length-map f zero lo g = refl
length-map f (suc n) lo g = omega (arith, length-map f n (lo + 1) g)

ltp_lines-IsLine :
    (is : List ℕ)
    → All (λ i. (basic_lines ≤ i) × (i < total_lines)) is
    → All IsLine (map flat_index_to_line_id is)
ltp_lines-IsLine [] a = tt
ltp_lines-IsLine (i ∷ is) a =
    ((line_index-flat_index_to_line_id i a.0.1).0, ltp_lines-IsLine is a.1)

All-append : (ls ks : List LineId) → All IsLine ls → All IsLine ks → All IsLine (ls ++ ks)
All-append [] ks a b = b
All-append (l ∷ ls) ks a b = (a.0, All-append ls ks a.1 b)

push_line_facts :
    (l : LineId) (e : Engine)
    → IsLine l
    → All IsLine e.work
    → ((push_line l e).store ≡ e.store)
      × ((push_line l e).forced ≡ e.forced)
      × All IsLine (push_line l e).work
      × (length (push_line l e).work ≤ length e.work + 1)
unfolding push_line
push_line_facts l e a w =
    ground (arith, All-append e.work (l ∷ []) w (a, tt), length-append e.work (l ∷ []))

-- `enqueue` touches the work list and the queued set only, and pushes lines of its list.
pub enqueue_facts :
    (ls : List LineId) (e : Engine)
    → All IsLine ls
    → All IsLine e.work
    → ((enqueue ls e).store ≡ e.store)
      × ((enqueue ls e).forced ≡ e.forced)
      × All IsLine (enqueue ls e).work
      × (length (enqueue ls e).work ≤ length e.work + length ls)
unfolding enqueue
enqueue_facts [] e a w = (refl, refl, w, omega arith)
enqueue_facts (l ∷ ls) e a w =
    let head = push_line_facts l e a.0 w in
    let rest = enqueue_facts ls (push_line l e) a.1 head.2 in
    (rest.0 ∙ head.0, rest.1 ∙ head.1, rest.2, omega (arith, rest.3, head.3))

module _ (t : Ltp) (ok : IsLtp t) where
  pub lines_for_cell-IsLine :
      (r c : ℕ)
      → r < s
      → c < s
      → All IsLine (lines_for_cell t r c) × (length (lines_for_cell t r c) ≤ 10)
  unfolding lines_for_cell
  lines_for_cell-IsLine r c hr hc = (
    (hr, (hc, (omega arith, (omega arith, ltp_lines-IsLine _ (ok.members_range r c hr hc))))),
    omega (
      arith,
      ok.count_small r c,
      length-map flat_index_to_line_id (t.membership r c).count 0 (t.membership r c).flat,
    ),
  )
