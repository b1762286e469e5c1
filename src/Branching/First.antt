-- ===== src/Branching/First.antt =====
-- The scan for the next cell finds the first unassigned cell in row-major order.
use native.Mathlib.Decide.{dec_lt}
use crsce.Prelude.{
  ℕ, zero, suc, ◌+◌, ◌-◌, ◌≤◌, ◌<◌, ◌≡◌, refl, ap, ◌∙◌, ◌⊎◌, inl, inr, arith, true, false, Option,
  none, some,
}
use crsce.Lines.{Ltp, Cell, s}
use crsce.Store.{Store, flat, is_unassigned}
use crsce.Store.Consistent.{Consistent}
use crsce.Branching.{Brancher, scan_words, scan_rows, get_first_unassigned, next_cell}
use crsce.Branching.Rows.{RowFull, RowFirst, not_zero, is_zero, row_skipped, scan_words-RowFirst}

-- No unassigned cell before (r, c) in row-major order, from row r0 on.
abbrev pub FullBefore : Store → ℕ → ℕ → ℕ → Type 0
FullBefore st r0 r c =
    (r' c' : ℕ)
    → r0 ≤ r'
    → c' < s
    → (r' < r) ⊎ ((r' ≡ r) × (c' < c))
    → is_unassigned (st.cells (flat r' c')) ≡ false

-- The cell is the first unassigned one from row r0 on, or no cell is given and there is none.
abbrev pub First : Store → ℕ → Option Cell → Type 0
First st r0 none = FullBefore st r0 s 0
First st r0 (some (r, c)) =
    (r0 ≤ r)
    × (r < s)
    × (c < s)
    × (is_unassigned (st.cells (flat r c)) ≡ true)
    × FullBefore st r0 r c

-- The scan's first row: no cell of a row before it is unassigned.
abbrev pub Hint : Store → Brancher → Type 0
Hint st b = FullBefore st 0 b.min_unassigned_row 0

module _ (t : Ltp) (st : Store) (k : Consistent t st) where
  -- A full row before the rest.
  First-next :
      (r : ℕ) (x : Option Cell) → r < s → RowFull st r 0 s → First st (r + 1) x → First st r x
  First-next r none h full rest = λ r' c' a b before. elim (dec_lt r r') [
    | yes more ↦ rest r' c' (omega arith) b before
    | no same ↦
        ap (λ (i : ℕ). is_unassigned (st.cells (flat i c'))) {x = r'} {y = r} (omega arith)
        ∙ full c' (omega arith) b
  ]
  First-next r (some (r1, c1)) h full (a, b, c, free, rest) = (
    omega arith,
    b,
    c,
    free,
    λ r' c' lo hi before. elim (dec_lt r r') [
      | yes more ↦ rest r' c' (omega arith) hi before
      | no same ↦
          ap (λ (i : ℕ). is_unassigned (st.cells (flat i c'))) {x = r'} {y = r} (omega arith)
          ∙ full c' (omega arith) hi
    ],
  )

  First-found : (r : ℕ) (p : Cell) → r < s → RowFirst t st k r (some p) → First st r (some p)
  First-found r (r1, c1) h (same, b, free, full) = (
    omega arith,
    omega arith,
    b,
    free,
    λ r' c' lo hi before.
        ap (λ (i : ℕ). is_unassigned (st.cells (flat i c'))) {x = r'} {y = r} (omega arith)
        ∙ full c' (omega arith) (omega arith),
  )

  Option-cases : (x : Option Cell) → (x ≡ none) ⊎ ((p : Cell) × (x ≡ some p))
  Option-cases none = inl refl
  Option-cases (some p) = inr (p, refl)

  scan_rows-First : (n r : ℕ) → r + n ≡ s → First st r (scan_rows st r n)
  unfolding scan_rows
  scan_rows-First zero r e = λ r' c' a b before. absurd (omega arith)
  scan_rows-First (suc n) r e =
      let rest = scan_rows-First n (r + 1) (omega arith) in
      elim (dec_lt 0 (st.stats r).unknown) [
        | no none_left ↦
            rw (is_zero (st.stats r).unknown (omega arith))
              (First-next r _ (omega arith) (row_skipped t st k r (omega arith) (omega arith)) rest)
        | yes some_left ↦ elim (Option-cases (scan_words st r 0 2)) [
          | inl miss ↦
              rw (not_zero (st.stats r).unknown some_left, miss)
                (First-next r _ (omega arith) (rw miss at (scan_words-RowFirst t st k r)) rest)
          | inr (p, hit) ↦
              rw (not_zero (st.stats r).unknown some_left, hit)
                (First-found r p (omega arith) (rw hit at (scan_words-RowFirst t st k r)))
        ]
      ]

  First-extend : (r : ℕ) (x : Option Cell) → FullBefore st 0 r 0 → First st r x → First st 0 x
  First-extend r none hint rest = λ r' c' a b before. elim (dec_lt r' r) [
    | yes less ↦ hint r' c' a b (inl less)
    | no more ↦ rest r' c' (omega arith) b before
  ]
  First-extend r (some (r1, c1)) hint (a, b, c, free, rest) = (
    omega arith,
    b,
    c,
    free,
    λ r' c' lo hi before. elim (dec_lt r' r) [
      | yes less ↦ hint r' c' lo hi (inl less)
      | no more ↦ rest r' c' (omega arith) hi before
    ],
  )

  next_cell-none :
      (b : Brancher)
      → get_first_unassigned st b.min_unassigned_row ≡ none
      → next_cell st b ≡ (none, b)
  unfolding next_cell
  next_cell-none b h = rw (h, next_cell) refl

  next_cell-some :
      (b : Brancher) (p : Cell)
      → get_first_unassigned st b.min_unassigned_row ≡ some p
      → next_cell st b ≡ (some p, record b { min_unassigned_row = p.0 })
  unfolding next_cell
  next_cell-some b p h = rw (h, next_cell) refl

  get_first_unassigned-First :
      (start : ℕ) → start ≤ s → FullBefore st 0 start 0 → First st 0 (get_first_unassigned st start)
  unfolding get_first_unassigned
  get_first_unassigned-First start le hint =
      First-extend start _ hint (scan_rows-First (s - start) start (omega arith))

  -- On a consistent store, if no row before the scan's first row has an unassigned cell, then
  -- `nextCell` gives the first unassigned cell in row-major order, or none if every cell is assigned,
  -- and moves the first row so that this stays true of it.
  pub next_cell-First :
      (b : Brancher)
      → b.min_unassigned_row ≤ s
      → Hint st b
      → First st 0 (next_cell st b).0 × Hint st (next_cell st b).1
  next_cell-First b le hint =
      let first = get_first_unassigned-First b.min_unassigned_row le hint in
      elim (Option-cases (get_first_unassigned st b.min_unassigned_row)) [
        | inl miss ↦ rw (next_cell-none b miss) (rw miss at first, hint)
        | inr (p, hit) ↦
            let found : First st 0 (some (p.0, p.1)) = rw hit at first in
            rw (next_cell-some b p hit)
              (found, λ r' c' lo hi before. found.4 r' c' lo hi (inl (omega arith)))
      ]

  -- The two answers of `nextCell`.
  pub next_cell-cases :
      (b : Brancher)
      → b.min_unassigned_row ≤ s
      → Hint st b
      → ((next_cell st b ≡ (none, b)) × FullBefore st 0 s 0)
        ⊎ ((p : Cell) × (next_cell st b ≡ (some p, record b { min_unassigned_row = p.0 }))
            × (p.0 < s)
            × (p.1 < s)
            × (is_unassigned (st.cells (flat p.0 p.1)) ≡ true)
            × Hint st (record b { min_unassigned_row = p.0 })
            × FullBefore st 0 p.0 p.1)
  next_cell-cases b le hint =
      let first = get_first_unassigned-First b.min_unassigned_row le hint in
      elim (Option-cases (get_first_unassigned st b.min_unassigned_row)) [
        | inl miss ↦ inl (next_cell-none b miss, rw miss at first)
        | inr (p, hit) ↦
            let found : First st 0 (some (p.0, p.1)) = rw hit at first in
            inr (
              p,
              next_cell-some b p hit,
              found.1,
              found.2,
              found.3,
              λ r' c' lo hi before. found.4 r' c' lo hi (inl (omega arith)),
              found.4,
            )
      ]
