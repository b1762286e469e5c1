-- ===== src/LtpTable/Single.antt =====
-- A table from one supplied sub-table: the lines of LTP2 are left as they were initialised.
use crsce.Prelude.{
  ℕ, zero, suc, ◌+◌, ◌*◌, ◌≤◌, ◌≡◌, ◌≢◌, inl, inr, refl, ◌∙◌, arith, some, List, [], ◌∷◌, map,
  range, length, count, update, Bool-cases,
}
use mathlib.Core.Path.{subst}
use crsce.Lines.{IsLtp, Cell, s, basic_lines, count_cell, members}
use crsce.LtpTable.{
  LtpData, empty_data, build_csr_offsets, write_entry, fill_assigned, is_balanced,
  build_from_assignment, table_of,
}

fill_assigned-others :
    (sub base flat : ℕ) (ls : List ℕ) (write_pos : ℕ → ℕ) (d : LtpData) (j x : ℕ)
    → j ≢ sub
    → ((fill_assigned sub base flat ls write_pos d).csr_cells j x ≡ d.csr_cells j x)
      × ((fill_assigned sub base flat ls write_pos d).csr_offsets ≡ d.csr_offsets)
unfolding fill_assigned write_entry
fill_assigned-others sub base flat [] write_pos d j x h = (refl, refl)
fill_assigned-others sub base flat (l ∷ ls) write_pos d j x h = ground (
  arith,
  fill_assigned-others sub base (flat + 1) ls (update write_pos l (write_pos l + 1))
      (write_entry sub (base + l) (write_pos l) flat d) j x h,
)

count_cell-origins :
    (entries : ℕ → Cell) (lo n : ℕ)
    → ((x : ℕ) → entries x ≡ (0, 0))
    → count_cell (0, 0) (map entries (range lo n)) ≡ n
unfolding range
count_cell-origins entries lo zero h = refl
count_cell-origins entries lo (suc n) h =
    ground (arith, h lo, count_cell-origins entries (lo + 1) n h)

count-le-length : (i : ℕ) (ls : List ℕ) → count i ls ≤ length ls
count-le-length i [] = omega arith
count-le-length i (l ∷ ls) = ground (arith, count-le-length i ls)

length-map-range : (f : ℕ → ℕ) (lo n : ℕ) → length (map f (range lo n)) ≡ n
unfolding range
length-map-range f lo zero = refl
length-map-range f lo (suc n) = omega (arith, length-map-range f (lo + 1) n)

-- Nothing of sub-table 1 is written: its line 0 is the cell (0, 0), 127 times.
not_table : (d : LtpData) → ((x : ℕ) → d.csr_cells 1 x ≡ (0, 0)) → ¬ IsLtp (table_of d)
unfolding table_of
not_table d same ok = absurd (
    omega (
      arith,
      count_cell-origins (d.csr_cells 1) (d.csr_offsets 1 0) 127 same,
      ok.incident 0 0 1 0 (omega arith) (omega arith) (omega arith) (omega arith),
      count-le-length (basic_lines + 1 * s + 0) (members (d.fwd 0)),
      length-map-range (d.fwd 0).flat 0 (d.fwd 0).count,
      ok.count_small 0 0,
    ))

-- If a single sub-table is supplied and accepted, then the table that is built does not meet the
-- interface of the constraint store, whatever the sub-table is.
pub build_from_assignment-single :
    (ls1 ls2 : List ℕ) (d : LtpData)
    → build_from_assignment 1 ls1 ls2 ≡ some d
    → ¬ IsLtp (table_of d)
unfolding build_from_assignment
build_from_assignment-single ls1 ls2 d h = elim (Bool-cases (is_balanced ls1)) [
  | inr bad ↦ absurd (ground (arith, bad))
  | inl good ↦
      let built =
        fill_assigned 0 basic_lines 0 ls1 build_csr_offsets (empty_data build_csr_offsets) in
      let e : built ≡ d = ground (arith, good) in
      subst (λ x. ¬ IsLtp (table_of x)) e
        (not_table built (λ x.
          (fill_assigned-others 0 basic_lines 0 ls1 build_csr_offsets (empty_data build_csr_offsets)
            1 x (omega arith)).0
          ∙ unfold empty_data in refl))
]
