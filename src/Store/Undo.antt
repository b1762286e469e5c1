-- ===== src/Store/Undo.antt =====
-- `unassign` undoes `assign`, in every field and every word.
use crsce.Prelude.{
  ℕ, ◌-◌, ◌/◌, ◌%◌, ◌≤◌, ◌<◌, ◌≡◌, refl, fun_ext, inr, arith, true, List, [], ◌∷◌, count, update,
}
use crsce.Bits.{clear_bit-set_bit}
use crsce.Lines.{Ltp, IsLtp, s, basic_lines, total_lines, line_indices}
use crsce.Lines.Incidence.{count_outside}
use crsce.Store.{
  Store, LineStat, flat, is_unassigned, assign, unassign, for_lines, dec_unknown, inc_unknown,
  inc_assigned, dec_assigned,
}
use crsce.Store.Consistent.{Consistent, count-le-unknown, assign-stats, unassign-stats}
use crsce.Store.Steps.{assign-Consistent}
use native.Mathlib.Decide.{dec_lt}

-- Two stores with the same arrays are the same.
pub store_eq :
    {a b : Store}
    → ((i : ℕ) → a.cells i ≡ b.cells i)
    → ((i : ℕ) → a.stats i ≡ b.stats i)
    → ((r w : ℕ) → a.row_bits r w ≡ b.row_bits r w)
    → ((r w : ℕ) → a.assigned r w ≡ b.assigned r w)
    → a ≡ b
store_eq p q x y = λ i. record {
  cells = fun_ext p i;
  stats = fun_ext q i;
  row_bits = fun_ext (λ r. fun_ext (x r)) i;
  assigned = fun_ext (λ r. fun_ext (y r)) i;
}

for_lines_untouched :
    (step : LineStat → LineStat) (is : List ℕ) (stats : ℕ → LineStat) (i : ℕ)
    → count i is ≡ 0
    → for_lines step is stats i ≡ stats i
unfolding for_lines
for_lines_untouched step [] stats i h = refl
for_lines_untouched step (j ∷ is) stats i h =
    ground (arith, for_lines_untouched step is (update stats j (step (stats j))) i)

module _ (t : Ltp) (ok : IsLtp t) where
  count_beyond : (i r c : ℕ) → r < s → c < s → total_lines ≤ i → count i (line_indices t r c) ≡ 0
  unfolding line_indices
  count_beyond i r c hr hc h =
      ground (arith, count_outside i basic_lines total_lines _ (ok.members_range r c hr hc) (inr h))

  module _ (st : Store) (k : Consistent t st) (r c v : ℕ) (hr : r < s) (hc : c < s) where
    beyond : (i : ℕ) → total_lines ≤ i → (unassign t (assign t st r c v) r c).stats i ≡ st.stats i
    unfolding assign unassign
    beyond i h =
        let is = line_indices t r c in
        let none = count_beyond i r c hr hc h in
        let a = for_lines dec_unknown is st.stats in
        let b = for_lines inc_assigned is a in
        ground (
          arith,
          for_lines_untouched dec_unknown is st.stats i none,
          for_lines_untouched inc_assigned is a i none,
          for_lines_untouched inc_unknown is a i none,
          for_lines_untouched inc_unknown is b i none,
          for_lines_untouched dec_assigned is (for_lines inc_unknown is b) i none,
        )

    stats_restored :
        is_unassigned (st.cells (flat r c)) ≡ true
        → (i : ℕ) → (unassign t (assign t st r c v) r c).stats i ≡ st.stats i
    stats_restored e i = elim (dec_lt i total_lines) [
      | yes h ↦
          rw
            (
              unassign-stats t ok (assign t st r c v) (assign-Consistent t ok st k r c hr hc v e) r
                  c hr hc (unfold assign in (ground arith)) i h,
              assign-stats t ok st k r c hr hc v e i h,
            )
            (unfold assign in (ground (arith, count-le-unknown t ok st k r c hr hc e i h)))
      | no h ↦ beyond i (omega arith)
    ]

    -- Assigning an unassigned cell and unassigning it gives the store back, whatever the value.
    pub unassign-assign :
        is_unassigned (st.cells (flat r c)) ≡ true → unassign t (assign t st r c v) r c ≡ st
    unassign-assign e =
        store_eq (unfold assign unassign in λ i. ground arith) (stats_restored e)
          (unfold assign unassign in
            λ r' w. ground (
              arith,
              k.row_bit r c hc,
              clear_bit-set_bit 64 (st.row_bits r (c / 64)) (63 - c % 64) (omega arith)
                  (k.row_word r (c / 64)),
            ))
          (unfold assign unassign in
            λ r' w. ground (
              arith,
              k.assigned_bit r c hc,
              clear_bit-set_bit 64 (st.assigned r (c / 64)) (c % 64) (omega arith)
                  (k.assigned_word r (c / 64)),
            ))
