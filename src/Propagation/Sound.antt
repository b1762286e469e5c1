-- ===== src/Propagation/Sound.antt =====
-- Propagation against the matrices that have the target sums: it ends, and loses none of them.
use crsce.Prelude.{
  ℕ, ◌<◌, ◌≡◌, arith, Bool, true, not, List, [], ◌∷◌, ◌==◌, All, Bool-cases, inl, inr,
}
use crsce.Lines.{Ltp, IsLtp, Cell, InMatrix, s}
use crsce.Store.{CellState, Store, flat, is_unassigned, assign}
use crsce.Store.Consistent.{Consistent, assign-stats}
use crsce.Propagation.{Engine, force_cell, force_cells}
use crsce.Propagation.Judge.{Matrix, IsSolution, Agrees, Forced}
use crsce.Propagation.Forcing.{Safe, Solved, force_cell-store, force_cell-skip, force_cell-Safe}

module _ (t : Ltp) (ok : IsLtp t) (m : Matrix) (v line : ℕ) where
  -- A cell forced to the solution's value.
  assign-Solved :
      (r c : ℕ) (hr : r < s) (hc : c < s) (st : Store)
      → Consistent t st
      → IsSolution t st m
      → Agrees st m
      → is_unassigned (st.cells (flat r c)) ≡ true
      → m r c ≡ not (v == 0)
      → IsSolution t (assign t st r c v) m × Agrees (assign t st r c v) m
  assign-Solved r c hr hc st k sol agrees h e = (
    record { sums = λ i hi. rw (assign-stats t ok st k r c hr hc v h i hi) (sol.sums i hi) },
    record { at = unfold assign in λ r' c' hr' hc'. ground (arith, agrees.at r' c' hr' hc', e) },
  )

  force_cell-Solved :
      (r c : ℕ)
      → r < s
      → c < s
      → (e : Engine) → Safe t e
      → Solved t m e
      → (is_unassigned (e.store.cells (flat r c)) ≡ true → m r c ≡ not (v == 0))
      → Solved t m (force_cell t v line (r, c) e)
  force_cell-Solved r c hr hc e safe solved h =
      elim (Bool-cases (is_unassigned (e.store.cells (flat r c)))) [
        | inl u ↦
            let (sol, agrees) =
              assign-Solved r c hr hc e.store safe.consistent solved.solution solved.agrees u
                (h u) in
            record {
              solution = rw (force_cell-store t ok v line r c hr hc e safe u) sol;
              agrees = rw (force_cell-store t ok v line r c hr hc e safe u) agrees;
            }
        | inr a ↦ rw (force_cell-skip t ok v line r c hr hc e safe a) solved
      ]

  assign_only :
      (r c : ℕ) (st : Store) (x : ℕ)
      → is_unassigned ((assign t st r c v).cells x) ≡ true
      → is_unassigned (st.cells x) ≡ true
  unfolding assign
  assign_only r c st x h = ground arith

  -- No step turns an assigned cell into an unassigned one.
  still_unassigned :
      (r c : ℕ)
      → r < s
      → c < s
      → (e : Engine) → Safe t e
      → (x : ℕ) → is_unassigned ((force_cell t v line (r, c) e).store.cells x) ≡ true
      → is_unassigned (e.store.cells x) ≡ true
  still_unassigned r c hr hc e safe x h =
      elim (Bool-cases (is_unassigned (e.store.cells (flat r c)))) [
        | inl u ↦
            assign_only r c e.store x (rw (force_cell-store t ok v line r c hr hc e safe u) at h)
        | inr a ↦ rw (force_cell-skip t ok v line r c hr hc e safe a) at h
      ]

  Forced-mono :
      (f g : ℕ → CellState) (b : Bool) (ps : List Cell)
      → ((x : ℕ) → is_unassigned (g x) ≡ true → is_unassigned (f x) ≡ true)
      → Forced f m b ps
      → Forced g m b ps
  Forced-mono f g b [] h a = tt
  Forced-mono f g b (p ∷ ps) h a = (λ u. a.0 (h _ u), Forced-mono f g b ps h a.1)

  -- Forcing a line's cells to the solution's values keeps the solution.
  pub force_cells-Solved :
      (ps : List Cell) (e : Engine)
      → All InMatrix ps
      → Safe t e
      → Solved t m e
      → Forced e.store.cells m (not (v == 0)) ps
      → Solved t m (force_cells t v line ps e)
  unfolding force_cells
  force_cells-Solved [] e a safe solved f = solved
  force_cells-Solved ((r, c) ∷ ps) e a safe solved f =
      let e' = force_cell t v line (r, c) e in
      force_cells-Solved ps e' a.1 (force_cell-Safe t ok v line r c a.0.0 a.0.1 e safe).0
        (force_cell-Solved r c a.0.0 a.0.1 e safe solved f.0)
        (Forced-mono e.store.cells e'.store.cells (not (v == 0)) ps
          (still_unassigned r c a.0.0 a.0.1 e safe) f.1)
