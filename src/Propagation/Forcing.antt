-- ===== src/Propagation/Forcing.antt =====
-- One forced cell, and all the cells of a forced line.
use crsce.Prelude.{
  ℕ, ◌≤◌, ◌<◌, ◌≡◌, arith, true, false, List, [], ◌∷◌, ◌++◌, All, Bool-cases, inl, inr,
}
use crsce.Lines.{Ltp, IsLtp, Cell, InMatrix, s, lines_for_cell, IsLine}
use crsce.Store.{flat, is_unassigned, state_of, get_cell_state, assign}
use crsce.Store.Consistent.{Consistent}
use crsce.Store.Steps.{assign-Consistent}
use crsce.Propagation.{Engine, enqueue, force_cell, force_cells}
use crsce.Propagation.Judge.{Matrix, IsSolution, Agrees}
use crsce.Propagation.Force.{free_below-update, measure, enqueue_facts, lines_for_cell-IsLine}

-- The store is consistent, and only lines of the system wait.
pub record Safe (t : Ltp) (e : Engine) : Type 0 where
  pub consistent : Consistent t e.store
  pub lines : All IsLine e.work

-- A solution that has the value of every assigned cell.
pub record Solved (t : Ltp) (m : Matrix) (e : Engine) : Type 0 where
  pub solution : IsSolution t e.store m
  pub agrees : Agrees e.store m

module _ (t : Ltp) (ok : IsLtp t) (v line : ℕ) where
  module _ (r c : ℕ) (hr : r < s) (hc : c < s) (e : Engine) (safe : Safe t e) where
    after_assign : Engine
    after_assign = record e {
      store = assign t e.store r c v;
      forced = e.forced ++ (record { r = r; c = c; value = v; antecedent_line = line } ∷ []);
    }

    pub force_cell-store :
        is_unassigned (e.store.cells (flat r c)) ≡ true
        → (force_cell t v line (r, c) e).store ≡ assign t e.store r c v
    unfolding force_cell after_assign
    force_cell-store h =
        let lines = lines_for_cell-IsLine t ok r c hr hc in
        rw h (enqueue_facts (lines_for_cell t r c) after_assign lines.0 safe.lines).0

    pub force_cell-skip :
        is_unassigned (e.store.cells (flat r c)) ≡ false → force_cell t v line (r, c) e ≡ e
    unfolding force_cell
    force_cell-skip h = rw h

    enqueued : (enqueue (lines_for_cell t r c) after_assign).store ≡ after_assign.store
    unfolding after_assign
    enqueued =
        (enqueue_facts (lines_for_cell t r c) after_assign (lines_for_cell-IsLine t ok r c hr hc).0
          safe.lines).0

    assigned-Safe :
        is_unassigned (e.store.cells (flat r c)) ≡ true
        → Safe t (enqueue (lines_for_cell t r c) after_assign)
          × (measure (enqueue (lines_for_cell t r c) after_assign) ≤ measure e)
    unfolding measure after_assign
    assigned-Safe h =
        let lines = lines_for_cell-IsLine t ok r c hr hc in
        let facts = enqueue_facts (lines_for_cell t r c) after_assign lines.0 safe.lines in
        (
          record {
            consistent = rw enqueued (assign-Consistent t ok e.store safe.consistent r c hr hc v h);
            lines = facts.2;
          },
          rw enqueued (
              unfold assign in
              (ground (
                arith,
                facts.3,
                lines.1,
                free_below-update 16129 (flat r c) e.store.cells (state_of v) h,
              ))),
        )

    -- One cell: the store stays consistent, only lines of the system wait, no more is left to do.
    pub force_cell-Safe :
        Safe t (force_cell t v line (r, c) e) × (measure (force_cell t v line (r, c) e) ≤ measure e)
    force_cell-Safe = elim (Bool-cases (is_unassigned (e.store.cells (flat r c)))) [
      | inl h ↦ unfold force_cell get_cell_state after_assign in rw h (assigned-Safe h)
      | inr h ↦ rw (force_cell-skip h) (safe, omega arith)
    ]

  pub force_cells-Safe :
      (ps : List Cell) (e : Engine)
      → All InMatrix ps
      → Safe t e
      → Safe t (force_cells t v line ps e) × (measure (force_cells t v line ps e) ≤ measure e)
  unfolding force_cells
  force_cells-Safe [] e a safe = (safe, omega arith)
  force_cells-Safe ((r, c) ∷ ps) e a safe =
      let head = force_cell-Safe r c a.0.0 a.0.1 e safe in
      let rest = force_cells-Safe ps (force_cell t v line (r, c) e) a.1 head.0 in
      (rest.0, omega (arith, head.1, rest.1))
