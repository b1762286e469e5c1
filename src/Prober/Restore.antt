-- ===== src/Prober/Restore.antt =====
-- Probing a value takes everything back that it assigned, when propagation accepts the value.
use crsce.Prelude.{
  ℕ, ◌+◌, ◌*◌, ◌<◌, ◌≡◌, refl, ap, ◌∙◌, ◌⊎◌, inl, inr, arith, Bool, true, false, Option, none, some,
  [], ◌∷◌, Bool-cases,
}
use crsce.Lines.{Ltp, IsLtp, s, lines_for_cell}
use crsce.Store.{Store, flat, is_unassigned, state_of, assign}
use crsce.Store.Consistent.{Consistent}
use crsce.Store.Steps.{assign-Consistent}
use crsce.Propagation.{Engine, try_propagate_cell, scan, fast_indices, reset_forced}
use crsce.Propagation.Force.{free_below, free_below-update, lines_for_cell-IsLine}
use crsce.Branching.{Brancher, record_assignment, record_all, undo_to_save_point, save_undo_point}
use crsce.Branching.Undo.{lowest, replay, undo_to_save_point-replay}
use crsce.Prober.{World, place, undo, hash_ok, try_probe_value}
use crsce.Prober.Record.{Recorded, propagate-Recorded}

Scan-cases : (x : Option Bool) → (x ≡ none) ⊎ ((x ≡ some false) ⊎ (x ≡ some true))
Scan-cases none = inl refl
Scan-cases (some false) = inr (inl refl)
Scan-cases (some true) = inr (inr refl)

-- The two ways in which a probe ends: feasible with everything taken back, or infeasible.
abbrev pub Probes : World → Option (Bool × World) → World → Type 0
Probes w result w' =
    ((result ≡ some (true, w'))
      × (w'.engine.store ≡ w.engine.store)
      × (w'.brancher.undo_stack ≡ w.brancher.undo_stack))
    ⊎ (result ≡ some (false, w'))

module _ (t : Ltp) (ok : IsLtp t) where
  -- The fast path ends, and records what it assigns.
  pub try_propagate_cell-Recorded :
      (st : Store) (b b' : Brancher) (fuel r c : ℕ) (e : Engine)
      → r < s
      → c < s
      → Consistent t e.store
      → 10 + 10 * free_below 16129 e.store.cells < fuel
      → Recorded t ok st b.undo_stack b' (reset_forced t e)
      → (a : Bool) × (e' : Engine) × (try_propagate_cell t fuel r c e ≡ some (a, e'))
        × Recorded t ok st b.undo_stack b' e'
  unfolding try_propagate_cell
  try_propagate_cell-Recorded st b b' fuel r c e hr hc k enough rec =
      elim (Scan-cases (scan t (reset_forced t e).store (fast_indices t r c) false)) [
        | inl h ↦ (false, reset_forced t e, rw (h, try_propagate_cell) refl, rec)
        | inr (inl h) ↦ (true, reset_forced t e, rw (h, try_propagate_cell) refl, rec)
        | inr (inr h) ↦
            let lines = lines_for_cell-IsLine t ok r c hr hc in
            let run =
              propagate-Recorded t ok st b.undo_stack b' fuel (lines_for_cell t r c)
                (reset_forced t e)
                (unfold reset_forced in record { consistent = k; lines = lines.0 })
                (unfold reset_forced in omega (arith, lines.1)) rec in
            (run.0, run.1, rw (h, try_propagate_cell) run.2, run.3)
      ]

  module _ (w : World) (k : Consistent t w.engine.store) (r c v : ℕ) (hr : r < s) (hc : c < s)
      (h : is_unassigned (w.engine.store.cells (flat r c)) ≡ true) where
    placed-Recorded :
        Recorded t ok w.engine.store w.brancher.undo_stack
          (place t r c v w).brancher
          (reset_forced t (place t r c v w).engine)
    unfolding place reset_forced record_all record_assignment
    placed-Recorded = record {
      moves = (r, c, v) ∷ [];
      store_right = refl;
      playable = (tt, hr, hc, h);
      stack_right = refl;
    }

    -- Undoing what was recorded gives back the store and the stack.
    undo-Recorded :
        (e : Engine)
        → Recorded t ok w.engine.store w.brancher.undo_stack (place t r c v w).brancher e
        → (m : ℕ) × (undo_to_save_point t
              (save_undo_point w.brancher)
              e.store
              (record_all e.forced (place t r c v w).brancher)
            ≡ (
              w.engine.store,
              record { undo_stack = w.brancher.undo_stack; min_unassigned_row = m },
            ))
    undo-Recorded e rec =
        let recorded = record_all e.forced (place t r c v w).brancher in
        let low = recorded.min_unassigned_row in
        (
          lowest rec.moves low,
          ap (λ x. undo_to_save_point t (save_undo_point w.brancher) x recorded) rec.store_right
              ∙ ap
                  (λ x.
                    undo_to_save_point t (save_undo_point w.brancher)
                      (replay t w.engine.store rec.moves)
                      (record { undo_stack = x; min_unassigned_row = low }))
                  rec.stack_right
              ∙ undo_to_save_point-replay t ok w.engine.store k rec.moves w.brancher low
                  rec.playable,
        )

    -- On a consistent store and an unassigned cell of the matrix, and with enough fuel, a probe ends;
    -- and if it finds the value feasible then it leaves the store and the undo stack as they were.
    pub try_probe_value-restores :
        (verify_row : ℕ → (ℕ → ℕ) → Bool) (fuel : ℕ)
        → 10 + 10 * free_below 16129 w.engine.store.cells < fuel
        → (w' : World) × Probes w (try_probe_value verify_row t fuel r c v w) w'
    unfolding try_probe_value
    try_probe_value-restores verify_row fuel enough = by_outcome (
        try_propagate_cell-Recorded w.engine.store w.brancher (place t r c v w).brancher fuel r c
          (place t r c v w).engine hr hc
          (unfold place in assign-Consistent t ok w.engine.store k r c hr hc v h)
          (unfold place assign in
            omega (
              arith,
              free_below-update 16129 (flat r c) w.engine.store.cells (state_of v) h state_of_lem,
            ))
          placed-Recorded)
      where
        state_of_lem : is_unassigned (state_of v) ≡ false
        state_of_lem = ground arith

        by_outcome :
            ((a : Bool) × (e' : Engine) × (try_propagate_cell t fuel r c (place t r c v w).engine
                ≡ some (a, e'))
              × Recorded t ok w.engine.store w.brancher.undo_stack (place t r c v w).brancher e')
            → (w' : World) × Probes w (try_probe_value verify_row t fuel r c v w) w'
        by_outcome (false, e, run, rec) = (
          undo t (save_undo_point w.brancher)
              (record { engine = e; brancher = (place t r c v w).brancher }),
          inr (rw (run, try_probe_value) refl),
        )
        by_outcome (true, e, run, rec) =
            let (m, undone) = undo-Recorded e rec in
            let w' =
              undo t (save_undo_point w.brancher) (record {
                engine = e;
                brancher = record_all e.forced (place t r c v w).brancher;
              }) in
            (
              w',
              elim (Bool-cases (hash_ok verify_row e.store r e.forced)) [
                | inl good ↦ inl (
                  rw (run, try_probe_value, good) refl,
                  unfold undo in (ap (λ q. q.0) undone),
                  unfold undo in (ap (λ q. q.1.undo_stack) undone),
                )
                | inr bad ↦ inr (rw (run, try_probe_value, bad) refl)
              ],
            )
