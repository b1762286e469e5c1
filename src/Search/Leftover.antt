-- ===== src/Search/Leftover.antt =====
-- What stays assigned when the propagation of a value gives up and the value is undone
-- (EnumerationController_enumerateSolutionsLex.cpp and FailedLiteralProber_tryProbeValue.cpp: only the
-- forced cells of a propagation that succeeds are recorded).
use crsce.Prelude.{
  ℕ, ◌+◌, ◌<◌, ◌≡◌, refl, ap, ◌∙◌, sym, subst, arith, Bool, true, false, Option, none, some, List,
  [], ◌∷◌, length,
}
use crsce.Lines.{Ltp, IsLtp, s}
use crsce.Store.{flat, is_unassigned, unassign}
use crsce.Propagation.{Assignment, Engine, try_propagate_cell}
use crsce.Propagation.Force.{free_below, free_below-le}
use crsce.Branching.{Brancher, save_undo_point, record_assignment, record_all, undo_to_save_point}
use crsce.Prober.{World, place, undo, try_probe_value}
use crsce.Prober.Restore.{try_propagate_cell-Recorded}
use crsce.Search.Trail.{Tracks, room, unassign-free, undo_entries-append}
use crsce.Search.Try.{placed-Tracks, started-Recorded, Recorded-Tracks}

length-record_all :
    (xs : List Assignment) (b : Brancher)
    → length (record_all xs b).undo_stack ≡ length xs + length b.undo_stack
unfolding record_all record_assignment
length-record_all [] b = omega arith
length-record_all (x ∷ xs) b = omega (arith, length-record_all xs (record_assignment x.r x.c b))

pub answer_unique :
    {x : Option (Bool × Engine)} {a a' : Bool} {e e' : Engine}
    → x ≡ some (a, e)
    → x ≡ some (a', e')
    → e ≡ e'
answer_unique {e} p q =
    ap (λ (x : Option (Bool × Engine)). elim x [ none ↦ e | some y ↦ y.1 ]) (sym p ∙ q)

-- The world that is left when a value whose propagation gave up is undone.
abbrev pub failed_world : Ltp → World → ℕ → ℕ → ℕ → Engine → World
failed_world t w r c v e =
    undo t (save_undo_point w.brancher)
      (record { engine = e; brancher = (place t r c v w).brancher })

module _ (t : Ltp) (ok : IsLtp t) (w : World) (r c v : ℕ) (k : Tracks t w.engine.store w.brancher)
    (hr : r < s) (hc : c < s) (h : is_unassigned (w.engine.store.cells (flat r c)) ≡ true)
    (fuel : ℕ) (enough : 161300 < fuel) where
  -- The engine after the failed propagation has as many cells fewer as were forced.
  failed-free :
      (a : Bool) (e : Engine)
      → try_propagate_cell t fuel r c (place t r c v w).engine ≡ some (a, e)
      → Tracks t e.store (place t r c v w).brancher
        × (free_below 16129 e.store.cells + length e.forced + 1
            ≡ free_below 16129 w.engine.store.cells)
  unfolding room
  failed-free a e run =
      let facts = placed-Tracks t ok w r c v k hr hc h in
      let found =
        try_propagate_cell-Recorded t ok (place t r c v w).engine.store (place t r c v w).brancher
          (place t r c v w).brancher fuel r c (place t r c v w).engine hr hc facts.0.consistent
          (omega (arith, free_below-le 16129 (place t r c v w).engine.store.cells, enough))
          (started-Recorded t ok w r c v k hr hc h) in
      subst
        (λ (x : Engine).
          Tracks t x.store (place t r c v w).brancher
          × (free_below 16129 x.store.cells + length x.forced + 1
              ≡ free_below 16129 w.engine.store.cells))
        (answer_unique found.2 run)
        (
          (Recorded-Tracks t ok (place t r c v w).engine.store (place t r c v w).brancher facts.0
              found.1 found.3).3,
          omega (
            arith,
            facts.1,
            ap length facts.2,
            length-record_all found.1.forced (place t r c v w).brancher,
            (Recorded-Tracks t ok (place t r c v w).engine.store (place t r c v w).brancher facts.0
                found.1 found.3).2,
          ),
        )

  failed-store : (e : Engine) → (failed_world t w r c v e).engine.store ≡ unassign t e.store r c
  unfolding undo undo_to_save_point save_undo_point place record_assignment
  failed-store e =
      ap (λ x. x.0)
        (undo_entries-append t ok [] w.brancher.undo_stack r c e.store
          w.brancher.min_unassigned_row)

  -- On a world that the search can stand in, for an unassigned cell of the matrix and with enough fuel:
  -- if propagation gives up on a value then the probe answers false, and after its undo there are as
  -- many unassigned cells fewer than before as propagation forced: they are not taken back.
  pub try_probe_value-forced :
      (verify_row : ℕ → (ℕ → ℕ) → Bool) (e : Engine)
      → try_propagate_cell t fuel r c (place t r c v w).engine ≡ some (false, e)
      → (try_probe_value verify_row t fuel r c v w ≡ some (false, failed_world t w r c v e))
        × (free_below 16129 (failed_world t w r c v e).engine.store.cells + length e.forced
            ≡ free_below 16129 w.engine.store.cells)
  unfolding try_probe_value
  try_probe_value-forced verify_row e run =
      let (tracks, count) = failed-free false e run in
      (
        rw (run, try_probe_value) refl,
        rw (failed-store e) (
            omega (
              arith,
              count,
              unassign-free t ok e.store r c w.brancher.undo_stack w.brancher.min_unassigned_row
                  (unfold place record_assignment in tracks),
            )),
      )
