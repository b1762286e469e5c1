-- ===== src/Search/Try.antt =====
-- Trying a value: the store, the stack, and the cells that propagation forces.
use crsce.Prelude.{
  ℕ, ◌+◌, ◌≤◌, ◌<◌, ◌≡◌, refl, ap, ◌∙◌, sym, subst, arith, Bool, true, false, some, List, [], ◌∷◌,
  ◌++◌, length, length-append, All,
}
use crsce.Lines.{Ltp, IsLtp, Cell, s}
use native.Mathlib.Decide.{dec_lt}
use crsce.Store.{CellState, Store, flat, is_unassigned, state_of, assign}
use crsce.Search.Lex.{Assigned, Same}
use crsce.Propagation.{Assignment, Engine, try_propagate_cell, reset_forced}
use crsce.Propagation.Force.{free_below, free_below-le}
use crsce.Branching.{Brancher, record_assignment, record_all}
use crsce.Branching.Undo.{Move, replay, entries, Playable}
use crsce.Prober.{World, place, hash_ok}
use crsce.Prober.Record.{Recorded}
use crsce.Prober.Restore.{try_propagate_cell-Recorded}
use crsce.Search.{try_value}
use crsce.Search.Trail.{
  Tracks, Extends, IsTrail-Extends, room, assign-Tracks, assign-Extends, assign-free,
}

record_all_row :
    (xs : List Assignment) (b : Brancher)
    → (record_all xs b).min_unassigned_row ≡ b.min_unassigned_row
unfolding record_all record_assignment
record_all_row [] b = refl
record_all_row (x ∷ xs) b = record_all_row xs (record_assignment x.r x.c b)

-- If all cells before (r, c) were assigned, then they stay, the cell has the value v, and what was
-- recorded above it are later cells.
abbrev pub Later : (r c v : ℕ) (f f' : ℕ → CellState) → List Cell → Type 0
Later r c v f f' above =
    Assigned f (flat r c)
    → All (λ p. flat r c ≤ flat p.0 p.1) above × Same (flat r c) f f' × (f' (flat r c) ≡ state_of v)

All-le :
    (ps : List Cell) (x : ℕ) → All (λ p. x + 1 ≤ flat p.0 p.1) ps → All (λ p. x ≤ flat p.0 p.1) ps
All-le [] x a = tt
All-le (p ∷ ps) x (le, a) = (omega arith, All-le ps x a)

module _ (t : Ltp) where
  pub Tracks-same :
      (st : Store) (b b' : Brancher)
      → b.undo_stack ≡ b'.undo_stack
      → b.min_unassigned_row ≡ b'.min_unassigned_row
      → Tracks t st b
      → Tracks t st b'
  Tracks-same st b b' p q k =
      subst (Tracks t st) (λ i. record { undo_stack = p i; min_unassigned_row = q i }) k

module _ (t : Ltp) (ok : IsLtp t) where
  module _ (st : Store) (b : Brancher) (k : Tracks t st b) where
    -- The moves are recorded.
    pub replay-Tracks :
        (ms : List Move)
        → Playable t st ms
        → Tracks t (replay t st ms) (record b { undo_stack = entries ms ++ b.undo_stack })
          × Extends st.cells (replay t st ms).cells
          × (free_below 16129 (replay t st ms).cells + length (entries ms)
              ≡ free_below 16129 st.cells)
    unfolding record_assignment
    replay-Tracks [] p = (k, λ x h. h, omega arith)
    replay-Tracks ((r, c, v) ∷ ms) (p, hr, hc, h) =
        let rest = replay-Tracks ms p in
        let upto : Brancher = record b { undo_stack = entries ms ++ b.undo_stack } in
        (
          assign-Tracks t ok (replay t st ms) upto rest.0 r c v hr hc h,
          λ x hx. assign-Extends t ok (replay t st ms) upto rest.0 r c v hr hc h x (rest.1 x hx),
          omega (arith, rest.2, assign-free t ok (replay t st ms) upto rest.0 r c v hr hc h),
        )

    -- The moves are in cells that were unassigned.
    replay-later :
        (x : ℕ) (ms : List Move)
        → Assigned st.cells x
        → Playable t st ms
        → All (λ p. x ≤ flat p.0 p.1) (entries ms) × Same x st.cells (replay t st ms).cells
    unfolding assign
    replay-later x [] full p = (tt, λ z h. refl)
    replay-later x ((r, c, v) ∷ ms) full (p, hr, hc, h) =
        let rest = replay-later x ms full p in
        let later : x ≤ flat r c = elim (dec_lt (flat r c) x) [
          | yes less ↦ absurd (ground (arith, h, rest.1 (flat r c) less, full (flat r c) less))
          | no more ↦ omega arith
        ] in
        ((later, rest.0), λ z less. ground (arith, later) ∙ rest.1 z less)

    -- They are not: propagation gave up, and what it forced stays assigned.
    replay-unrecorded : (ms : List Move) → Playable t st ms → Tracks t (replay t st ms) b
    replay-unrecorded ms p =
        let kept = replay-Tracks ms p in
        record {
          consistent = kept.0.consistent;
          trail = IsTrail-Extends st.cells _ b.undo_stack kept.1 k.trail;
          hint = λ r c lo hi before. kept.1 _ (k.hint r c lo hi before);
          low = k.low;
        }

    -- A record of the moves that propagation made, with the forced list recorded or not.
    pub Recorded-Tracks :
        (e : Engine)
        → Recorded t ok st b.undo_stack b e
        → Tracks t e.store (record_all e.forced b)
          × ((above : List Cell) × ((record_all e.forced b).undo_stack ≡ above ++ b.undo_stack)
              × ((x : ℕ)
                  → Assigned st.cells x
                  → All (λ p. x ≤ flat p.0 p.1) above × Same x st.cells e.store.cells))
          × (room e.store (record_all e.forced b) ≡ room st b)
          × Tracks t e.store b
          × (room e.store b ≤ room st b)
    unfolding room
    Recorded-Tracks e rec =
        let kept = replay-Tracks rec.moves rec.playable in
        rw rec.store_right (
          Tracks-same t (replay t st rec.moves)
              (record b { undo_stack = entries rec.moves ++ b.undo_stack }) (record_all e.forced b)
              (sym rec.stack_right) (sym (record_all_row e.forced b)) kept.0,
          (
            entries rec.moves,
            rec.stack_right,
            λ x full. replay-later x rec.moves full rec.playable,
          ),
          omega (
            arith,
            kept.2,
            ap length rec.stack_right,
            length-append (entries rec.moves) b.undo_stack,
          ),
          replay-unrecorded rec.moves rec.playable,
          omega (arith, kept.2),
        )

  module _ (w : World) (r c v : ℕ) (k : Tracks t w.engine.store w.brancher) (hr : r < s)
      (hc : c < s) (h : is_unassigned (w.engine.store.cells (flat r c)) ≡ true) where
    pub placed-Tracks :
        Tracks t (place t r c v w).engine.store (place t r c v w).brancher
        × (room (place t r c v w).engine.store (place t r c v w).brancher
            ≡ room w.engine.store w.brancher)
        × ((place t r c v w).brancher.undo_stack ≡ (r, c) ∷ w.brancher.undo_stack)
    unfolding place room record_assignment
    placed-Tracks = (
      assign-Tracks t ok w.engine.store w.brancher k r c v hr hc h,
      omega (arith, assign-free t ok w.engine.store w.brancher k r c v hr hc h),
      refl,
    )

    pub started-Recorded :
        Recorded t ok
          (place t r c v w).engine.store
          (place t r c v w).brancher.undo_stack
          (place t r c v w).brancher
          (reset_forced t (place t r c v w).engine)
    unfolding reset_forced record_all
    started-Recorded = record { moves = []; store_right = refl; playable = tt; stack_right = refl }

    -- Propagation leaves the cells before the placed one and its value.
    placed-Later :
        (above : List Cell) (e : Engine)
        → ((x : ℕ)
            → Assigned (place t r c v w).engine.store.cells x
            → All (λ p. x ≤ flat p.0 p.1) above
              × Same x (place t r c v w).engine.store.cells e.store.cells)
        → Later r c v w.engine.store.cells e.store.cells above
    unfolding place assign
    placed-Later above e h full =
        let kept = h (flat r c + 1) (λ z less. elim (dec_lt z (flat r c)) [
          | yes before ↦ ground (arith, full z before)
          | no last ↦ ground arith
        ]) in
        (
          All-le above (flat r c) kept.0,
          λ z less. kept.1 z (omega arith) ∙ ground arith,
          kept.1 (flat r c) (omega arith) ∙ ground arith,
        )

    module _ (verify_row : ℕ → (ℕ → ℕ) → Bool) (fuel : ℕ) (enough : 161300 < fuel) where
      -- A value is tried: the run ends, and the cell is recorded on what was recorded before.
      pub try_value-Tracks :
          (passed : Bool) × (w' : World) × (try_value verify_row t fuel r c v w ≡ some (passed, w'))
          × Tracks t w'.engine.store w'.brancher
          × ((above : List Cell) × (w'.brancher.undo_stack
                ≡ above ++ ((r, c) ∷ w.brancher.undo_stack))
              × Later r c v w.engine.store.cells w'.engine.store.cells above)
          × (room w'.engine.store w'.brancher ≤ room w.engine.store w.brancher)
      unfolding try_value
      try_value-Tracks = by_outcome (
          try_propagate_cell-Recorded t ok placed.engine.store placed.brancher placed.brancher fuel
            r c placed.engine hr hc placed-Tracks.0.consistent
            (omega (arith, free_below-le 16129 placed.engine.store.cells, enough)) started-Recorded)
        where
          placed : World
          placed = place t r c v w

          by_outcome :
              ((a : Bool) × (e' : Engine) × (try_propagate_cell t fuel r c placed.engine
                  ≡ some (a, e'))
                × Recorded t ok placed.engine.store placed.brancher.undo_stack placed.brancher e')
              → (passed : Bool) × (w' : World) × (try_value verify_row t fuel r c v w
                  ≡ some (passed, w'))
                × Tracks t w'.engine.store w'.brancher
                × ((above : List Cell) × (w'.brancher.undo_stack
                      ≡ above ++ ((r, c) ∷ w.brancher.undo_stack))
                    × Later r c v w.engine.store.cells w'.engine.store.cells above)
                × (room w'.engine.store w'.brancher ≤ room w.engine.store w.brancher)
          by_outcome (false, e, run, rec) =
              let facts =
                Recorded-Tracks placed.engine.store placed.brancher placed-Tracks.0 e rec in
              (
                false,
                record { engine = e; brancher = placed.brancher },
                rw (run, try_value) refl,
                facts.3,
                ([], placed-Tracks.2, placed-Later [] e (λ x full. (tt, (facts.1.2 x full).1))),
                omega (arith, facts.4, placed-Tracks.1),
              )
          by_outcome (true, e, run, rec) =
              let facts =
                Recorded-Tracks placed.engine.store placed.brancher placed-Tracks.0 e rec in
              (
                hash_ok verify_row e.store r e.forced,
                record { engine = e; brancher = record_all e.forced placed.brancher },
                rw (run, try_value) refl,
                facts.0,
                (
                  facts.1.0,
                  facts.1.1 ∙ ap (facts.1.0 ++◌) placed-Tracks.2,
                  placed-Later facts.1.0 e facts.1.2,
                ),
                omega (arith, facts.2, placed-Tracks.1),
              )
