-- ===== src/Prober/Record.antt =====
-- Propagation puts every cell that it assigns on its list, in order, each unassigned at its turn.
use crsce.Prelude.{
  ℕ, ◌<◌, ◌≡◌, refl, ap, ◌∙◌, inl, inr, arith, Bool, true, false, Option, some, List, [], ◌∷◌, ◌++◌,
  All, Bool-cases,
}
use crsce.Lines.{Ltp, IsLtp, LineId, Cell, InMatrix, s, line_index, cells_on_line, lines_for_cell}
use crsce.Lines.Extent.{cells_on_line-InMatrix}
use crsce.Store.{Store, flat, is_unassigned, assign}
use crsce.Queued.{reset_queued}
use crsce.Propagation.{
  Assignment, Engine, Verdict, infeasible, skip, force, force_cell, force_cells, pop, propagate,
  mark_all,
}
use crsce.Propagation.Force.{enqueue_facts, lines_for_cell-IsLine, measure}
use crsce.Propagation.Forcing.{Safe, force_cell-Safe, force_cell-store, force_cell-skip}
use crsce.Propagation.Loop.{Round, Ends, loop-Ends, pop-Safe, Round-Safe}
use crsce.Propagation.Outcome.{Enough}
use crsce.Branching.{Brancher, record_all, record_assignment}
use crsce.Branching.Undo.{Move, replay, entries, Playable}

record_all_append :
    (xs : List Assignment) (a : Assignment) (b : Brancher)
    → (record_all (xs ++ (a ∷ [])) b).undo_stack ≡ (a.r, a.c) ∷ (record_all xs b).undo_stack
unfolding record_all record_assignment
record_all_append [] a b = refl
record_all_append (x ∷ xs) a b = record_all_append xs a (record_assignment x.r x.c b)

module _ (t : Ltp) (ok : IsLtp t) (st : Store) (stack : List Cell) (b : Brancher) where
  -- The engine's store is `st` after the moves whose entries are on the stack above `stack`, once
  -- the list of forced cells is recorded by `b`.
  pub record Recorded (e : Engine) : Type 0 where
    pub moves : List Move
    pub store_right : e.store ≡ replay t st moves
    pub playable : Playable t st moves
    pub stack_right : (record_all e.forced b).undo_stack ≡ entries moves ++ stack

  module _ (v line r c : ℕ) (hr : r < s) (hc : c < s) where
    force_cell-forced :
        (e : Engine)
        → Safe t e
        → is_unassigned (e.store.cells (flat r c)) ≡ true
        → (force_cell t v line (r, c) e).forced
          ≡ e.forced ++ (record { r = r; c = c; value = v; antecedent_line = line } ∷ [])
    unfolding force_cell
    force_cell-forced e safe h =
        rw h
          (enqueue_facts (lines_for_cell t r c) _ (lines_for_cell-IsLine t ok r c hr hc).0
            safe.lines).1

    force_cell-Recorded :
        (e : Engine) → Safe t e → Recorded e → Recorded (force_cell t v line (r, c) e)
    force_cell-Recorded e safe rec = elim (Bool-cases (is_unassigned (e.store.cells (flat r c)))) [
      | inl h ↦ record {
        moves = (r, c, v) ∷ rec.moves;
        store_right =
            force_cell-store t ok v line r c hr hc e safe h
            ∙ ap (λ x. assign t x r c v) rec.store_right;
        playable = (rec.playable, hr, hc, rw rec.store_right at h);
        stack_right =
            ap (λ xs. (record_all xs b).undo_stack) (force_cell-forced e safe h)
            ∙ record_all_append e.forced _ b
            ∙ ap (λ xs. (r, c) ∷ xs) rec.stack_right;
      }
      | inr h ↦ rw (force_cell-skip t ok v line r c hr hc e safe h) rec
    ]

  force_cells-Recorded :
      (v line : ℕ) (ps : List Cell) (e : Engine)
      → All InMatrix ps
      → Safe t e
      → Recorded e
      → Recorded (force_cells t v line ps e)
  unfolding force_cells
  force_cells-Recorded v line [] e a safe rec = rec
  force_cells-Recorded v line ((r, c) ∷ ps) e a safe rec =
      force_cells-Recorded v line ps (force_cell t v line (r, c) e) a.1
        (force_cell-Safe t ok v line r c a.0.0 a.0.1 e safe).0
        (force_cell-Recorded v line r c a.0.0 a.0.1 e safe rec)

  pop-Recorded :
      (e : Engine) (line : LineId) (rest : List LineId) → Recorded e → Recorded (pop t line rest e)
  unfolding pop
  pop-Recorded e line rest rec = record {
    moves = rec.moves;
    store_right = rec.store_right;
    playable = rec.playable;
    stack_right = rec.stack_right;
  }

  abbrev Tracked : Engine → Type 0
  Tracked e = Safe t e × Recorded e

  Round-Tracked :
      (e : Engine) (line : LineId) (rest : List LineId)
      → e.work ≡ line ∷ rest
      → Tracked e
      → (x : Verdict) → Round t Tracked e line rest x
  Round-Tracked e line rest w p infeasible = tt
  Round-Tracked e line rest w p skip =
      let (popped, line_ok, less) = pop-Safe t ok e line rest w p.0 in
      ((popped, pop-Recorded e line rest p.1), less)
  Round-Tracked e line rest w p (force v) =
      let (popped, line_ok, less) = pop-Safe t ok e line rest w p.0 in
      let (kept, le) = Round-Safe t ok e line rest w p.0 (force v) in
      (
        (
          kept,
          force_cells-Recorded v (line_index line) (cells_on_line t line) (pop t line rest e)
              (cells_on_line-InMatrix t ok line line_ok) popped (pop-Recorded e line rest p.1),
        ),
        le,
      )

  -- `propagate` ends, and whatever it answers, its store is the one it got after a list of moves
  -- whose entries are on the stack above `stack` once the forced list is recorded.
  pub propagate-Recorded :
      (fuel : ℕ) (queue : List LineId) (e : Engine)
      → Safe t (record e { work = queue })
      → Enough fuel queue e.store
      → Recorded e
      → (a : Bool) × (e' : Engine) × (propagate t fuel queue e ≡ some (a, e')) × Recorded e'
  unfolding propagate measure
  propagate-Recorded fuel queue e safe enough rec = by_end (
      loop-Ends t Tracked (λ e line rest w p. Round-Tracked e line rest w p _)
        (λ e line rest w p. ((pop-Safe t ok e line rest w p.0).0, pop-Recorded e line rest p.1))
        fuel (record e { work = queue; queued = mark_all t queue (reset_queued e.queued) })
        (omega arith)
        (
          record { consistent = safe.consistent; lines = safe.lines },
          record {
            moves = rec.moves;
            store_right = rec.store_right;
            playable = rec.playable;
            stack_right = rec.stack_right;
          },
        ))
    where
      by_end :
          {r : Option (Bool × Engine)}
          → Ends t Tracked r
          → (a : Bool) × (e' : Engine) × (r ≡ some (a, e')) × Recorded e'
      by_end (e', p, inl (h, w)) = (true, e', h, p.1)
      by_end (e', p, inr (h, g)) = (false, e', h, p.1)
