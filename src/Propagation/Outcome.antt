-- ===== src/Propagation/Outcome.antt =====
-- What `propagate` answers.
use crsce.Prelude.{
  ℕ, ◌+◌, ◌*◌, ◌<◌, ◌≡◌, ◌⊎◌, refl, inl, inr, arith, Bool, true, false, Option, some, List, [], ◌∷◌,
  All, length,
}
use crsce.Lines.{Ltp, IsLtp, LineId, IsLine, line_index, cells_on_line}
use crsce.Lines.Flat.{flat_index_to_line_id-line_index}
use crsce.Lines.Extent.{cells_on_line-InMatrix}
use crsce.Store.{Store, get_stat}
use crsce.Store.Consistent.{Consistent}
use crsce.Queued.{reset_queued}
use crsce.Propagation.{Engine, Verdict, infeasible, skip, force, judge, pop, propagate, mark_all}
use crsce.Propagation.Judge.{Matrix, IsSolution, Agrees, Justified, judge-Justified}
use crsce.Propagation.Force.{measure, free_below}
use crsce.Propagation.Forcing.{Safe, Solved}
use crsce.Propagation.Sound.{force_cells-Solved}
use crsce.Propagation.Loop.{Round, Ends, loop-Ends, pop-Safe, Round-Safe}

-- Fuel that is enough: a round for each line of the queue, and ten for each unassigned cell.
abbrev pub Enough : ℕ → List LineId → Store → Type 0
Enough fuel queue st = length queue + 10 * free_below 16129 st.cells < fuel

-- The two ways in which `propagate` ends: with the answer true and no line waiting, or with false.
abbrev pub Answers : Option (Bool × Engine) → Engine → Type 0
Answers result e' = ((result ≡ some (true, e')) × (e'.work ≡ [])) ⊎ (result ≡ some (false, e'))

module _ (t : Ltp) (ok : IsLtp t) where
  -- The engine as the loop of `propagate` finds it.
  started : List LineId → Engine → Engine
  started queue e = record e { work = queue; queued = mark_all t queue (reset_queued e.queued) }

  -- On a consistent store, with lines of the system in the queue and enough fuel, `propagate` ends
  -- with true or false and leaves a consistent store; with true no line waits any more.
  pub propagate_total :
      (fuel : ℕ) (queue : List LineId) (e : Engine)
      → Consistent t e.store
      → All IsLine queue
      → Enough fuel queue e.store
      → (e' : Engine) × Answers (propagate t fuel queue e) e' × Consistent t e'.store
  unfolding propagate started measure
  propagate_total fuel queue e k lines enough = by_end (
      loop-Ends t (Safe t) (λ e line rest w p. Round-Safe t ok e line rest w p _)
        (λ e line rest w p. (pop-Safe t ok e line rest w p).0) fuel (started queue e) (omega arith)
        (record { consistent = k; lines = lines }))
    where
      by_end :
          {r : Option (Bool × Engine)}
          → Ends t (Safe t) r
          → (e' : Engine) × (((r ≡ some (true, e')) × (e'.work ≡ [])) ⊎ (r ≡ some (false, e')))
            × Consistent t e'.store
      by_end (e', p, inl (h, w)) = (e', inl (h, w), p.consistent)
      by_end (e', p, inr (h, _)) = (e', inr h, p.consistent)

  -- A safe engine with a solution.
  abbrev Live : Matrix → Engine → Type 0
  Live m e = Safe t e × Solved t m e

  judge_line :
      (m : Matrix) (e : Engine) (line : LineId)
      → IsLine line
      → Live m e
      → Justified e.store.cells m (cells_on_line t line) (judge (get_stat e.store line))
  unfolding get_stat
  judge_line m e line h (safe, solved) =
      let (small, back) = flat_index_to_line_id-line_index line h in
      rw back at (
        judge-Justified t ok e.store safe.consistent m solved.solution solved.agrees
          (line_index line) small)

  -- `pop` leaves the store, so it keeps a solution.
  pop-Solved :
      (m : Matrix) (e : Engine) (line : LineId) (rest : List LineId)
      → Solved t m e
      → Solved t m (pop t line rest e)
  unfolding pop
  pop-Solved m e line rest solved = record { solution = solved.solution; agrees = solved.agrees }

  pop-cells :
      (e : Engine) (line : LineId) (rest : List LineId)
      → (pop t line rest e).store.cells ≡ e.store.cells
  unfolding pop
  pop-cells e line rest = refl

  Round-Live :
      (m : Matrix) (e : Engine) (line : LineId) (rest : List LineId)
      → e.work ≡ line ∷ rest
      → Live m e
      → (x : Verdict) → Justified e.store.cells m (cells_on_line t line) x
      → Round t (Live m) e line rest x
  Round-Live m e line rest w p infeasible j = tt
  Round-Live m e line rest w p skip j =
      let (popped, line_ok, less) = pop-Safe t ok e line rest w p.0 in
      ((popped, pop-Solved m e line rest p.1), less)
  Round-Live m e line rest w p (force v) j =
      let (popped, line_ok, less) = pop-Safe t ok e line rest w p.0 in
      let (kept, le) = Round-Safe t ok e line rest w p.0 (force v) in
      (
        (
          kept,
          force_cells-Solved t ok m v (line_index line) (cells_on_line t line) (pop t line rest e)
              (cells_on_line-InMatrix t ok line line_ok) popped (pop-Solved m e line rest p.1)
              (rw (pop-cells e line rest) j),
        ),
        le,
      )

  -- If a full matrix has all target sums and the value of every assigned cell, then `propagate` ends
  -- with the answer true, and the matrix still has the value of every cell that is then assigned:
  -- no cell is forced to a wrong value, and the store stays consistent.
  pub propagate_sound :
      (m : Matrix) (fuel : ℕ) (queue : List LineId) (e : Engine)
      → Consistent t e.store
      → All IsLine queue
      → Enough fuel queue e.store
      → IsSolution t e.store m
      → Agrees e.store m
      → (e' : Engine) × (propagate t fuel queue e ≡ some (true, e'))
        × Consistent t e'.store
        × IsSolution t e'.store m
        × Agrees e'.store m
  unfolding propagate started measure
  propagate_sound m fuel queue e k lines enough sol agrees = by_end (
      loop-Ends t (Live m)
        (λ e line rest w p.
          Round-Live m e line rest w p _
            (judge_line m e line (pop-Safe t ok e line rest w p.0).1 p))
        (λ e line rest w p. ((pop-Safe t ok e line rest w p.0).0, pop-Solved m e line rest p.1))
        fuel (started queue e) (omega arith)
        (record { consistent = k; lines = lines }, record { solution = sol; agrees = agrees }))
    where
      by_end :
          {r : Option (Bool × Engine)}
          → Ends t (Live m) r
          → (e' : Engine) × (r ≡ some (true, e'))
            × Consistent t e'.store
            × IsSolution t e'.store m
            × Agrees e'.store m
      by_end (e', (safe, solved), inl (h, w)) =
          (e', h, safe.consistent, solved.solution, solved.agrees)
      by_end (e', p, inr (h, g)) = absurd (
          rw g.judged at (
            judge_line m g.at g.line (pop-Safe t ok g.at g.line g.rest g.waiting g.holds.0).1
              g.holds))
