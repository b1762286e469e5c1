-- ===== src/Propagation/Settled.antt =====
-- The loop of `propagate` and the lines that wait or call for nothing.
use crsce.Prelude.{
  ℕ, ◌≤◌, ◌<◌, ◌≡◌, refl, ap, inl, inr, ◌⊎◌, arith, Bool, true, false, List, [], ◌∷◌, count, All,
  Bool-cases, Option, some, ◌==◌,
}
use crsce.Lines.{
  Ltp, IsLtp, LineId, IsLine, Cell, InMatrix, s, total_lines, line_index, cells_on_line,
  line_indices, count_cell,
}
use crsce.Lines.Flat.{flat_index_to_line_id-line_index}
use crsce.Lines.Extent.{cells_on_line-InMatrix}
use crsce.Lines.Incidence.{count_cell-cells_on_line}
use crsce.Store.{LineStat, get_stat}
use crsce.Store.Tally.{unknown_on}
use crsce.Store.Consistent.{Consistent}
use crsce.Queued.{is_queued, reset_queued}
use crsce.Queued.Laws.{Small}
use crsce.Propagation.{Engine, Verdict, infeasible, skip, force, judge, pop, propagate, mark_all}
use crsce.Propagation.Force.{measure}
use crsce.Propagation.Forcing.{Safe}
use crsce.Propagation.Loop.{Round, Keeps, loop-Keeps, pop-Safe, Round-Safe}
use crsce.Propagation.Outcome.{Enough}
use crsce.Propagation.Waiting.{waiting, pop-Waits, mark_all-Waits}
use crsce.Propagation.Quiet.{Quiet, On, force_cells-Quiet}

judge-force : (l : LineStat) (v : ℕ) → judge l ≡ force v → 0 < l.unknown
unfolding judge
judge-force l v h = ground (arith, h)

-- Every cell of a list is counted in it.
on_cells :
    (g : Cell → ℕ) (ps : List Cell)
    → All InMatrix ps
    → ((r c : ℕ) → r < s → c < s → count_cell (r, c) ps ≤ g (r, c))
    → All (λ p. 0 < g p) ps
on_cells g [] a h = tt
on_cells g ((r, c) ∷ ps) a h = (
  ground (arith, h r c a.0.0 a.0.1),
  on_cells g ps a.1 (λ r' c' hr hc. omega (arith, h r' c' hr hc)),
)

module _ (t : Ltp) (ok : IsLtp t) where
  line-On : (line : LineId) → IsLine line → On t (line_index line) (cells_on_line t line)
  line-On line h =
      on_cells (λ p. count (line_index line) (line_indices t p.0 p.1)) (cells_on_line t line)
        (cells_on_line-InMatrix t ok line h)
        (λ r c hr hc. omega (arith, count_cell-cells_on_line t ok line r c h hr hc))

  pop-Quiet :
      (e : Engine) (line : LineId) (rest : List LineId)
      → e.work ≡ line ∷ rest
      → Quiet total_lines e
      → Quiet (line_index line) (pop t line rest e)
  unfolding pop
  pop-Quiet e line rest w quiet = record {
    waits = pop-Waits line rest e.queued (rw w at quiet.waits);
    settled = λ i small. elim (quiet.settled i small) [
      | inl waits ↦ elim (Bool-cases (line_index line == i)) [
        | inl same ↦ inr (inl (ground (arith, same)))
        | inr other ↦ inl (ground (arith, other, on_list i waits))
      ]
      | inr (inl exempt) ↦ absurd (omega (arith, small, exempt))
      | inr (inr calm) ↦ inr (inr calm)
    ];
  }
    where
      on_list : (i : ℕ) → 0 < waiting e.work i → 0 < waiting (line ∷ rest) i
      on_list i h = rw w at h

  -- The line that was taken off waits again, or calls for nothing.
  restored :
      (e : Engine) (x : ℕ)
      → Quiet x e
      → (0 < waiting e.work x) ⊎ (judge (e.store.stats x) ≡ skip)
      → Quiet total_lines e
  restored e x quiet back = record {
    waits = quiet.waits;
    settled = λ i small. elim (quiet.settled i small) [
      | inl waits ↦ inl waits
      | inr (inl same) ↦ elim back [
        | inl waits ↦ inl (rw same waits)
        | inr calm ↦ inr (inr (rw same calm))
      ]
      | inr (inr calm) ↦ inr (inr calm)
    ];
  }

  abbrev Calm : Engine → Type 0
  Calm e = Safe t e × Quiet total_lines e

  line_free :
      (e : Engine) (line : LineId)
      → IsLine line
      → (v : ℕ) → Consistent t e.store
      → judge (get_stat e.store line) ≡ force v
      → 0 < unknown_on e.store.cells (cells_on_line t line)
  unfolding get_stat
  line_free e line h v k j =
      let (small, back) = flat_index_to_line_id-line_index line h in
      omega (
        arith,
        judge-force _ v j,
        k.unknown_right (line_index line) small,
        ap (λ l. unknown_on e.store.cells (cells_on_line t l)) back,
      )

  Round-Calm :
      (e : Engine) (line : LineId) (rest : List LineId)
      → e.work ≡ line ∷ rest
      → Calm e
      → (x : Verdict) → judge (get_stat e.store line) ≡ x
      → Round t Calm e line rest x
  Round-Calm e line rest w p infeasible j = tt
  Round-Calm e line rest w p skip j =
      let (popped, line_ok, less) = pop-Safe t ok e line rest w p.0 in
      (
        (
          popped,
          restored (pop t line rest e) (line_index line) (pop-Quiet e line rest w p.1)
              (inr (unfold pop get_stat in j)),
        ),
        less,
      )
  Round-Calm e line rest w p (force v) j =
      let (popped, line_ok, less) = pop-Safe t ok e line rest w p.0 in
      let (kept, le) = Round-Safe t ok e line rest w p.0 (force v) in
      let forced =
        force_cells-Quiet t ok (line_index line) v (line_index line) (cells_on_line t line)
          (pop t line rest e) (cells_on_line-InMatrix t ok line line_ok) popped
          (pop-Quiet e line rest w p.1) in
      (
        (
          kept,
          restored _ (line_index line) forced.0 (
              inl (
                forced.1 (line_index line) (line-On line line_ok)
                  (unfold pop in line_free e line line_ok v p.0.consistent j))),
        ),
        le,
      )

  -- On a consistent store, if the queued set has no marked line and words of 64 bits once it is reset,
  -- every line is in the queue, only lines of the system are, and there is enough fuel, then propagation
  -- ends; and if it answers true then the store is consistent and no line is infeasible or forces a cell.
  pub propagate-settled :
      (fuel : ℕ) (queue : List LineId) (e : Engine)
      → Consistent t e.store
      → All IsLine queue
      → Enough fuel queue e.store
      → Small (reset_queued e.queued)
      → ((i : ℕ) → is_queued (reset_queued e.queued) i ≡ false)
      → ((i : ℕ) → i < total_lines → 0 < waiting queue i)
      → (e' : Engine) × (((propagate t fuel queue e ≡ some (true, e'))
            × Consistent t e'.store
            × ((i : ℕ) → i < total_lines → judge (e'.store.stats i) ≡ skip))
          ⊎ (propagate t fuel queue e ≡ some (false, e')))
  unfolding propagate measure
  propagate-settled fuel queue e k lines enough small clean all = by_end (
      loop-Keeps t Calm (λ e line rest w p. Round-Calm e line rest w p _ refl) fuel
        (record e { work = queue; queued = mark_all t queue (reset_queued e.queued) }) (omega arith)
        (
          record { consistent = k; lines = lines },
          record {
            waits =
                mark_all-Waits t queue queue (reset_queued e.queued) (λ i. omega arith)
                  (record {
                    small = small;
                    right = λ i marked. absurd (ground (arith, marked, clean i));
                  });
            settled = λ i h. inl (all i h);
          },
        ))
    where
      by_end :
          {r : Option (Bool × Engine)}
          → Keeps t Calm r
          → (e' : Engine) × (((r ≡ some (true, e'))
                × Consistent t e'.store
                × ((i : ℕ) → i < total_lines → judge (e'.store.stats i) ≡ skip))
              ⊎ (r ≡ some (false, e')))
      by_end (e', inl (h, p, w)) = (
        e',
        inl (
          h,
          p.0.consistent,
          λ i small. elim (p.1.settled i small) [
            | inl waits ↦ absurd (omega (arith, waits, ap (λ ls. waiting ls i) w))
            | inr (inl exempt) ↦ absurd (omega (arith, small, exempt))
            | inr (inr calm) ↦ calm
          ],
        ),
      )
      by_end (e', inr h) = (e', inr h)
