-- ===== src/Search/Determined.antt =====
-- The matrix that the initial propagation determines, and its sums.
use crsce.Prelude.{
  ℕ, ◌<◌, ◌≡◌, refl, ap, ◌∙◌, sym, subst, inl, inr, ◌⊎◌, ◌>>=◌, arith, Bool, true, false, Option,
  none, some, List, [], ◌∷◌, All,
}
use crsce.Lines.{Ltp, IsLtp, Cell, s, total_lines, InMatrix}
use crsce.Store.{Store, LineStat, flat, is_unassigned, get_row}
use crsce.Store.Tally.{tally, unknown_on, ones_on}
use crsce.Store.Consistent.{Consistent, line_cells, line_cells-InMatrix, assign-stats}
use crsce.Csm.{cell}
use crsce.CrossSum.Total.{matrix_of}
use crsce.Queued.{is_queued, reset_queued}
use crsce.Queued.Laws.{Small}
use crsce.Propagation.{Engine, judge, skip, propagate, reset_forced}
use crsce.Propagation.Force.{free_below-le}
use crsce.Propagation.Settled.{propagate-settled}
use crsce.Branching.{record_all}
use crsce.Prober.{World}
use crsce.Prober.Record.{Recorded}
use crsce.Propagation.Judge.{IsSolution, sum_on}
use crsce.Branching.Undo.{Move, replay, Playable, replay-Consistent}
use crsce.Search.{
  build_csm, all_lines, Enumeration, infeasible_start, determined, searched, after_initial,
  enumerate_solutions_lex,
}
use crsce.Search.Trail.{Tracks}
use crsce.Search.Cost.{cost}
use crsce.Search.Ends.{FromStore, initial, search_from-Increasing}
use crsce.Search.Queue.{all_lines-IsLine, all_lines-waits}
use crsce.Search.Leftover.{answer_unique}

judge-skip : (l : LineStat) → judge l ≡ skip → l.unknown ≡ 0 → l.target ≡ l.assigned
unfolding judge
judge-skip l h closed = ground (arith, h, closed)

module _ (t : Ltp) (ok : IsLtp t) where
  replay-target :
      (st : Store) (k : Consistent t st) (ms : List Move)
      → Playable t st ms
      → (i : ℕ) → i < total_lines
      → ((replay t st ms).stats i).target ≡ (st.stats i).target
  replay-target st k [] p i h = refl
  replay-target st k ((r, c, v) ∷ ms) (p, hr, hc, free) i h =
      ap (λ (l : LineStat). l.target)
        (assign-stats t ok (replay t st ms) (replay-Consistent t ok st k ms p) r c hr hc v free i h)
      ∙ replay-target st k ms p i h

  module _ (st : Store) (k : Consistent t st)
      (full : (r c : ℕ) → r < s → c < s → is_unassigned (st.cells (flat r c)) ≡ false) where
    none_unknown : (ps : List Cell) → All InMatrix ps → unknown_on st.cells ps ≡ 0
    unfolding tally
    none_unknown [] a = refl
    none_unknown ((r, c) ∷ ps) a = ground (arith, full r c a.0.0 a.0.1, none_unknown ps a.1)

    sum-build_csm :
        (ps : List Cell)
        → All InMatrix ps
        → sum_on (matrix_of (build_csm st)) ps ≡ ones_on st.cells ps
    unfolding tally sum_on build_csm cell get_row
    sum-build_csm [] a = refl
    sum-build_csm ((r, c) ∷ ps) a = ground (arith, k.row_bit r c a.0.1, a.0.0, sum-build_csm ps a.1)

    -- Every line calls for nothing, so every sum is right.
    settled-IsSolution :
        ((i : ℕ) → i < total_lines → judge (st.stats i) ≡ skip)
        → (first : Store)
        → ((i : ℕ) → i < total_lines → (st.stats i).target ≡ (first.stats i).target)
        → IsSolution t first (matrix_of (build_csm st))
    settled-IsSolution calm first same = record {
      sums = λ i h.
          let inside = line_cells-InMatrix t ok i h in
          sum-build_csm (line_cells t i) inside
          ∙ sym (k.assigned_right i h)
          ∙ sym (
              judge-skip (st.stats i) (calm i h)
                (k.unknown_right i h ∙ none_unknown (line_cells t i) inside))
          ∙ same i h;
    }

-- A determined matrix has the target sums of the store.
abbrev pub HasSums : Ltp → Store → Enumeration → Type 0
HasSums t st infeasible_start = Unit {0}
HasSums t st (determined m) = IsSolution t st (matrix_of m)
HasSums t st (searched ms) = Unit {0}

module _ (t : Ltp) (ok : IsLtp t) (verify_row : ℕ → (ℕ → ℕ) → Bool) (propagation_fuel : ℕ)
    (enough : 162400 < propagation_fuel) (fuel : ℕ) (long : cost 2 16129 < fuel) (w : World)
    (k : Tracks t w.engine.store w.brancher) (small : Small (reset_queued w.engine.queued))
    (clean : (i : ℕ) → is_queued (reset_queued w.engine.queued) i ≡ false) where
  initial_calm :
      (e : Engine)
      → propagate t propagation_fuel all_lines (reset_forced t w.engine) ≡ some (true, e)
      → (i : ℕ) → i < total_lines
      → judge (e.store.stats i) ≡ skip
  initial_calm e run i h = by_end (
      propagate-settled t ok propagation_fuel all_lines (reset_forced t w.engine)
        (unfold reset_forced in k.consistent) all_lines-IsLine.0
        (unfold reset_forced in
          omega (arith, all_lines-IsLine.1, free_below-le 16129 w.engine.store.cells, enough))
        (unfold reset_forced in small) (unfold reset_forced in clean) all_lines-waits)
    where
      by_end :
          ((e' : Engine) × (((propagate t propagation_fuel all_lines (reset_forced t w.engine)
                  ≡ some (true, e'))
                × Consistent t e'.store
                × ((i : ℕ) → i < total_lines → judge (e'.store.stats i) ≡ skip))
              ⊎ (propagate t propagation_fuel all_lines (reset_forced t w.engine)
                  ≡ some (false, e'))))
          → judge (e.store.stats i) ≡ skip
      by_end (e', inl (run', cons, calm)) =
          subst (λ x. judge (x.store.stats i) ≡ skip) (answer_unique run' run) (calm i h)
      by_end (e', inr run') = absurd (
          ground (
            arith,
            ap (λ (x : Option (Bool × Engine)). elim x [ none ↦ true | some y ↦ y.0 ])
                (sym run ∙ run'),
          ))

  from_store :
      (e : Engine)
      → Consistent t e.store
      → Recorded t ok w.engine.store w.brancher.undo_stack w.brancher e
      → ((i : ℕ) → i < total_lines → judge (e.store.stats i) ≡ skip)
      → (x : Enumeration) → FromStore e.store x
      → HasSums t w.engine.store x
  from_store e cons rec calm infeasible_start from = tt
  from_store e cons rec calm (searched ms) from = tt
  from_store e cons rec calm (determined m) (full, same) =
      subst (λ m. IsSolution t w.engine.store (matrix_of m)) (sym same)
        (settled-IsSolution t ok e.store cons full calm w.engine.store (λ i h.
          ap (λ st. (st.stats i).target) rec.store_right
          ∙ replay-target t ok w.engine.store k.consistent rec.moves rec.playable i h))

  -- On a world that the search can start from, with no line marked as queued, and with fuel for both
  -- loops, the enumeration ends; and if the initial propagation determines a matrix then every row,
  -- column, diagonal, anti-diagonal and partition line of it has the target sum.
  pub enumerate_solutions_lex-HasSums :
      (x : Enumeration) × (enumerate_solutions_lex verify_row t propagation_fuel fuel w ≡ some x)
      × HasSums t w.engine.store x
  unfolding enumerate_solutions_lex after_initial
  enumerate_solutions_lex-HasSums = by_answer (initial t ok verify_row propagation_fuel enough w k)
    where
      by_answer :
          ((a : Bool) × (e : Engine) × (propagate t propagation_fuel all_lines
                (reset_forced t w.engine)
              ≡ some (a, e))
            × Tracks t e.store (record_all e.forced w.brancher)
            × Recorded t ok w.engine.store w.brancher.undo_stack w.brancher e)
          → (x : Enumeration) × (enumerate_solutions_lex verify_row t propagation_fuel fuel w
              ≡ some x)
            × HasSums t w.engine.store x
      by_answer (false, e, run, tracks, rec) = (
        infeasible_start,
        ap (λ x. x >>= after_initial verify_row t propagation_fuel fuel w.brancher) run,
        tt,
      )
      by_answer (true, e, run, tracks, rec) =
          let found =
            search_from-Increasing t ok verify_row propagation_fuel enough fuel long e
              (record_all e.forced w.brancher) tracks in
          (
            found.0,
            ap (λ x. x >>= after_initial verify_row t propagation_fuel fuel w.brancher) run
                ∙ found.1,
            from_store e tracks.consistent rec (initial_calm e run) found.0 found.3,
          )
