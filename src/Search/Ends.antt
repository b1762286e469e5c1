-- ===== src/Search/Ends.antt =====
-- How the search and the whole enumeration end, and what they give.
use crsce.Prelude.{
  ℕ, zero, suc, ◌+◌, ◌-◌, ◌<◌, ◌≡◌, refl, ap, ◌∙◌, inl, inr, ◌>>=◌, arith, Bool, true, false, some,
  List, [], ◌∷◌, length,
}
use crsce.Lines.{Ltp, IsLtp, s}
use crsce.Store.{Store, flat, is_unassigned}
use crsce.Csm.{Csm}
use crsce.Propagation.{Engine, propagate, reset_forced}
use crsce.Propagation.Force.{free_below, free_below-le}
use crsce.Branching.{Brancher, record_all, next_cell}
use crsce.Branching.First.{next_cell-cases}
use crsce.Prober.{World}
use crsce.Prober.Record.{Recorded, propagate-Recorded}
use crsce.Search.{
  Frame, State, Enumeration, infeasible_start, determined, searched, build_csm, fresh_frame, search,
  search_from, after_initial, all_lines, enumerate_solutions_lex,
}
use crsce.Search.Queue.{all_lines-IsLine}
use crsce.Search.Trail.{Tracks, room}
use crsce.Search.Try.{Recorded-Tracks}
use crsce.Search.Cost.{cost, cost_monotone, below_cost, top_cost, all_cost}
use crsce.Search.Visit.{Searching, potential}
use crsce.Search.Lex.{Increasing}
use crsce.Search.Descend.{FullBefore-Assigned}
use crsce.Search.Round.{visit-Searching}

-- What an enumeration submits, in order.
abbrev pub submitted_of : Enumeration → List Csm
submitted_of infeasible_start = []
submitted_of (determined m) = m ∷ []
submitted_of (searched ms) = ms

-- A determined matrix is that of a full store.
abbrev pub FromStore : Store → Enumeration → Type 0
FromStore st infeasible_start = Unit {0}
FromStore st (determined m) =
    ((r c : ℕ) → r < s → c < s → is_unassigned (st.cells (flat r c)) ≡ false) × (m ≡ build_csm st)
FromStore st (searched ms) = Unit {0}

module _ (t : Ltp) (ok : IsLtp t) (verify_row : ℕ → (ℕ → ℕ) → Bool) (propagation_fuel : ℕ)
    (enough : 162400 < propagation_fuel) where
  search-Searching :
      (fuel : ℕ) (w : World) (frames : List Frame) (submitted : List Csm)
      → Searching t (record { world = w; frames = frames; submitted = submitted })
      → potential (record { world = w; frames = frames; submitted = submitted }) < fuel
      → (st' : State) × (search verify_row t propagation_fuel fuel
            (record { world = w; frames = frames; submitted = submitted })
          ≡ some st')
        × Searching t st'
  unfolding search
  search-Searching zero w frames submitted k less = absurd (omega arith)
  search-Searching (suc fuel) w [] submitted k less = (_, refl, k)
  search-Searching (suc fuel) w (f ∷ fs) submitted k less =
      let round =
        visit-Searching t ok verify_row propagation_fuel (omega (arith, enough)) f fs submitted w
          k in
      let rest =
        search-Searching fuel round.0.world round.0.frames round.0.submitted round.2
          (omega (arith, less, round.3)) in
      (rest.0, ap (λ x. x >>= search verify_row t propagation_fuel fuel) round.1 ∙ rest.1, rest.2)

  started-Recorded :
      (w : World)
      → Recorded t ok w.engine.store w.brancher.undo_stack w.brancher (reset_forced t w.engine)
  unfolding reset_forced record_all
  started-Recorded w = record { moves = []; store_right = refl; playable = tt; stack_right = refl }

  pub initial :
      (w : World)
      → Tracks t w.engine.store w.brancher
      → (a : Bool) × (e : Engine) × (propagate t propagation_fuel all_lines
            (reset_forced t w.engine)
          ≡ some (a, e))
        × Tracks t e.store (record_all e.forced w.brancher)
        × Recorded t ok w.engine.store w.brancher.undo_stack w.brancher e
  initial w k =
      let run =
        propagate-Recorded t ok w.engine.store w.brancher.undo_stack w.brancher propagation_fuel
          all_lines (reset_forced t w.engine)
          (unfold reset_forced in record { consistent = k.consistent; lines = all_lines-IsLine.0 })
          (unfold reset_forced in
            omega (arith, all_lines-IsLine.1, free_below-le 16129 w.engine.store.cells, enough))
          (started-Recorded w) in
      (run.0, run.1, run.2, (Recorded-Tracks t ok w.engine.store w.brancher k run.1 run.3).0, run.3)

  module _ (fuel : ℕ) (long : cost 2 16129 < fuel) where
    pub search_from-Increasing :
        (e : Engine) (b : Brancher)
        → Tracks t e.store b
        → (x : Enumeration) × (search_from verify_row t propagation_fuel fuel e
              (next_cell e.store b)
            ≡ some x)
          × Increasing (submitted_of x)
          × FromStore e.store x
    unfolding search_from
    search_from-Increasing e b k = elim (next_cell-cases t e.store k.consistent b k.low k.hint) [
      | inl (miss, all_assigned) ↦ (
        determined (build_csm e.store),
        ap (search_from verify_row t propagation_fuel fuel e) miss,
        (tt, tt),
        (λ r c hr hc. all_assigned r c (omega arith) hc (inl hr), refl),
      )
      | inr (p, hit, hr, hc, free, hint, first) ↦
          let w : World = record { engine = e; brancher = record b { min_unassigned_row = p.0 } } in
          let run =
            search-Searching fuel w (fresh_frame p ∷ []) []
              (record {
                tracks = record {
                  consistent = k.consistent;
                  trail = k.trail;
                  hint = hint;
                  low = omega (arith, hr);
                };
                stacked = inl ((refl, hr, hc, free), tt);
                ready = (FullBefore-Assigned e.store p.0 p.1 hc first, tt, tt);
                increasing = tt;
              })
              (unfold all_cost below_cost top_cost room in
                omega (
                  arith,
                  long,
                  cost_monotone 2
                      (free_below 16129 e.store.cells + length b.undo_stack - length b.undo_stack)
                      16129 (omega (arith, free_below-le 16129 e.store.cells)),
                )) in
          (
            searched run.0.submitted,
            ap (search_from verify_row t propagation_fuel fuel e) hit
                ∙ ap (λ x. x >>= (λ st. some (searched st.submitted))) run.1,
            run.2.increasing,
            tt,
          )
    ]

    -- On a world that the search can start from, and with fuel for both loops, the enumeration ends,
    -- and the matrices that it submits, if any, come in strictly increasing order: of two of them, row
    -- by row, the earlier has 0 and the later 1 at the first bit where they differ.
    pub enumerate_solutions_lex-Increasing :
        (w : World)
        → Tracks t w.engine.store w.brancher
        → (x : Enumeration) × (enumerate_solutions_lex verify_row t propagation_fuel fuel w
            ≡ some x)
          × Increasing (submitted_of x)
    unfolding enumerate_solutions_lex after_initial
    enumerate_solutions_lex-Increasing w k = by_answer (initial w k)
      where
        by_answer :
            ((a : Bool) × (e : Engine) × (propagate t propagation_fuel all_lines
                  (reset_forced t w.engine)
                ≡ some (a, e))
              × Tracks t e.store (record_all e.forced w.brancher)
              × Recorded t ok w.engine.store w.brancher.undo_stack w.brancher e)
            → (x : Enumeration) × (enumerate_solutions_lex verify_row t propagation_fuel fuel w
                ≡ some x)
              × Increasing (submitted_of x)
        by_answer (false, e, run, tracks, rec) = (
          infeasible_start,
          ap (λ x. x >>= after_initial verify_row t propagation_fuel fuel w.brancher) run,
          tt,
        )
        by_answer (true, e, run, tracks, rec) =
            let found = search_from-Increasing e (record_all e.forced w.brancher) tracks in
            (
              found.0,
              ap (λ x. x >>= after_initial verify_row t propagation_fuel fuel w.brancher) run
                  ∙ found.1,
              found.2,
            )
