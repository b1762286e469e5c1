-- ===== src/Search/Round.antt =====
-- One round of the search: its end, what it keeps, and its cost.
use crsce.Prelude.{
  ℕ, ◌+◌, ◌-◌, ◌≤◌, ◌<◌, ◌≡◌, refl, ap, sym, subst, inl, inr, ◌⊎◌, arith, Bool, true, false, Option,
  some, List, ◌∷◌, ◌++◌, length, leb, length-append, Bool-cases, All, ◌∙◌,
}
use crsce.Lines.{Ltp, IsLtp, Cell}
use crsce.Csm.{Csm}
use crsce.Branching.{save_undo_point}
use crsce.Prober.{World}
use crsce.Search.{Frame, State, branch_order, try_value, visit, visit_undone, after_value}
use crsce.Search.Trail.{Tracks, room}
use crsce.Search.Try.{Later, try_value-Tracks}
use crsce.Store.{is_unassigned}
use crsce.Search.Lex.{
  Under, Ordered, Ready, place_of, Ready-Same, Ordered-Ready, tried-Under, tried-Ordered,
}
use crsce.Search.Cost.{
  cost, cost-pos, below_cost, all_cost, Framed, Framed-cost, tried-cost, tried-fresh,
}
use crsce.Search.Descend.{Framed-Stacked, descend-Searching}
use crsce.Search.Visit.{Searching, potential, Undone, undo_tried-Undone}

module _ (t : Ltp) (ok : IsLtp t) where
  module _ (verify_row : ℕ → (ℕ → ℕ) → Bool) (fuel : ℕ) (enough : 161300 < fuel) where
    Lower : List Frame → World → State → Type 0
    Lower frames w st =
        potential st
        < all_cost (room w.engine.store w.brancher) (length w.brancher.undo_stack) frames

    module _ (f : Frame) (fs : List Frame) (submitted : List Csm) (w : World)
        (k : Searching t (record { world = w; frames = f ∷ fs; submitted = submitted })) where
      abbrev Visits : Option State → Type 0
      Visits result =
          (st : State) × (result ≡ some st)
          × Searching t st
          × (potential st
              < potential (record { world = w; frames = f ∷ fs; submitted = submitted }))

      module _ (w1 : World) (u : Undone t ok f fs w w1) where
        before :
            potential (record { world = w; frames = f ∷ fs; submitted = submitted })
            ≡ cost
                (2 - f.next_value)
                (room w1.engine.store w1.brancher - length w1.brancher.undo_stack)
              + below_cost (room w1.engine.store w1.brancher) fs
        unfolding all_cost
        before = omega (arith, u.price, ap (λ (n : ℕ). below_cost n fs) u.same_room)

        undone-Ready : Ready w1.engine.store.cells submitted (f ∷ fs)
        undone-Ready =
            Ready-Same w.engine.store.cells w1.engine.store.cells (place_of f) submitted f fs
              (omega arith) u.before k.ready

        -- Both values were tried.
        exhausted :
            leb 2 f.next_value ≡ true → Visits (visit_undone verify_row t fuel f fs submitted w1)
        unfolding visit_undone
        exhausted h = (
          record { world = w1; frames = fs; submitted = submitted },
          rw (h, visit_undone) refl,
          record {
            tracks = u.tracks;
            stacked = Framed-Stacked fs w1 u.framed;
            ready = Ordered-Ready (place_of f) w1.engine.store.cells submitted fs undone-Ready.2;
            increasing = k.increasing;
          },
          omega (
            arith,
            before,
            Framed-cost fs w1.brancher.undo_stack (room w1.engine.store w1.brancher)
                (length w1.brancher.undo_stack) u.framed,
            cost-pos (2 - f.next_value)
                (room w1.engine.store w1.brancher - length w1.brancher.undo_stack),
          ),
        )

        module _ (left : f.next_value < 2) (passed : Bool) (w2 : World)
            (run : try_value verify_row t fuel f.r f.c (branch_order f.next_value) w1
              ≡ some (passed, w2))
            (tracks : Tracks t w2.engine.store w2.brancher) (above : List Cell)
            (stack : w2.brancher.undo_stack ≡ above ++ ((f.r, f.c) ∷ w1.brancher.undo_stack))
            (later : Later f.r f.c
              (branch_order f.next_value)
              w1.engine.store.cells
              w2.engine.store.cells
              above)
            (no_more : room w2.engine.store w2.brancher ≤ room w1.engine.store w1.brancher) where
          abbrev now : Frame
          now = record f { next_value = f.next_value + 1; token = save_undo_point w1.brancher }

          visits-value :
              visit_undone verify_row t fuel f fs submitted w1
              ≡ some (after_value verify_row t fuel (now ∷ fs) submitted (passed, w2))
          unfolding visit_undone
          visits-value = rw (several_left, run, visit_undone) refl
            where
              several_left : leb 2 f.next_value ≡ false
              several_left = ground arith

          now-Framed : Framed (now ∷ fs) w2.brancher.undo_stack
          unfolding save_undo_point
          now-Framed = (
            above,
            w1.brancher.undo_stack,
            stack,
            refl,
            omega arith,
            (later undone-Ready.0).0,
            u.framed,
          )

          tried-Ready : Ready w2.engine.store.cells submitted (f ∷ fs)
          tried-Ready =
              Ready-Same w1.engine.store.cells w2.engine.store.cells (place_of f) submitted f fs
                (omega arith) (later undone-Ready.0).1 undone-Ready

          now-Ordered : Ordered 16129 w2.engine.store.cells submitted (now ∷ fs)
          now-Ordered =
              tried-Ordered w2.engine.store.cells submitted f fs left (later undone-Ready.0).2
                (save_undo_point w1.brancher) (omega (arith, u.row_small, u.col_small)) tried-Ready

          now-Under : All (Under w2.engine.store.cells (place_of f + 1)) submitted
          now-Under =
              tried-Under w2.engine.store.cells submitted f fs left (later undone-Ready.0).2
                tried-Ready

          closed : is_unassigned (w2.engine.store.cells (place_of f)) ≡ false
          unfolding branch_order
          closed = ap is_unassigned (later undone-Ready.0).2 ∙ ground arith

          next_state : State
          next_state = after_value verify_row t fuel (now ∷ fs) submitted (passed, w2)

          price :
              (below_cost (room w2.engine.store w2.brancher) (now ∷ fs) + 1
                ≤ potential (record { world = w; frames = f ∷ fs; submitted = submitted }))
              × ((j : ℕ)
                  → 0 < j
                  → j + length w2.brancher.undo_stack ≡ room w2.engine.store w2.brancher
                  → cost 2 j + below_cost (room w2.engine.store w2.brancher) (now ∷ fs)
                    < potential (record { world = w; frames = f ∷ fs; submitted = submitted }))
          unfolding save_undo_point
          price =
              let n = room w1.engine.store w1.brancher in
              let n' = room w2.engine.store w2.brancher in
              let token = length w1.brancher.undo_stack in
              let longer = length-append above ((f.r, f.c) ∷ w1.brancher.undo_stack) in
              (
                omega (arith, before, tried-cost f fs n n' token left no_more),
                λ j pos all. omega (
                  arith,
                  before,
                  tried-fresh f fs n n' token left no_more j pos
                      (omega (arith, all, ap length stack, longer, no_more)),
                ),
              )

          valued :
              Searching t next_state
              × (potential next_state
                  < potential (record { world = w; frames = f ∷ fs; submitted = submitted }))
          unfolding next_state after_value
          valued = by_answer (Bool-cases passed)
            where
              by_answer :
                  (passed ≡ true) ⊎ (passed ≡ false)
                  → Searching t (after_value verify_row t fuel (now ∷ fs) submitted (passed, w2))
                    × (potential (after_value verify_row t fuel (now ∷ fs) submitted (passed, w2))
                        < potential (record { world = w; frames = f ∷ fs; submitted = submitted }))
              by_answer (inl good) =
                  let d =
                    descend-Searching t ok now fs submitted w2 tracks now-Framed k.increasing
                      now-Ordered now-Under closed in
                  rw good (
                    d.0,
                    elim d.1 [
                      | inl less ↦ omega (arith, less, price.0)
                      | inr (j, pos, all, less) ↦ omega (arith, less, price.1 j pos all)
                    ],
                  )
              by_answer (inr failed) = rw failed (
                record {
                  tracks = tracks;
                  stacked = inr now-Framed;
                  ready =
                      Ordered-Ready 16129 w2.engine.store.cells submitted (now ∷ fs) now-Ordered;
                  increasing = k.increasing;
                },
                omega (
                  arith,
                  price.0,
                  Framed-cost (now ∷ fs) w2.brancher.undo_stack (room w2.engine.store w2.brancher)
                      (length w2.brancher.undo_stack) now-Framed,
                ),
              )

      Visits-Undone :
          (w1 : World)
          → Undone t ok f fs w w1
          → Visits (visit_undone verify_row t fuel f fs submitted w1)
      Visits-Undone w1 u = elim (Bool-cases (leb 2 f.next_value)) [
        | inl all_tried ↦ exhausted w1 u all_tried
        | inr some_left ↦
            let less : f.next_value < 2 = ground (arith, some_left) in
            let run =
              try_value-Tracks t ok w1 f.r f.c (branch_order f.next_value) u.tracks u.row_small
                u.col_small u.free verify_row fuel enough in
            let kept = valued w1 u less run.0 run.1 run.2 run.3 run.4.0 run.4.1 run.4.2 run.5 in
            (
              after_value verify_row t fuel
                  (now w1 u less run.0 run.1 run.2 run.3 run.4.0 run.4.1 run.4.2 run.5 ∷ fs)
                  submitted (run.0, run.1),
              visits-value w1 u less run.0 run.1 run.2 run.3 run.4.0 run.4.1 run.4.2 run.5,
              unfold next_state in kept.0,
              unfold next_state in kept.1,
            )
      ]

      -- A round ends, keeps the invariant, and the bound falls.
      pub visit-Searching : Visits (visit verify_row t fuel f fs submitted w)
      unfolding visit
      visit-Searching =
          let u = undo_tried-Undone t ok f fs w k.tracks k.stacked in
          subst (λ x. Visits (visit_undone verify_row t fuel f fs submitted x)) (sym u.1.right)
            (Visits-Undone u.0 u.1)
