-- ===== src/Search/Descend.antt =====
-- What follows a value that passed: a matrix to submit, or a fresh frame.
use crsce.Prelude.{
  ℕ, ◌+◌, ◌-◌, ◌/◌, ◌%◌, ◌∙◌, true, false, ◌<◌, ◌≡◌, refl, ap, inl, inr, ◌⊎◌, arith, none, some,
  List, [], ◌∷◌, ◌++◌, All, length,
}
use crsce.Lines.{Ltp, IsLtp, Cell, s}
use crsce.Csm.{Csm}
use crsce.Branching.{Brancher, next_cell}
use crsce.Branching.First.{FullBefore, next_cell-cases}
use crsce.Prober.{World}
use crsce.Search.{Frame, State, build_csm, fresh_frame, descend, descend_to}
use crsce.Search.Trail.{Tracks, room, assign-free}
use crsce.Search.Cost.{cost, below_cost, top_cost, all_cost, Framed, Framed-cost}
use crsce.Search.Visit.{Stacked, Searching, potential}
use crsce.Search.Lex.{
  Increasing, Under, Assigned, Ordered, place_of, Ordered-Ready, submitted-Ordered,
  Increasing-append, fresh-Ready,
}
use native.Mathlib.Decide.{dec_lt}
use crsce.Store.{Store, flat, is_unassigned}

pub Framed-Stacked : (fs : List Frame) (w : World) → Framed fs w.brancher.undo_stack → Stacked fs w
Framed-Stacked [] w a = tt
Framed-Stacked (f ∷ fs) w a = inr a

-- The cells before (r, c), by number.
pub FullBefore-Assigned :
    (st : Store) (r c : ℕ) → c < s → FullBefore st 0 r c → Assigned st.cells (flat r c)
FullBefore-Assigned st r c hc full z less =
    ap (λ (x : ℕ). is_unassigned (st.cells x)) {x = z} {y = flat (z / s) (z % s)} (omega arith)
    ∙ full (z / s) (z % s) (omega arith) (omega arith) (ground arith)

module _ (t : Ltp) (ok : IsLtp t) where
  -- After a value that passed there is a fresh frame, which costs less than what the value did, or none.
  abbrev pub Descends : List Frame → World → State → Type 0
  Descends frames w st =
      (potential st ≡ below_cost (room w.engine.store w.brancher) frames)
      ⊎ ((k : ℕ) × (0 < k)
          × (k + length w.brancher.undo_stack ≡ room w.engine.store w.brancher)
          × (potential st ≡ cost 2 k + below_cost (room w.engine.store w.brancher) frames))

  module _ (f : Frame) (fs : List Frame) (submitted : List Csm) (w : World)
      (k : Tracks t w.engine.store w.brancher) (framed : Framed (f ∷ fs) w.brancher.undo_stack)
      (increasing : Increasing submitted)
      (ordered : Ordered 16129 w.engine.store.cells submitted (f ∷ fs))
      (under : All (Under w.engine.store.cells (place_of f + 1)) submitted)
      (closed : is_unassigned (w.engine.store.cells (place_of f)) ≡ false) where
    abbrev frames : List Frame
    frames = f ∷ fs

    -- The first unassigned cell comes after the frame's.
    behind :
        (p : Cell)
        → p.1 < s
        → is_unassigned (w.engine.store.cells (flat p.0 p.1)) ≡ true
        → place_of f < flat p.0 p.1
    behind p small free = elim (dec_lt (place_of f) (flat p.0 p.1)) [
      | yes less ↦ less
      | no more ↦ elim (dec_lt (flat p.0 p.1) (place_of f)) [
        | yes before ↦ absurd (ground (arith, free, ordered.1 (flat p.0 p.1) before))
        | no here ↦ absurd (
            ground (
              arith,
              free,
              closed,
              ap w.engine.store.cells {x = flat p.0 p.1} {y = place_of f} (omega arith),
            ))
      ]
    ]

    descend-none :
        next_cell w.engine.store w.brancher ≡ (none, w.brancher)
        → descend frames submitted w ≡ record {
          world = w;
          frames = frames;
          submitted = submitted ++ (build_csm w.engine.store ∷ []);
        }
    unfolding descend descend_to
    descend-none h = ap (descend_to frames submitted w) h

    descend-some :
        (p : Cell) (b : Brancher)
        → next_cell w.engine.store w.brancher ≡ (some p, b)
        → descend frames submitted w ≡ record {
          world = record w { brancher = b };
          frames = fresh_frame p ∷ frames;
          submitted = submitted;
        }
    unfolding descend descend_to
    descend-some p b h = ap (descend_to frames submitted w) h

    pub descend-Searching :
        Searching t (descend frames submitted w) × Descends frames w (descend frames submitted w)
    descend-Searching =
        elim (next_cell-cases t w.engine.store k.consistent w.brancher k.low k.hint) [
          | inl (miss, all_assigned) ↦ rw (descend-none miss) (
            record {
              tracks = k;
              stacked = Framed-Stacked frames w framed;
              ready =
                  Ordered-Ready 16129 w.engine.store.cells
                    (submitted ++ (build_csm w.engine.store ∷ [])) frames
                    (submitted-Ordered t w.engine.store k.consistent 16129 submitted frames
                      (omega arith) ordered);
              increasing =
                  Increasing-append t w.engine.store k.consistent (place_of f + 1) submitted
                    (omega (arith, ordered.0)) under increasing;
            },
            inl (Framed-cost frames w.brancher.undo_stack _ _ framed),
          )
          | inr (p, hit, hr, hc, free, hint, first) ↦ rw (descend-some p _ hit) (
            record {
              tracks = record {
                consistent = k.consistent;
                trail = k.trail;
                hint = hint;
                low = omega (arith, hr);
              };
              stacked = inl ((refl, hr, hc, free), framed);
              ready =
                  fresh-Ready w.engine.store.cells submitted f (fresh_frame p) fs under ordered
                    (behind p hc free) (FullBefore-Assigned w.engine.store p.0 p.1 hc first);
              increasing = increasing;
            },
            inr (
              room w.engine.store w.brancher - length w.brancher.undo_stack,
              unfold room in
                  (omega
                    (arith, assign-free t ok w.engine.store w.brancher k p.0 p.1 0 hr hc free)),
              unfold room in omega arith,
              unfold room all_cost top_cost in refl,
            ),
          )
        ]
