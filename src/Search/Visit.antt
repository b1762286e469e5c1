-- ===== src/Search/Visit.antt =====
-- One round of the search: what it keeps, and that the bound on the rounds falls.
use crsce.Prelude.{
  ℕ, ◌-◌, ◌<◌, ◌≡◌, refl, ap, ◌∙◌, sym, inl, inr, ◌⊎◌, arith, true, List, [], ◌∷◌, ◌++◌, length,
}
use crsce.Lines.{Ltp, IsLtp, s}
use crsce.Store.{Store, flat, is_unassigned}
use crsce.Branching.{Brancher, undo_to_save_point}
use crsce.Prober.{World, undo}
use crsce.Search.{Frame, State, undo_tried}
use crsce.Search.Lex.{Same, Ready, Increasing}
use crsce.Search.Trail.{Tracks, room, undo-Tracks}
use crsce.Search.Try.{Tracks-same}
use crsce.Search.Cost.{cost, top_cost, all_cost, Framed}

-- A frame whose values were not tried.
abbrev pub Fresh : Store → Frame → Type 0
Fresh st f =
    (f.next_value ≡ 0) × (f.r < s) × (f.c < s) × (is_unassigned (st.cells (flat f.r f.c)) ≡ true)

-- Only the newest frame can be fresh.
abbrev pub Stacked : List Frame → World → Type 0
Stacked [] w = Unit {0}
Stacked (f ∷ fs) w =
    (Fresh w.engine.store f × Framed fs w.brancher.undo_stack)
    ⊎ Framed (f ∷ fs) w.brancher.undo_stack

pub record Searching (t : Ltp) (st : State) : Type 0 where
  pub tracks : Tracks t st.world.engine.store st.world.brancher
  pub stacked : Stacked st.frames st.world
  pub ready : Ready st.world.engine.store.cells st.submitted st.frames
  pub increasing : Increasing st.submitted

abbrev pub potential : State → ℕ
potential st =
    all_cost (room st.world.engine.store st.world.brancher) (length st.world.brancher.undo_stack)
      st.frames

module _ (t : Ltp) (ok : IsLtp t) where
  -- The newest frame's cell is unassigned again.
  pub record Undone (f : Frame) (fs : List Frame) (w w' : World) : Type 0 where
    pub right : undo_tried t f w ≡ w'
    pub tracks : Tracks t w'.engine.store w'.brancher
    pub row_small : f.r < s
    pub col_small : f.c < s
    pub free : is_unassigned (w'.engine.store.cells (flat f.r f.c)) ≡ true
    pub framed : Framed fs w'.brancher.undo_stack
    pub before : Same (flat f.r f.c) w.engine.store.cells w'.engine.store.cells
    pub same_room : room w'.engine.store w'.brancher ≡ room w.engine.store w.brancher
    pub price :
        top_cost (room w.engine.store w.brancher) (length w.brancher.undo_stack) f
        ≡ cost (2 - f.next_value) (room w'.engine.store w'.brancher - length w'.brancher.undo_stack)

  undo_tried-next : (f : Frame) (w : World) → 0 < f.next_value → undo_tried t f w ≡ undo t f.token w
  unfolding undo_tried
  undo_tried-next f w h = ground arith

  undo-store :
      (token : ℕ) (w : World) (st : Store) (b : Brancher)
      → undo_to_save_point t token w.engine.store w.brancher ≡ (st, b)
      → undo t token w ≡ record { engine = record w.engine { store = st }; brancher = b }
  unfolding undo
  undo-store token w st b h =
      ap (λ x. record { engine = record w.engine { store = x.0 }; brancher = x.1 }) h

  top_cost-next :
      (n depth : ℕ) (f : Frame)
      → 0 < f.next_value
      → top_cost n depth f ≡ cost (2 - f.next_value) (n - f.token)
  unfolding top_cost
  top_cost-next n depth f h = ground arith

  pub undo_tried-Undone :
      (f : Frame) (fs : List Frame) (w : World)
      → Tracks t w.engine.store w.brancher
      → Stacked (f ∷ fs) w
      → (w' : World) × Undone f fs w w'
  unfolding undo_tried undo top_cost
  undo_tried-Undone f fs w k (inl (fresh, framed)) = (
    w,
    record {
      right = ground (arith, fresh.0);
      tracks = k;
      row_small = fresh.1;
      col_small = fresh.2;
      free = fresh.3;
      framed = framed;
      before = λ z h. refl;
      same_room = refl;
      price = ground (arith, fresh.0);
    },
  )
  undo_tried-Undone f fs w k (inr (above, below, e, at, pos, later, framed)) =
      let b : Brancher = record w.brancher { undo_stack = above ++ ((f.r, f.c) ∷ below) } in
      let same : w.brancher ≡ b = (λ i. record w.brancher { undo_stack = e i }) in
      let undone =
        undo-Tracks t ok below above f.r f.c w.engine.store w.brancher.min_unassigned_row
          (Tracks-same t w.engine.store w.brancher b e refl k) in
      let rooms = undone.8 ∙ ap (room w.engine.store) (sym same) in
      (
        record w { engine = record w.engine { store = undone.0 }; brancher = undone.1 },
        record {
          right =
              undo_tried-next f w pos
              ∙ undo-store f.token w undone.0 undone.1 (
                  ap (λ token. undo_to_save_point t token w.engine.store w.brancher) at
                  ∙ ap (undo_to_save_point t (length below) w.engine.store) same
                  ∙ undone.2);
          tracks = undone.3;
          row_small = undone.5;
          col_small = undone.6;
          free = undone.7;
          framed = rw undone.4 framed;
          before = undone.9 later;
          same_room = rooms;
          price =
              top_cost-next _ _ f pos
              ∙ ap (cost (2 - f.next_value)) (omega (arith, at, ap length undone.4, rooms));
        },
      )
