-- ===== src/Search/Trail.antt =====
-- What the search keeps of the store, the undo stack and the scan's first row, and the undo.
use crsce.Prelude.{
  ℕ, zero, suc, ◌+◌, ◌≤◌, ◌<◌, ◌≡◌, refl, ap, inl, arith, true, false, List, [], ◌∷◌, ◌++◌, length,
  update, if◌then◌else◌, ◌⊎◌, ◌∙◌, All, ltb, min, length-append,
}
use crsce.Lines.{Ltp, IsLtp, Cell, s}
use crsce.Store.{CellState, unassigned, Store, flat, is_unassigned, state_of, assign, unassign}
use crsce.Store.Consistent.{Consistent}
use crsce.Store.Steps.{assign-Consistent, unassign-Consistent}
use crsce.Propagation.Force.{free_below, free_below-update}
use crsce.Branching.{Brancher, record_assignment, undo_entries, undo_to_save_point}
use crsce.Branching.First.{Hint}

-- Cells that are assigned, no cell twice: each is assigned when those before it are taken back.
abbrev pub IsTrail : (ℕ → CellState) → List Cell → Type 0
IsTrail f [] = Unit {0}
IsTrail f ((r, c) ∷ ps) =
    (r < s)
    × (c < s)
    × (is_unassigned (f (flat r c)) ≡ false)
    × IsTrail (update f (flat r c) unassigned) ps

-- Every cell that f assigns is assigned by g.
abbrev pub Extends : (ℕ → CellState) → (ℕ → CellState) → Type 0
Extends f g = (x : ℕ) → is_unassigned (f x) ≡ false → is_unassigned (g x) ≡ false

pub IsTrail-Extends :
    (f g : ℕ → CellState) (ps : List Cell) → Extends f g → IsTrail f ps → IsTrail g ps
IsTrail-Extends f g [] e a = tt
IsTrail-Extends f g ((r, c) ∷ ps) e (hr, hc, h, a) = (
  hr,
  hc,
  e (flat r c) h,
  IsTrail-Extends (update f (flat r c) unassigned) (update g (flat r c) unassigned) ps
      (λ x hx. ground (arith, e x, hx)) a,
)

free_below-clear :
    (n x : ℕ) (f : ℕ → CellState)
    → is_unassigned (f x) ≡ false
    → free_below n (update f x unassigned) ≡ free_below n f + (if ltb x n then 1 else 0)
unfolding free_below
free_below-clear zero x f h = ground arith
free_below-clear (suc n) x f h = ground (arith, h, free_below-clear n x f h)

pub record Tracks (t : Ltp) (st : Store) (b : Brancher) : Type 0 where
  pub consistent : Consistent t st
  pub trail : IsTrail st.cells b.undo_stack
  pub hint : Hint st b
  pub low : b.min_unassigned_row ≤ s

-- The unassigned cells and the recorded ones.
unfoldable pub room : Store → Brancher → ℕ
room st b = free_below 16129 st.cells + length b.undo_stack

module _ (t : Ltp) (ok : IsLtp t) where
  module _ (st : Store) (b : Brancher) (k : Tracks t st b) where
    module _ (r c v : ℕ) (hr : r < s) (hc : c < s)
        (h : is_unassigned (st.cells (flat r c)) ≡ true) where
      pub assign-Extends : Extends st.cells (assign t st r c v).cells
      unfolding assign
      assign-Extends x hx = ground (arith, hx)

      pub assign-Tracks : Tracks t (assign t st r c v) (record_assignment r c b)
      unfolding record_assignment
      assign-Tracks = record {
        consistent = assign-Consistent t ok st k.consistent r c hr hc v h;
        trail = (
          hr,
          hc,
          unfold assign in (ground arith),
          IsTrail-Extends st.cells _ b.undo_stack
              (unfold assign in λ x hx. ground (arith, hx, h, ap st.cells {x = flat r c} {y = x}))
              k.trail,
        );
        hint = λ r' c' lo hi before. assign-Extends _ (k.hint r' c' lo hi before);
        low = k.low;
      }

      pub assign-free : free_below 16129 (assign t st r c v).cells + 1 ≡ free_below 16129 st.cells
      unfolding assign
      assign-free =
          ground (
            arith,
            free_below-update 16129 (flat r c) st.cells (state_of v) h (ground arith),
            hr,
            hc,
          )

  -- One entry is taken back.
  module _ (st : Store) (r c : ℕ) (ps : List Cell) (m : ℕ)
      (k : Tracks t st (record { undo_stack = (r, c) ∷ ps; min_unassigned_row = m })) where
    below_min : (r' c' : ℕ) → (r' < min r m) ⊎ ((r' ≡ min r m) × (c' < 0)) → (r' < r) × (r' < m)
    below_min r' c' before = ground arith

    pub unassign-Tracks :
        Tracks t (unassign t st r c) (record { undo_stack = ps; min_unassigned_row = min r m })
    unassign-Tracks = record {
      consistent = unassign-Consistent t ok st k.consistent r c k.trail.0 k.trail.1 k.trail.2;
      trail = unfold unassign in k.trail.3;
      hint = λ r' c' lo hi before.
          unfold unassign in
          (ground (
            arith,
            k.hint r' c' lo hi (inl (below_min r' c' before).1),
            (below_min r' c' before).0,
            k.trail.1,
            hi,
          ));
      low = omega (arith, k.low);
    }

    pub unassign-free : free_below 16129 (unassign t st r c).cells ≡ free_below 16129 st.cells + 1
    unfolding unassign
    unassign-free =
        ground (arith, free_below-clear 16129 (flat r c) st.cells k.trail.2, k.trail.0, k.trail.1)

  -- What undoing leaves: the entries of xs are taken back, the newest first.
  abbrev pub unassign_all : List Cell → Store → Store
  unassign_all [] st = st
  unassign_all ((r, c) ∷ xs) st = unassign_all xs (unassign t st r c)

  abbrev pub lowest_row : List Cell → ℕ → ℕ
  lowest_row [] m = m
  lowest_row ((r, c) ∷ xs) m = lowest_row xs (min r m)

  undo_entries-below :
      (below : List Cell) (st : Store) (m : ℕ)
      → undo_entries t (length below) below st m ≡ (st, below, m)
  unfolding undo_entries
  undo_entries-below [] st m = refl
  undo_entries-below (p ∷ ps) st m = ground arith

  pub undo_entries-append :
      (above below : List Cell) (r c : ℕ) (st : Store) (m : ℕ)
      → undo_entries t (length below) (above ++ ((r, c) ∷ below)) st m
        ≡ (unassign t (unassign_all above st) r c, below, min r (lowest_row above m))
  unfolding undo_entries
  undo_entries-append [] below r c st m =
      rw longer (undo_entries-below below (unassign t st r c) (min r m))
    where
      longer : ltb (length below) (suc (length below)) ≡ true
      longer = ground arith
  undo_entries-append ((r', c') ∷ above) below r c st m =
      rw longer (undo_entries-append above below r c (unassign t st r' c') (min r' m))
    where
      longer : ltb (length below) (suc (length (above ++ ((r, c) ∷ below)))) ≡ true
      longer = ground (arith, length-append above ((r, c) ∷ below))

  module _ (below : List Cell) where
    unassign_all-Tracks :
        (xs : List Cell) (st : Store) (m : ℕ)
        → Tracks t st (record { undo_stack = xs ++ below; min_unassigned_row = m })
        → Tracks t
            (unassign_all xs st)
            (record { undo_stack = below; min_unassigned_row = lowest_row xs m })
          × (free_below 16129 (unassign_all xs st).cells ≡ free_below 16129 st.cells + length xs)
    unassign_all-Tracks [] st m k = (k, omega arith)
    unassign_all-Tracks ((r, c) ∷ xs) st m k =
        let rest =
          unassign_all-Tracks xs (unassign t st r c) (min r m)
            (unassign-Tracks st r c (xs ++ below) m k) in
        (rest.0, omega (arith, rest.1, unassign-free st r c (xs ++ below) m k))

  -- Cells before those that are taken back stay.
  unassign_all-before :
      (b : ℕ) (xs : List Cell) (st : Store)
      → All (λ p. b ≤ flat p.0 p.1) xs
      → (z : ℕ) → z < b
      → (unassign_all xs st).cells z ≡ st.cells z
  unfolding unassign
  unassign_all-before b [] st a z h = refl
  unassign_all-before b ((r, c) ∷ xs) st a z h =
      unassign_all-before b xs (unassign t st r c) a.1 z h ∙ ground (arith, a.0)

  -- Undoing to the save point that a recorded cell was made at.
  pub undo-Tracks :
      (below above : List Cell) (r c : ℕ) (st : Store) (m : ℕ)
      → Tracks t st (record { undo_stack = above ++ ((r, c) ∷ below); min_unassigned_row = m })
      → (st' : Store) × (b' : Brancher) × (undo_to_save_point t
            (length below)
            st
            (record { undo_stack = above ++ ((r, c) ∷ below); min_unassigned_row = m })
          ≡ (st', b'))
        × Tracks t st' b'
        × (b'.undo_stack ≡ below)
        × (r < s)
        × (c < s)
        × (is_unassigned (st'.cells (flat r c)) ≡ true)
        × (room st' b'
            ≡ room st (record { undo_stack = above ++ ((r, c) ∷ below); min_unassigned_row = m }))
        × (All (λ p. flat r c ≤ flat p.0 p.1) above
            → (z : ℕ) → z < flat r c
            → st'.cells z ≡ st.cells z)
  unfolding undo_to_save_point room
  undo-Tracks below above r c st m k =
      let upto = unassign_all above st in
      let low = lowest_row above m in
      let (k', free) = unassign_all-Tracks ((r, c) ∷ below) above st m k in
      (
        unassign t upto r c,
        record { undo_stack = below; min_unassigned_row = min r low },
        ap (λ x. (x.0, record { undo_stack = x.1; min_unassigned_row = x.2 }))
            (undo_entries-append above below r c st m),
        unassign-Tracks upto r c below low k',
        refl,
        k'.trail.0,
        k'.trail.1,
        unfold unassign in (ground arith),
        omega (
          arith,
          free,
          unassign-free upto r c below low k',
          length-append above ((r, c) ∷ below),
        ),
        λ later z h.
            unfold unassign in (ground arith) ∙ unassign_all-before (flat r c) above st later z h,
      )
