-- ===== src/Branching/Undo.antt =====
-- Undoing to a save point gives back the store and the stack of that moment.
use crsce.Prelude.{
  ℕ, suc, ◌<◌, ◌≡◌, refl, arith, true, List, [], ◌∷◌, ◌++◌, ltb, length, length-append, min,
}
use crsce.Lines.{Ltp, IsLtp, Cell, s}
use crsce.Store.{Store, flat, is_unassigned, assign}
use crsce.Store.Consistent.{Consistent}
use crsce.Store.Steps.{assign-Consistent}
use crsce.Store.Undo.{unassign-assign}
use crsce.Branching.{Brancher, undo_entries, undo_to_save_point, save_undo_point}

-- A cell and the value it was given.
abbrev pub Move : Type 0
Move = ℕ × ℕ × ℕ

-- The store after the moves, the newest first, and the entries they leave on the stack.
abbrev pub replay : Ltp → Store → List Move → Store
replay t st [] = st
replay t st ((r, c, v) ∷ ms) = assign t (replay t st ms) r c v

abbrev pub entries : List Move → List Cell
entries [] = []
entries ((r, c, v) ∷ ms) = (r, c) ∷ entries ms

-- Every move assigned a cell of the matrix that was unassigned at its turn.
abbrev pub Playable : Ltp → Store → List Move → Type 0
Playable t st [] = Unit {0}
Playable t st ((r, c, v) ∷ ms) =
    Playable t st ms
    × (r < s)
    × (c < s)
    × (is_unassigned ((replay t st ms).cells (flat r c)) ≡ true)

-- The lowest row of the moves.
abbrev pub lowest : List Move → ℕ → ℕ
lowest [] m = m
lowest ((r, c, v) ∷ ms) m = lowest ms (min r m)

undo_entries_stop :
    (t : Ltp) (stack : List Cell) (st : Store) (m : ℕ)
    → undo_entries t (length stack) stack st m ≡ (st, stack, m)
unfolding undo_entries
undo_entries_stop t [] st m = refl
undo_entries_stop t (p ∷ ps) st m = ground arith

module _ (t : Ltp) (ok : IsLtp t) (st : Store) (k : Consistent t st) where
  pub replay-Consistent : (ms : List Move) → Playable t st ms → Consistent t (replay t st ms)
  replay-Consistent [] p = k
  replay-Consistent ((r, c, v) ∷ ms) (p, hr, hc, h) =
      assign-Consistent t ok (replay t st ms) (replay-Consistent ms p) r c hr hc v h

  undo_moves :
      (ms : List Move) (stack : List Cell) (m : ℕ)
      → Playable t st ms
      → undo_entries t (length stack) (entries ms ++ stack) (replay t st ms) m
        ≡ (st, stack, lowest ms m)
  unfolding undo_entries
  undo_moves [] stack m p = undo_entries_stop t stack st m
  undo_moves ((r, c, v) ∷ ms) stack m (p, hr, hc, h) =
      rw
        (
          unassign-assign t ok (replay t st ms) (replay-Consistent ms p) r c v hr hc h,
          ltb-longer ms,
        )
        (undo_moves ms stack (min r m) p)
    where
      ltb-longer : (ms : List Move) → ltb (length stack) (suc (length (entries ms ++ stack))) ≡ true
      ltb-longer ms = ground (arith, length-append (entries ms) stack)

  -- If since a save point a list of cells was assigned and recorded, each unassigned at its turn,
  -- then undoing to that point gives back the store exactly, and the stack, and the scan's first row
  -- is at most every row that was undone.
  pub undo_to_save_point-replay :
      (ms : List Move) (b : Brancher) (m : ℕ)
      → Playable t st ms
      → undo_to_save_point t
          (save_undo_point b)
          (replay t st ms)
          (record { undo_stack = entries ms ++ b.undo_stack; min_unassigned_row = m })
        ≡ (st, record { undo_stack = b.undo_stack; min_unassigned_row = lowest ms m })
  unfolding undo_to_save_point save_undo_point
  undo_to_save_point-replay ms b m p = rw (undo_moves ms b.undo_stack m p)
