-- ===== src/Search.antt =====
-- EnumerationController::enumerateSolutionsLex
-- (src/Decompress/Solvers/EnumerationController_enumerateSolutionsLex.cpp): the depth-first search
-- with its own stack. What it submits to the pipeline is a list; the counters that are only reported
-- and the profile that CRSCE_B40_PROFILE asks for are left out.
pub mod Trail
pub mod Try
pub mod Lex
pub mod Cost
pub mod Visit
pub mod Descend
pub mod Round
pub mod Queue
pub mod Ends
pub mod Leftover
pub mod Determined
use crsce.Prelude.{
  ℕ, zero, suc, ◌+◌, ◌*◌, Bool, true, false, Option, none, some, List, [], ◌∷◌, ◌++◌, map, range,
  ltb, leb, ◌==◌, ◌>>=◌, if◌then◌else◌,
}
use crsce.Lines.{
  Ltp, Cell, LineType, LineId, s, num_diags, row, column, diagonal, anti_diagonal, ltp1, ltp2,
}
use crsce.Store.{Store, get_row, assign}
use crsce.Csm.{Csm}
use crsce.Propagation.{Engine, propagate, try_propagate_cell, reset_forced}
use crsce.Branching.{Brancher, record_all, save_undo_point, next_cell}
use crsce.Prober.{World, place, undo, hash_ok}

-- A branching cell: the value to try next (2 if both were tried) and the save point before it.
pub record Frame : Type 0 where
  pub r : ℕ
  pub c : ℕ
  pub next_value : ℕ
  pub token : ℕ

-- The newest frame is the list's first.
pub record State : Type 0 where
  pub world : World
  pub frames : List Frame
  pub submitted : List Csm

unfoldable pub build_csm : Store → Csm
unfolding get_row
build_csm st = record { rows = λ r w. if ltb r s then get_row st r w else 0 }

-- {0, 1}
unfoldable pub branch_order : ℕ → ℕ
branch_order i = if i == 0 then 0 else 1

unfoldable pub lines_of : LineType → ℕ → List LineId
lines_of type n = map (λ i. record { type = type; index = i }) (range 0 n)

-- The queue of the initial propagation.
unfoldable pub all_lines : List LineId
unfolding lines_of
all_lines =
    lines_of row s
    ++ (lines_of column s
        ++ (lines_of diagonal num_diags
            ++ (lines_of anti_diagonal num_diags ++ (lines_of ltp1 s ++ lines_of ltp2 s))))

abbrev pub fresh_frame : ℕ × ℕ → Frame
fresh_frame p = record { r = p.0; c = p.1; next_value = 0; token = 0 }

-- What follows nextCell's answer: a matrix to submit, or a new frame.
unfoldable pub descend_to : List Frame → List Csm → World → Option Cell × Brancher → State
unfolding build_csm
descend_to frames submitted w (none, b) = record {
  world = record w { brancher = b };
  frames = frames;
  submitted = submitted ++ (build_csm w.engine.store ∷ []);
}
descend_to frames submitted w (some p, b) = record {
  world = record w { brancher = b };
  frames = fresh_frame p ∷ frames;
  submitted = submitted;
}

-- After a value that passed.
unfoldable pub descend : List Frame → List Csm → World → State
unfolding next_cell descend_to
descend frames submitted w = descend_to frames submitted w (next_cell w.engine.store w.brancher)

-- The undo of the value that was tried last.
unfoldable pub undo_tried : Ltp → Frame → World → World
unfolding undo
undo_tried t frame w = if ltb 0 frame.next_value then undo t frame.token w else w

-- How an enumeration goes: the initial propagation fails, or it assigns every cell, or it is searched.
pub data Enumeration : Type 0 where
  infeasible_start : Enumeration
  determined : Csm → Enumeration
  searched : List Csm → Enumeration

module _ (verify_row : ℕ → (ℕ → ℕ) → Bool) (t : Ltp) (propagation_fuel : ℕ) where
  -- A value is assigned, recorded, propagated and checked against the row checksums; nothing is undone.
  unfoldable pub try_value : ℕ → ℕ → ℕ → World → Option (Bool × World)
  unfolding place hash_ok record_all try_propagate_cell
  try_value r c v w =
      let placed = place t r c v w in
      elim (try_propagate_cell t propagation_fuel r c placed.engine) [
        | none ↦ none
        | some (false, e) ↦ some (false, record { engine = e; brancher = placed.brancher })
        | some (true, e) ↦ some (
          hash_ok verify_row e.store r e.forced,
          record { engine = e; brancher = record_all e.forced placed.brancher },
        )
      ]

  -- A value was tried, and passed or not.
  unfoldable pub after_value : List Frame → List Csm → Bool × World → State
  unfolding descend
  after_value frames submitted (passed, w) =
      if passed
      then descend frames submitted w
      else record { world = w; frames = frames; submitted = submitted }

  -- A round after the undo.
  unfoldable pub visit_undone : Frame → List Frame → List Csm → World → Option State
  unfolding try_value branch_order save_undo_point after_value
  visit_undone frame below submitted undone =
      if leb 2 frame.next_value
      then some (record { world = undone; frames = below; submitted = submitted })
      else (try_value frame.r frame.c (branch_order frame.next_value) undone >>= λ tried.
          let frames =
            record frame {
              next_value = frame.next_value + 1;
              token = save_undo_point undone.brancher;
            }
            ∷ below in
          some (after_value frames submitted tried))

  -- One round of the loop, on the newest frame.
  unfoldable pub visit : Frame → List Frame → List Csm → World → Option State
  unfolding undo_tried visit_undone
  visit frame below submitted w = visit_undone frame below submitted (undo_tried t frame w)

  -- The loop; `none` means that the fuel ran out.
  unfoldable pub search : ℕ → State → Option State
  unfolding visit
  search zero st = none
  search (suc fuel) st = elim st.frames [
    | [] ↦ some st
    | frame ∷ below ↦ visit frame below st.submitted st.world >>= search fuel
  ]

  -- From nextCell's first answer on.
  unfoldable pub search_from : ℕ → Engine → Option Cell × Brancher → Option Enumeration
  unfolding search build_csm
  search_from fuel e (none, b) = some (determined (build_csm e.store))
  search_from fuel e (some p, b) = do
    st ← search fuel (record {
      world = record { engine = e; brancher = b };
      frames = fresh_frame p ∷ [];
      submitted = [];
    })
    some (searched st.submitted)

  -- From the answer of the initial propagation on.
  unfoldable pub after_initial : ℕ → Brancher → Bool × Engine → Option Enumeration
  unfolding record_all next_cell search_from
  after_initial fuel b (false, e) = some infeasible_start
  after_initial fuel b (true, e) = search_from fuel e (next_cell e.store (record_all e.forced b))

  unfoldable pub enumerate_solutions_lex : ℕ → World → Option Enumeration
  unfolding propagate reset_forced after_initial all_lines
  enumerate_solutions_lex fuel w =
      propagate t propagation_fuel all_lines (reset_forced t w.engine)
      >>= after_initial fuel w.brancher
