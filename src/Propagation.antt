-- ===== src/Propagation.antt =====
-- PropagationEngine (include/decompress/Solvers/PropagationEngine.h and
-- src/Decompress/Solvers/PropagationEngine_*.cpp): the work list of lines, the cells that a line
-- forces, and the fast path for one cell. `work` holds the lines from index `front` on.
pub mod Judge
pub mod Force
pub mod Forcing
pub mod Sound
pub mod Loop
pub mod Outcome
pub mod Waiting
pub mod Quiet
pub mod Settled
use crsce.Prelude.{
  ℕ, zero, suc, ◌+◌, ◌-◌, ◌*◌, Bool, true, false, ◌&&◌, ◌||◌, Option, none, some, List, [], ◌∷◌,
  ◌++◌, ltb, leb, ◌==◌, if◌then◌else◌,
}
use crsce.Prelude.Int.{ℤ, pos, negsuc, sub_ℕ}
use crsce.Lines.{
  Ltp, LineId, Cell, s, num_diags, line_index, cells_on_line, lines_for_cell, line_indices,
}
use crsce.Store.{Store, LineStat, is_unassigned, get_cell_state, get_stat, assign}
use crsce.Queued.{QueuedSet, is_queued, mark_queued, clear_queued, reset_queued}

pub record Assignment : Type 0 where
  pub r : ℕ
  pub c : ℕ
  pub value : ℕ
  pub antecedent_line : ℕ

pub record Engine : Type 0 where
  pub store : Store
  pub forced : List Assignment
  pub work : List LineId
  pub queued : QueuedSet

-- getResidual: rho(L) = S(L) - a(L), an int32
unfoldable pub get_residual : LineStat → ℤ
get_residual l = sub_ℕ l.target l.assigned

-- rho < 0 || rho > u
unfoldable pub is_infeasible : ℤ → ℕ → Bool
is_infeasible (pos rho) u = ltb u rho
is_infeasible (negsuc n) u = true

-- What a line calls for: give up, go on, or force all its unassigned cells to a value.
pub data Verdict : Type 0 where
  infeasible skip : Verdict
  force : ℕ → Verdict

unfoldable pub judge : LineStat → Verdict
unfolding get_residual is_infeasible
judge l =
    let rho = get_residual l in
    let u = l.unknown in
    if is_infeasible rho u then infeasible else if u == 0 then skip else elim rho [
      | pos n ↦ if n == 0 then force 0 else if n == u then force 1 else skip
      | negsuc n ↦ skip
    ]

-- if (!isQueued(idx)) { markQueued(idx); work_.push_back(line); }
unfoldable pub push_line : LineId → Engine → Engine
push_line l e =
    if is_queued e.queued (line_index l)
    then e
    else record e { work = e.work ++ (l ∷ []); queued = mark_queued e.queued (line_index l) }

unfoldable pub enqueue : List LineId → Engine → Engine
unfolding push_line
enqueue [] e = e
enqueue (l ∷ ls) e = enqueue ls (push_line l e)

-- rho == 0 || rho == u
unfoldable pub is_forcing : ℤ → ℕ → Bool
is_forcing (pos rho) u = (rho == 0) || (rho == u)
is_forcing (negsuc n) u = false

module _ (t : Ltp) where
  -- The callback of forEachCellOnLine.
  unfoldable pub force_cell : ℕ → ℕ → Cell → Engine → Engine
  unfolding enqueue get_cell_state
  force_cell v line (r, c) e =
      if is_unassigned (get_cell_state e.store r c)
      then enqueue (lines_for_cell t r c) (record e {
        store = assign t e.store r c v;
        forced = e.forced ++ (record { r = r; c = c; value = v; antecedent_line = line } ∷ []);
      })
      else e

  unfoldable pub force_cells : ℕ → ℕ → List Cell → Engine → Engine
  unfolding force_cell
  force_cells v line [] e = e
  force_cells v line (p ∷ ps) e = force_cells v line ps (force_cell v line p e)

  unfoldable pub pop : LineId → List LineId → Engine → Engine
  pop line rest e = record e { work = rest; queued = clear_queued e.queued (line_index line) }

  -- The loop of propagate; `none` means that the fuel ran out.
  unfoldable pub propagate_loop : ℕ → Engine → Option (Bool × Engine)
  unfolding force_cells pop judge get_stat
  propagate_loop zero e = none
  propagate_loop (suc fuel) e = elim e.work [
    | [] ↦ some (true, e)
    | line ∷ rest ↦ elim (judge (get_stat e.store line)) [
      | infeasible ↦ some (false, pop line rest e)
      | skip ↦ propagate_loop fuel (pop line rest e)
      | force v ↦
          propagate_loop fuel
            (force_cells v (line_index line) (cells_on_line t line) (pop line rest e))
    ]
  ]

  unfoldable pub mark_all : List LineId → QueuedSet → QueuedSet
  mark_all [] q = q
  mark_all (l ∷ ls) q = mark_all ls (mark_queued q (line_index l))

  unfoldable pub propagate : ℕ → List LineId → Engine → Option (Bool × Engine)
  unfolding propagate_loop mark_all
  propagate fuel queue e =
      propagate_loop fuel
        (record e { work = queue; queued = mark_all queue (reset_queued e.queued) })

  -- reset
  unfoldable pub reset_forced : Engine → Engine
  reset_forced e = record e { forced = [] }

  -- The indices of the fast path's array: the first two LTP entries whatever the count.
  unfoldable pub fast_indices : ℕ → ℕ → List ℕ
  fast_indices r c =
      let mem = t.membership r c in
      r
      ∷ (s + c)
      ∷ (2 * s + (c + 126 - r))
      ∷ (2 * s + num_diags + (r + c))
      ∷ mem.flat 0
      ∷ mem.flat 1
      ∷ []

  -- The loop over the six lines: `none` if one is infeasible, else whether one forces.
  unfoldable pub scan : Store → List ℕ → Bool → Option Bool
  unfolding is_infeasible is_forcing get_residual
  scan st [] needs = some needs
  scan st (i ∷ is) needs =
      let l = st.stats i in
      let rest = scan st is (needs || (ltb 0 l.unknown && is_forcing (get_residual l) l.unknown)) in
      if is_infeasible (get_residual l) l.unknown then none else rest

  unfoldable pub try_propagate_cell : ℕ → ℕ → ℕ → Engine → Option (Bool × Engine)
  unfolding scan fast_indices reset_forced propagate
  try_propagate_cell fuel r c e =
      let e' = reset_forced e in
      elim (scan e'.store (fast_indices r c) false) [
        | none ↦ some (false, e')
        | some false ↦ some (true, e')
        | some true ↦ propagate fuel (lines_for_cell t r c) e'
      ]
