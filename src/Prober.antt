-- ===== src/Prober.antt =====
-- FailedLiteralProber (include/decompress/Solvers/FailedLiteralProber.h and
-- src/Decompress/Solvers/FailedLiteralProber_*.cpp): trying a value of a cell and taking it back.
-- The engine holds the store that the brancher undoes; `verify_row` is the IHashVerifier given.
pub mod Record
pub mod Restore
use crsce.Prelude.{
  ℕ, zero, suc, ◌+◌, Bool, true, false, not, ◌&&◌, ◌||◌, Option, none, some, List, [], ◌∷◌, ltb,
  ◌==◌, ◌>>=◌, if◌then◌else◌,
}
use crsce.Lines.{Ltp, Cell, s}
use crsce.Store.{Store, is_unassigned, get_cell_state, get_row, assign}
use crsce.Propagation.{Assignment, Engine, try_propagate_cell}
use crsce.Branching.{
  Brancher, record_assignment, record_all, save_undo_point, undo_to_save_point, next_cell,
}

pub record World : Type 0 where
  pub engine : Engine
  pub brancher : Brancher

pub record ProbeResult : Type 0 where
  pub row : ℕ
  pub col : ℕ
  pub forced_value : ℕ
  pub both_infeasible : Bool

-- The assignment of a value, recorded.
unfoldable pub place : Ltp → ℕ → ℕ → ℕ → World → World
unfolding record_assignment
place t r c v w = record {
  engine = record w.engine { store = assign t w.engine.store r c v };
  brancher = record_assignment r c w.brancher;
}

unfoldable pub undo : Ltp → ℕ → World → World
unfolding undo_to_save_point
undo t token w =
    let (st, b) = undo_to_save_point t token w.engine.store w.brancher in
    record { engine = record w.engine { store = st }; brancher = b }

module _ (verify_row : ℕ → (ℕ → ℕ) → Bool) where
  -- A row with unknowns passes; a full row is verified.
  unfoldable pub row_ok : Store → ℕ → Bool
  unfolding get_row
  row_ok st r = if (st.stats r).unknown == 0 then verify_row r (get_row st r) else true

  -- The loop over the forced assignments: rows other than r.
  unfoldable pub forced_rows_ok : Store → ℕ → List Assignment → Bool
  unfolding row_ok
  forced_rows_ok st r [] = true
  forced_rows_ok st r (a ∷ more) =
      let rest = forced_rows_ok st r more in if not (a.r == r) then row_ok st a.r && rest else rest

  unfoldable pub hash_ok : Store → ℕ → List Assignment → Bool
  unfolding forced_rows_ok
  hash_ok st r forced = row_ok st r && forced_rows_ok st r forced

  module _ (t : Ltp) where
    -- `none` means that the fuel of the propagation ran out.
    unfoldable pub try_probe_value : ℕ → ℕ → ℕ → ℕ → World → Option (Bool × World)
    unfolding place undo hash_ok save_undo_point record_all try_propagate_cell
    try_probe_value fuel r c v w =
        let token = save_undo_point w.brancher in
        let placed = place t r c v w in
        elim (try_propagate_cell t fuel r c placed.engine) [
          | none ↦ none
          | some (false, e) ↦
              some (false, undo t token (record { engine = e; brancher = placed.brancher }))
          | some (true, e) ↦ some (
            hash_ok e.store r e.forced,
            undo t token (record { engine = e; brancher = record_all e.forced placed.brancher }),
          )
        ]

    unfoldable pub probe_cell : ℕ → ℕ → ℕ → World → Option (ProbeResult × World)
    unfolding try_probe_value
    probe_cell fuel r c w = do
      (zero_ok, w0) ← try_probe_value fuel r c 0 w
      (one_ok, w1) ← try_probe_value fuel r c 1 w0
      some (
        record {
          row = r;
          col = c;
          forced_value =
              if zero_ok then (if one_ok then 255 else 0) else (if one_ok then 1 else 255);
          both_infeasible = not zero_ok && not one_ok;
        },
        w1,
      )

    unfoldable pub probe_alternate : ℕ → ℕ → ℕ → ℕ → World → Option (Bool × World)
    unfolding try_probe_value
    probe_alternate fuel r c v w = try_probe_value fuel r c v w

    -- Steps 1 to 5 of probeAlternateDeep: if they fail then they are undone.
    unfoldable pub tentative : ℕ → ℕ → ℕ → ℕ → World → Option (Bool × World)
    unfolding place undo hash_ok save_undo_point record_all try_propagate_cell
    tentative fuel r c v w =
        let token = save_undo_point w.brancher in
        let placed = place t r c v w in
        elim (try_propagate_cell t fuel r c placed.engine) [
          | none ↦ none
          | some (false, e) ↦
              some (false, undo t token (record { engine = e; brancher = placed.brancher }))
          | some (true, e) ↦
              let recorded : World = record {
                engine = e;
                brancher = record_all e.forced placed.brancher;
              } in
              some (
                hash_ok e.store r e.forced,
                if hash_ok e.store r e.forced then recorded else undo t token recorded,
              )
        ]

    -- Leaves are at depth 1 (and 0); deeper, both values of the next unassigned cell are tried.
    unfoldable pub probe_alternate_deep : ℕ → ℕ → ℕ → ℕ → ℕ → World → Option (Bool × World)
    unfolding tentative undo save_undo_point next_cell
    probe_alternate_deep fuel zero r c v w = do
      (ok, w') ← tentative fuel r c v w
      some (ok, if ok then undo t (save_undo_point w.brancher) w' else w')
    probe_alternate_deep fuel (suc zero) r c v w = do
      (ok, w') ← tentative fuel r c v w
      some (ok, if ok then undo t (save_undo_point w.brancher) w' else w')
    probe_alternate_deep fuel (suc (suc d)) r c v w = do
      (ok, w') ← tentative fuel r c v w
      elim ok [
        | false ↦ some (false, w')
        | true ↦
            let (next, b) = next_cell w'.engine.store w'.brancher in
            elim next [
              | none ↦ some (true, undo t (save_undo_point w.brancher) (record w' { brancher = b }))
              | some p ↦ do
                (zero_ok, w0) ←
                    probe_alternate_deep fuel (suc d) p.0 p.1 0 (record w' { brancher = b })
                (one_ok, w1) ← probe_alternate_deep fuel (suc d) p.0 p.1 1 w0
                some (zero_ok || one_ok, undo t (save_undo_point w.brancher) w1)
            ]
      ]
