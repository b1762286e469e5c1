-- ===== src/Tests/Enumerate.antt =====
-- The theorems on the search, applied to a fresh store, and to one where propagation gives up after
-- it forced a cell.
use crsce.Prelude.{
  ℕ, ◌+◌, ◌/◌, ◌%◌, ◌^◌, ◌<◌, ◌≡◌, ◌⊎◌, refl, ap, arith, Bool, true, false, Option, none, some, [],
  ◌∷◌, map, range, length,
}
use crsce.Bits.{get_bit, set_bit, clear_bit, bit_and-one}
use crsce.Lines.{diag_len, total_lines, line_indices, lines_for_cell, line_index, cells_on_line}
use crsce.Store.{Store, new_store, assign}
use crsce.Store.Consistent.{Consistent}
use crsce.Store.Fresh.{new_store-Consistent}
use crsce.Queued.{no_queued, is_queued, mark_queued, clear_queued, reset_queued, clear_dirty}
use crsce.Queued.Laws.{Small}
use crsce.Propagation.{Engine, try_propagate_cell, propagate, judge, skip}
use crsce.Propagation.Settled.{propagate-settled}
use crsce.Propagation.Force.{free_below, free_below-le}
use crsce.Prober.{World, place, try_probe_value}
use crsce.Search.{Enumeration, enumerate_solutions_lex, all_lines}
use crsce.Search.Trail.{Tracks}
use crsce.Search.Cost.{cost}
use crsce.Search.Lex.{Increasing}
use crsce.Search.Ends.{submitted_of, enumerate_solutions_lex-Increasing}
use crsce.Search.Determined.{HasSums, enumerate_solutions_lex-HasSums}
use crsce.Search.Queue.{all_lines-IsLine, all_lines-waits}
use crsce.Search.Leftover.{failed_world, try_probe_value-forced}
use crsce.Tests.Sample.{sample, sample-IsLtp}

-- A world before the search.
abbrev at_start : Store → World
at_start st = record {
  engine = record { store = st; forced = []; work = []; queued = no_queued };
  brancher = record { undo_stack = []; min_unassigned_row = 0 };
}

at_start-Tracks : (st : Store) → Consistent sample st → Tracks sample st (at_start st).brancher
at_start-Tracks st k = record {
  consistent = k;
  trail = tt;
  hint = λ r' c' lo hi before. absurd (omega arith);
  low = omega arith;
}

-- Row 1 is all ones, and the two cells of the second anti-diagonal have the sum 1.
abbrev clash : Store
clash =
    new_store (5 ∷ 127 ∷ []) (5 ∷ 5 ∷ []) (map (λ i. 5) (range 0 253)) (0 ∷ 1 ∷ []) (5 ∷ [])
      (5 ∷ 5 ∷ [])

clash-Consistent : Consistent sample clash
clash-Consistent = new_store-Consistent _ _ _ _ _ _ sample sample-IsLtp

-- Every line has about half of its cells as its sum: the initial propagation leaves most cells open.
abbrev half : Store
half =
    new_store (map (λ i. 60) (range 0 127)) (map (λ i. 60) (range 0 127))
      (map (λ d. diag_len d / 2) (range 0 253)) (map (λ d. diag_len d / 2) (range 0 253))
      (map (λ i. 60) (range 0 127)) (map (λ i. 60) (range 0 127))

half-Consistent : Consistent sample half
half-Consistent = new_store-Consistent _ _ _ _ _ _ sample sample-IsLtp

enumerate_solutions_lex-Increasing_example :
    (x : Enumeration) × (enumerate_solutions_lex
        (λ r row. true)
        sample
        170000
        (cost 2 16129 + 1)
        (at_start half)
      ≡ some x)
    × Increasing (submitted_of x)
enumerate_solutions_lex-Increasing_example =
    enumerate_solutions_lex-Increasing sample sample-IsLtp (λ r row. true) 170000 (omega arith)
      (cost 2 16129 + 1) (omega arith) (at_start half) (at_start-Tracks half half-Consistent)

no_queued-Small : Small (reset_queued no_queued)
unfolding reset_queued no_queued clear_dirty
no_queued-Small w = omega arith

no_queued-clean : (i : ℕ) → is_queued (reset_queued no_queued) i ≡ false
unfolding reset_queued no_queued clear_dirty is_queued get_bit
no_queued-clean i = ground (arith, bit_and-one (0 / 2 ^ (i % 64)))

enumerate_solutions_lex-HasSums_example :
    (x : Enumeration) × (enumerate_solutions_lex
        (λ r row. true)
        sample
        170000
        (cost 2 16129 + 1)
        (at_start clash)
      ≡ some x)
    × HasSums sample clash x
enumerate_solutions_lex-HasSums_example =
    enumerate_solutions_lex-HasSums sample sample-IsLtp (λ r row. true) 170000 (omega arith)
      (cost 2 16129 + 1) (omega arith) (at_start clash) (at_start-Tracks clash clash-Consistent)
      no_queued-Small no_queued-clean

propagate-settled_example :
    (e' : Engine) × (((propagate sample 170000 all_lines (at_start clash).engine ≡ some (true, e'))
        × Consistent sample e'.store
        × ((i : ℕ) → i < total_lines → judge (e'.store.stats i) ≡ skip))
      ⊎ (propagate sample 170000 all_lines (at_start clash).engine ≡ some (false, e')))
propagate-settled_example =
    propagate-settled sample sample-IsLtp 170000 all_lines (at_start clash).engine clash-Consistent
      all_lines-IsLine.0 (omega (arith, all_lines-IsLine.1, free_below-le 16129 clash.cells))
      no_queued-Small no_queued-clean all_lines-waits

abbrev answer_of : Option (Bool × Engine) → Bool
answer_of none = true
answer_of (some p) = p.0

abbrev engine_of : Option (Bool × Engine) → Engine
engine_of none = (at_start clash).engine
engine_of (some p) = p.1

answer_of-false : (x : Option (Bool × Engine)) → answer_of x ≡ false → x ≡ some (false, engine_of x)
answer_of-false none h = ground (arith, h)
answer_of-false (some (a, e)) h = ap (λ b. some (b, e)) h

abbrev attempt : Option (Bool × Engine)
attempt = try_propagate_cell sample 170000 0 1 (place sample 0 1 1 (at_start clash)).engine

gives_up : (answer_of attempt ≡ false) × (length (engine_of attempt).forced ≡ 1)
unfolding try_propagate_cell place new_store range assign line_indices lines_for_cell line_index
    cells_on_line is_queued get_bit clear_queued clear_bit mark_queued reset_queued no_queued
    set_bit
gives_up = (refl, refl)

abbrev left_over : World
left_over = failed_world sample (at_start clash) 0 1 1 (engine_of attempt)

try_probe_value-forced_example :
    (try_probe_value (λ r row. true) sample 170000 0 1 1 (at_start clash) ≡ some (false, left_over))
    × (free_below 16129 left_over.engine.store.cells + length (engine_of attempt).forced
        ≡ free_below 16129 clash.cells)
try_probe_value-forced_example =
    try_probe_value-forced sample sample-IsLtp (at_start clash) 0 1 1
      (at_start-Tracks clash clash-Consistent) (omega arith) (omega arith)
      (unfold new_store in refl) 170000 (omega arith) (λ r row. true) (engine_of attempt)
      (answer_of-false attempt gives_up.0)
