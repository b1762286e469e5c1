-- ===== src/Tests/Search.antt =====
-- The theorems on undoing and probing, applied to a fresh store.
use crsce.Prelude.{ℕ, ◌+◌, List, ◌≡◌, refl, length, arith, true, [], ◌∷◌, ◌++◌}
use crsce.Store.{new_store}
use crsce.Store.Consistent.{Consistent}
use crsce.Store.Fresh.{new_store-Consistent}
use crsce.Queued.{no_queued}
use crsce.Queued.Overflow.{rounds, dirty_count-rounds}
use crsce.Propagation.Force.{free_below-le}
use crsce.Branching.{next_cell, Brancher, undo_to_save_point, save_undo_point}
use crsce.Branching.Undo.{replay, entries, lowest, undo_to_save_point-replay}
use crsce.Branching.First.{First, Hint, next_cell-First}
use crsce.Stall.{new_detector, updates}
use crsce.Stall.Depth.{InRange, updates-InRange}
use crsce.Prober.{World, try_probe_value}
use crsce.Prober.Restore.{Probes, try_probe_value-restores}
use crsce.Tests.Sample.{sample, sample-IsLtp, zeros, blank}

blank-Consistent : Consistent sample blank
blank-Consistent = new_store-Consistent zeros zeros zeros zeros zeros zeros sample sample-IsLtp

abbrev one_entry : Brancher
one_entry = record { undo_stack = (0, 0) ∷ []; min_unassigned_row = 3 }

abbrev depths : List ℕ
depths = 9 ∷ 12 ∷ 3 ∷ []

abbrev fresh_brancher : Brancher
fresh_brancher = record { undo_stack = []; min_unassigned_row = 0 }

abbrev world : World
world = record {
  engine = record { store = blank; forced = []; work = []; queued = no_queued };
  brancher = one_entry;
}

undo_to_save_point-replay_example :
    undo_to_save_point sample
      (save_undo_point one_entry)
      (replay sample blank ((3, 70, 1) ∷ []))
      (record {
        undo_stack = entries ((3, 70, 1) ∷ []) ++ one_entry.undo_stack;
        min_unassigned_row = 5;
      })
    ≡ (
      blank,
      record { undo_stack = one_entry.undo_stack; min_unassigned_row = lowest ((3, 70, 1) ∷ []) 5 },
    )
undo_to_save_point-replay_example =
    undo_to_save_point-replay sample sample-IsLtp blank blank-Consistent ((3, 70, 1) ∷ []) one_entry
      5 (tt, omega arith, omega arith, unfold new_store in refl)

try_probe_value-restores_example :
    (w' : World) × Probes world (try_probe_value (λ r row. true) sample 161301 3 70 1 world) w'
try_probe_value-restores_example =
    try_probe_value-restores sample sample-IsLtp world blank-Consistent 3 70 1 (omega arith)
      (omega arith) (unfold new_store in refl) (λ r row. true) 161301
      (omega (arith, free_below-le 16129 blank.cells))

next_cell-First_example :
    First blank 0 (next_cell blank fresh_brancher).0 × Hint blank (next_cell blank fresh_brancher).1
next_cell-First_example =
    next_cell-First sample blank blank-Consistent fresh_brancher (omega arith)
      (λ r' c' a b before. absurd (omega arith))

updates-InRange_example : InRange (length depths) (updates depths new_detector)
updates-InRange_example = updates-InRange depths (omega arith)

dirty_count-rounds_example :
    ((rounds 17 760 no_queued).dirty_count ≡ no_queued.dirty_count + 17)
    × ((w : ℕ) → (rounds 17 760 no_queued).words w ≡ no_queued.words w)
unfolding no_queued
dirty_count-rounds_example = dirty_count-rounds 17 760 no_queued refl (omega arith)
