-- ===== src/Tests/Solver.antt =====
-- The theorems on the constraint store and on propagation, applied to a fresh store whose target
-- sums are all zero, and to the matrix of zeros.
use crsce.Prelude.{
  ℕ, get_or, ◌<◌, ◌≡◌, refl, arith, true, false, some, List, [], ◌∷◌, length, count,
}
use crsce.Lines.{
  Cell, row, diagonal, ltp2, IsLine, LineId, line_index, line_len, line_indices, cells_on_line,
  flat_index_to_line_id, total_lines, count_cell,
}
use crsce.Lines.Flat.{flat_index_to_line_id-line_index}
use crsce.Lines.Extent.{length-cells_on_line}
use crsce.Lines.Incidence.{count_cell-number_of}
use crsce.Store.{Store, unassigned, new_store, assign, unassign}
use crsce.Store.Consistent.{Consistent, line_cells}
use crsce.Store.Fresh.{sums_of, new_store-Consistent, new_store_lem}
use crsce.Store.Steps.{assign-Consistent, unassign-Consistent}
use crsce.Store.Undo.{unassign-assign}
use crsce.Queued.{no_queued}
use crsce.Propagation.{Engine, propagate, judge}
use crsce.Propagation.Judge.{Matrix, sum_on, IsSolution, Agrees, Justified, judge-Justified}
use crsce.Propagation.Force.{free_below-le}
use crsce.Propagation.Outcome.{Answers, Enough, propagate_total, propagate_sound}
use crsce.Tests.Sample.{sample, sample-IsLtp, zeros, blank}

abbrev row_5 : LineId
row_5 = record { type = row; index = 5 }

abbrev ltp2_9 : LineId
ltp2_9 = record { type = ltp2; index = 9 }

abbrev idle : Engine
idle = record { store = blank; forced = []; work = []; queued = no_queued }

abbrev all_zeros : Matrix
all_zeros = λ r c. false

blank-Consistent : Consistent sample blank
blank-Consistent = new_store-Consistent zeros zeros zeros zeros zeros zeros sample sample-IsLtp

sum_on-zeros : (ps : List Cell) → sum_on all_zeros ps ≡ 0
unfolding sum_on
sum_on-zeros [] = refl
sum_on-zeros (p ∷ ps) = omega (arith, sum_on-zeros ps)

zeros-IsSolution : IsSolution sample blank all_zeros
unfolding new_store
zeros-IsSolution = record { sums = λ i h. ground (arith, sum_on-zeros (line_cells sample i)) }

zeros-Agrees : Agrees blank all_zeros
unfolding new_store
zeros-Agrees = record { at = λ r c hr hc. tt }

enough : Enough 161300 (row_5 ∷ []) blank
enough = omega (arith, free_below-le 16129 blank.cells)

propagate_sound_example :
    (e' : Engine) × (propagate sample 161300 (row_5 ∷ []) idle ≡ some (true, e'))
    × Consistent sample e'.store
    × IsSolution sample e'.store all_zeros
    × Agrees e'.store all_zeros
propagate_sound_example =
    propagate_sound sample sample-IsLtp all_zeros 161300 (row_5 ∷ []) idle blank-Consistent
      (omega arith, tt) enough zeros-IsSolution zeros-Agrees

propagate_total_example :
    (e' : Engine) × Answers (propagate sample 161300 (row_5 ∷ []) idle) e'
    × Consistent sample e'.store
propagate_total_example =
    propagate_total sample sample-IsLtp 161300 (row_5 ∷ []) idle blank-Consistent (omega arith, tt)
      enough

assign-Consistent_example : Consistent sample (assign sample blank 3 70 1)
assign-Consistent_example =
    assign-Consistent sample sample-IsLtp blank blank-Consistent 3 70 (omega arith) (omega arith) 1
      (unfold new_store in refl)

unassign-Consistent_example : Consistent sample (unassign sample (assign sample blank 3 70 1) 3 70)
unassign-Consistent_example =
    unassign-Consistent sample sample-IsLtp (assign sample blank 3 70 1) assign-Consistent_example 3
      70 (omega arith) (omega arith) (unfold assign in refl)

unassign-assign_example : unassign sample (assign sample blank 3 70 1) 3 70 ≡ blank
unassign-assign_example =
    unassign-assign sample sample-IsLtp blank blank-Consistent 3 70 1 (omega arith) (omega arith)
      (unfold new_store in refl)

abbrev small_store : Store
small_store = new_store (3 ∷ 1 ∷ []) (2 ∷ 2 ∷ []) zeros zeros (1 ∷ []) (3 ∷ [])

new_store_lem_example :
    Consistent sample small_store
    × ((i : ℕ) → small_store.cells i ≡ unassigned)
    × ((l : LineId)
        → IsLine l
        → small_store.stats (line_index l) ≡ record {
          target =
              get_or
                (sums_of (3 ∷ 1 ∷ []) (2 ∷ 2 ∷ []) zeros zeros (1 ∷ []) (3 ∷ []) l.type)
                l.index
                0;
          unknown = line_len l;
          assigned = 0;
        })
new_store_lem_example =
    new_store_lem (3 ∷ 1 ∷ []) (2 ∷ 2 ∷ []) zeros zeros (1 ∷ []) (3 ∷ []) sample sample-IsLtp

judge-Justified_example :
    Justified blank.cells all_zeros (line_cells sample 900) (judge (blank.stats 900))
judge-Justified_example =
    judge-Justified sample sample-IsLtp blank blank-Consistent all_zeros zeros-IsSolution
      zeros-Agrees 900 (omega arith)

flat_index_to_line_id-line_index_example :
    (line_index ltp2_9 < total_lines) × (flat_index_to_line_id (line_index ltp2_9) ≡ ltp2_9)
flat_index_to_line_id-line_index_example = flat_index_to_line_id-line_index ltp2_9 (omega arith)

length-cells_on_line_example : length (cells_on_line sample ltp2_9) ≡ line_len ltp2_9
length-cells_on_line_example = length-cells_on_line sample sample-IsLtp ltp2_9 (omega arith)

abbrev diagonal_131 : LineId
diagonal_131 = record { type = diagonal; index = 131 }

count_cell-number_of_example :
    (count_cell (4, 9) (cells_on_line sample diagonal_131) ≡ 1)
    × (count (line_index diagonal_131) (line_indices sample 4 9) ≡ 1)
count_cell-number_of_example =
    count_cell-number_of sample sample-IsLtp diagonal_131 4 9 (omega arith)
      (unfold line_index in omega arith) (omega arith) (omega arith)
