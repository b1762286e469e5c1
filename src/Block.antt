-- ===== src/Block.antt =====
-- One block from the compressor to the decompressor: the sums of a matrix are packed
-- (Compressor_computeCrossSums.cpp, CompressedPayload_serializeBlock.cpp), read back
-- (CompressedPayload_deserializeBlock.cpp), and made into a constraint store
-- (Decompressor_reconstructBlock.cpp), on which propagation starts.
use crsce.Prelude.{ℕ, ◌+◌, ◌-◌, ◌≤◌, ◌<◌, ◌≡◌, sym, ◌∙◌, arith, true, some, List, [], All, length}
use crsce.Lines.{Ltp, IsLtp, LineId, IsLine, s, total_lines, line_len, flat_index_to_line_id}
use crsce.Lines.Flat.{line_index-flat_index_to_line_id}
use crsce.Lines.Extent.{length-cells_on_line}
use crsce.Store.{new_store}
use crsce.Store.Consistent.{Consistent, line_cells}
use crsce.Store.Fresh.{new_store-Consistent}
use crsce.Csm.{Csm}
use crsce.Payload.{Payload, payload_bytes, serialize_block, deserialize_block}
use crsce.Payload.RoundTrip.{Fits, SameBlock, deserialize_block-serialize_block}
use crsce.Queued.{no_queued}
use crsce.Propagation.{Engine, propagate}
use crsce.Propagation.Judge.{IsSolution, Agrees}
use crsce.Propagation.Force.{free_below-le}
use crsce.Propagation.Outcome.{propagate_sound}
use crsce.CrossSum.{compute_cross_sums, add_rows, no_sums, store_of_payload}
use crsce.CrossSum.Total.{
  line_sum, payload_sum, target_right, fill_payload_lem, final_sum, sum_on-le, matrix_of,
}

payload_sum-SameBlock :
    (p p' : Payload)
    → SameBlock p p'
    → (i : ℕ) → i < total_lines
    → payload_sum p' i ≡ payload_sum p i
unfolding payload_sum line_sum
payload_sum-SameBlock p p' same i h = ground (
  arith,
  same.same_lsm i,
  same.same_vsm (i - 127),
  same.same_dsm (i - 254),
  same.same_xsm (i - 507),
  same.same_ltp1sm (i - 760),
  same.same_ltp2sm (i - 887),
)

-- The engine before the first propagation.
abbrev pub first_engine : Payload → Engine
first_engine p = record { store = store_of_payload p; forced = []; work = []; queued = no_queued }

-- A matrix's sums are no larger than their lines.
module _ (t : Ltp) (ok : IsLtp t) (m : Csm) (p : Payload) where
  computed-le :
      (i : ℕ)
      → i < total_lines
      → payload_sum (compute_cross_sums t m p) i ≤ line_len (flat_index_to_line_id i)
  unfolding compute_cross_sums
  computed-le i h = omega (
    arith,
    fill_payload_lem (add_rows t m 0 s no_sums) p i h,
    final_sum t ok m i h,
    sum_on-le (matrix_of m) (line_cells t i),
    length-cells_on_line t ok _ (line_index-flat_index_to_line_id i h).0,
  )

  pub computed-Fits : Fits (compute_cross_sums t m p)
  unfolding payload_sum line_sum line_len flat_index_to_line_id
  computed-Fits = record {
    lsm_fits = λ k h. ground (arith, computed-le k (omega arith));
    vsm_fits = λ k h. ground (arith, computed-le (127 + k) (omega arith));
    dsm_fits = λ k h. ground (arith, computed-le (254 + k) (omega arith));
    xsm_fits = λ k h. ground (arith, computed-le (507 + k) (omega arith));
    ltp1sm_fits = λ k h. ground (arith, computed-le (760 + k) (omega arith));
    ltp2sm_fits = λ k h. ground (arith, computed-le (887 + k) (omega arith));
  }

  read_back :
      (p' : Payload)
      → SameBlock (compute_cross_sums t m p) p'
      → IsSolution t (store_of_payload p') (matrix_of m)
  unfolding compute_cross_sums
  read_back p' same = record {
    sums = λ i h. sym (
        target_right p' i h
        ∙ payload_sum-SameBlock (compute_cross_sums t m p) p' same i h
        ∙ fill_payload_lem (add_rows t m 0 s no_sums) p i h
        ∙ final_sum t ok m i h);
  }

  fresh-Agrees : (p' : Payload) → Agrees (store_of_payload p') (matrix_of m)
  unfolding store_of_payload new_store
  fresh-Agrees p' = record { at = λ r c hr hc. tt }

  fresh-Consistent : (p' : Payload) → Consistent t (store_of_payload p')
  unfolding store_of_payload
  fresh-Consistent p' = new_store-Consistent _ _ _ _ _ _ t ok

  -- The block of a matrix's sums is read back, whatever payload it is read into; and on the store
  -- that is built from it, propagation from any lines of the system, with enough fuel, answers true
  -- and forces no cell to a value that the matrix does not have.
  pub propagate-read_back :
      (q : Payload) (fuel : ℕ) (queue : List LineId)
      → All IsLine queue
      → length queue + 161290 < fuel
      → (p' : Payload) × (e' : Engine) × (deserialize_block
            (serialize_block (compute_cross_sums t m p)).0
            payload_bytes
            q
          ≡ some p')
        × (propagate t fuel queue (first_engine p') ≡ some (true, e'))
        × Consistent t e'.store
        × Agrees e'.store (matrix_of m)
  propagate-read_back q fuel queue lines enough =
      let (p', read, same) =
        deserialize_block-serialize_block (compute_cross_sums t m p) q computed-Fits in
      let run =
        propagate_sound t ok (matrix_of m) fuel queue (first_engine p') (fresh-Consistent p') lines
          (omega (arith, free_below-le 16129 (store_of_payload p').cells)) (read_back p' same)
          (fresh-Agrees p') in
      (p', run.0, read, run.1, run.2, run.4)
