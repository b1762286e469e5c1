-- ===== src/Tests/Format.antt =====
-- The theorems on the file format, the checksums and the cross sums, applied to small data.
use crsce.Prelude.{
  ℕ, ◌+◌, ◌-◌, ◌*◌, ◌%◌, ◌^◌, ◌≡◌, ◌≢◌, arith, true, some, [], ◌∷◌, ◌==◌, ltb, if◌then◌else◌,
}
use crsce.Lines.{row, diag_len}
use crsce.Store.Consistent.{Consistent}
use crsce.Crc.{crc32_ieee, crc16_ccitt, crc8}
use crsce.Crc.Register.{register, crc-register}
use crsce.Csm.{Csm, load_csm, vec}
use crsce.Csm.RoundTrip.{vec-load_csm}
use crsce.Payload.{Payload, payload_bytes, new_payload, bit_at, serialize_block, deserialize_block}
use crsce.Payload.RoundTrip.{
  Fits, SameBlock, serialize_block-offset, deserialize_block-serialize_block,
}
use crsce.Header.{FileHeader, header_bytes, serialize, deserialize, header, crc_mismatch, load_le}
use crsce.Header.RoundTrip.{deserialize-serialize, deserialize_changed_crc}
use crsce.CrossSum.{compute_cross_sums, store_of_payload}
use crsce.CrossSum.Total.{matrix_of, cross_sums-IsSolution}
use crsce.Propagation.{Engine, propagate}
use crsce.Propagation.Judge.{IsSolution, Agrees}
use crsce.Block.{first_engine, propagate-read_back}
use crsce.Tests.Sample.{sample, sample-IsLtp}

abbrev small_payload : Payload
small_payload = record {
  lh = λ r j. (r + j) % 256;
  bh = λ j. j;
  di = 2;
  lsm = λ k. if k == 3 then 100 else 7;
  vsm = λ k. 127;
  dsm = λ k. 1;
  xsm = λ k. 0;
  ltp1sm = λ k. 64;
  ltp2sm = λ k. 1;
}

abbrev one_row : Csm
one_row = record { rows = λ r w. if r == 5 then 2 ^ 63 + 2 ^ 10 else 0 }

abbrev small_header : FileHeader
small_header = record { original_file_size_bytes = 5000; block_count = 3 }

abbrev spoiled : ℕ → ℕ
spoiled i = if i == 24 then (serialize small_header 24 + 1) % 256 else serialize small_header i

small_payload-Fits : Fits small_payload
unfolding diag_len
small_payload-Fits = record {
  lsm_fits = λ k h. ground arith;
  vsm_fits = λ k h. omega arith;
  dsm_fits = λ k h. omega arith;
  xsm_fits = λ k h. omega arith;
  ltp1sm_fits = λ k h. omega arith;
  ltp2sm_fits = λ k h. omega arith;
}

deserialize_block-serialize_block_example :
    (p' : Payload) × (deserialize_block (serialize_block small_payload).0 payload_bytes new_payload
      ≡ some p')
    × SameBlock small_payload p'
deserialize_block-serialize_block_example =
    deserialize_block-serialize_block small_payload new_payload small_payload-Fits

serialize_block-offset_example :
    ((serialize_block small_payload).1 ≡ 8 * payload_bytes - 6)
    × (bit_at (serialize_block small_payload).0 10951 ≡ 0)
serialize_block-offset_example = serialize_block-offset small_payload 10951 (omega arith)

deserialize-serialize_example :
    deserialize (serialize small_header) header_bytes ≡ header small_header
deserialize-serialize_example = deserialize-serialize small_header (omega arith) (omega arith)

other_crc : load_le (serialize small_header) 24 4 ≢ load_le spoiled 24 4
unfolding load_le
other_crc h = omega arith

deserialize_changed_crc_example : deserialize spoiled header_bytes ≡ crc_mismatch
deserialize_changed_crc_example =
    deserialize_changed_crc (serialize small_header) spoiled header_bytes small_header
      deserialize-serialize_example (λ i h. ground arith) other_crc

crc-register_example :
    (crc32_ieee (λ i. i % 256) 24 ≡ 2 ^ 32 - 1 - register 3988292384 (λ i. i % 256) 0 24 4294967295)
    × (crc16_ccitt (λ i. i % 256) 24 ≡ 2 ^ 16 - 1 - register 33800 (λ i. i % 256) 0 24 65535)
    × (crc8 (λ i. i % 256) 24 ≡ 2 ^ 8 - 1 - register 224 (λ i. i % 256) 0 24 255)
crc-register_example = crc-register (λ i. i % 256) (λ i. omega arith) 24

cross_sums-IsSolution_example :
    IsSolution sample
      (store_of_payload (compute_cross_sums sample one_row new_payload))
      (matrix_of one_row)
cross_sums-IsSolution_example = cross_sums-IsSolution sample sample-IsLtp one_row new_payload

propagate-read_back_example :
    (p' : Payload) × (e' : Engine) × (deserialize_block
        (serialize_block (compute_cross_sums sample one_row new_payload)).0
        payload_bytes
        new_payload
      ≡ some p')
    × (propagate sample 161300 (record { type = row; index = 5 } ∷ []) (first_engine p')
        ≡ some (true, e'))
    × Consistent sample e'.store
    × Agrees e'.store (matrix_of one_row)
propagate-read_back_example =
    propagate-read_back sample sample-IsLtp one_row new_payload new_payload 161300
      (record { type = row; index = 5 } ∷ []) (omega arith, tt) (omega arith)

vec-load_csm_example :
    (m : Csm) × (load_csm (λ i. i % 256) 10000 ≡ some m)
    × ((i : ℕ) → bit_at (vec m) i ≡ (if ltb i 10000 then bit_at (λ i. i % 256) i else 0))
vec-load_csm_example = vec-load_csm (λ i. i % 256) 10000 (omega arith)
