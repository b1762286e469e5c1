-- ===== src/LtpTable/Build.antt =====
-- The table that is built from two seeds meets the interface of the constraint store.
use crsce.Prelude.{
  ℕ, zero, suc, ◌+◌, ◌*◌, ◌/◌, ◌%◌, ◌≤◌, ◌<◌, ◌≡◌, ap, ◌∙◌, arith, map, range, All, ◌==◌,
  if◌then◌else◌, to_bit,
}
use crsce.Lines.{IsLtp, Cell, InMatrix, s, basic_lines, ltp2_base, count_cell}
use crsce.Lines.Counts.{within}
use crsce.LtpTable.{
  LtpData, empty_data, build_csr_offsets, shuffle, fill_lines, build_all_partitions, table_of,
}
use crsce.LtpTable.Shuffle.{IsShuffled, id-IsShuffled, shuffle-IsShuffled}
use crsce.LtpTable.Tabled.{pair_of, IsTabled, table_of-IsLtp, table_of-holds}
use crsce.LtpTable.Fill.{Filled, build_csr_offsets_lem, pass-Filled}

-- In the entries from lo on that hold the pool's cells, a cell stands where its index is.
module _ (pool : ℕ → ℕ) (ok : IsShuffled 16129 pool) (entries : ℕ → Cell)
    (written : (x : ℕ) → x < 16129 → entries x ≡ (pool x / s, pool x % s)) where
  count_cell-entries :
      (r c lo n : ℕ)
      → r < s
      → c < s
      → lo + n ≤ 16129
      → count_cell (r, c) (map entries (range lo n)) ≡ to_bit (within lo n (ok.index (r * s + c)))
  unfolding range
  count_cell-entries r c lo zero hr hc h = ground arith
  count_cell-entries r c lo (suc n) hr hc h = ground (
    arith,
    written lo (omega arith),
    ok.index_pool lo,
    ok.pool_index (r * s + c),
    count_cell-entries r c (lo + 1) n hr hc (omega arith),
  )

  entries-InMatrix : (lo n : ℕ) → lo + n ≤ 16129 → All InMatrix (map entries (range lo n))
  unfolding range
  entries-InMatrix lo zero h = tt
  entries-InMatrix lo (suc n) h = (
    rw (written lo (omega arith)) (omega (arith, ok.pool_lt lo (omega arith))),
    entries-InMatrix (lo + 1) n (omega arith),
  )

module _ (seed_1 seed_2 : ℕ) where
  abbrev pool1 : ℕ → ℕ
  pool1 = shuffle 16128 seed_1 (λ v. v)

  abbrev pool2 : ℕ → ℕ
  pool2 = shuffle 16128 seed_2 pool1

  abbrev empty : LtpData
  empty = empty_data build_csr_offsets

  abbrev after1 : LtpData
  after1 = fill_lines 0 basic_lines pool1 0 0 127 empty

  abbrev after2 : LtpData
  after2 = fill_lines 1 ltp2_base pool2 0 0 127 after1

  ok1 : IsShuffled 16129 pool1
  ok1 = shuffle-IsShuffled 16129 16128 seed_1 (λ v. v) (omega arith) (id-IsShuffled 16129)

  ok2 : IsShuffled 16129 pool2
  ok2 = shuffle-IsShuffled 16129 16128 seed_2 pool1 (omega arith) ok1

  starts : (sub k : ℕ) → sub < 2 → k < 127 → empty.csr_offsets sub k ≡ k * 127
  unfolding empty_data
  starts sub k hs h = ground (arith, build_csr_offsets_lem k (omega arith))

  first : Filled 0 basic_lines pool1 ok1.index empty 16129 after1
  first = pass-Filled 0 basic_lines pool1 ok1 empty (λ k h. starts 0 k (omega arith) h)

  second : Filled 1 ltp2_base pool2 ok2.index after1 16129 after2
  second =
      pass-Filled 1 ltp2_base pool2 ok2 after1
        (λ k h. rw (ap (λ f. f 1 k) first.offsets) (starts 1 k (omega arith) h))

  forward :
      (f : ℕ)
      → f < 16129
      → after2.fwd f ≡ pair_of (basic_lines + ok1.index f / s) (ltp2_base + ok2.index f / s)
  forward f h =
      rw (second.forward f, first.forward f)
        (unfold empty_data in ground (arith, ok1.index_lt f h, ok2.index_lt f h))

  offsets_right : (sub k : ℕ) → sub < 2 → k < 127 → after2.csr_offsets sub k ≡ k * 127
  offsets_right sub k hs h =
      rw (ap (λ f. f sub k) second.offsets, ap (λ f. f sub k) first.offsets) (starts sub k hs h)

  written1 : (x : ℕ) → x < 16129 → after2.csr_cells 0 x ≡ (pool1 x / s, pool1 x % s)
  written1 x h = second.others 0 x (omega arith) ∙ first.reverse x h

  abbrev line : ℕ → ℕ → ℕ
  line sub f = if sub == 0 then ok1.index f / s else ok2.index f / s

  after2-holds :
      (r c sub k : ℕ)
      → r < s
      → c < s
      → sub < 2
      → k < 127
      → count_cell (r, c) (map (after2.csr_cells sub) (range (k * 127) 127))
        ≡ to_bit (line sub (r * s + c) == k)
  after2-holds r c zero k hr hc hs hk = ground (
    arith,
    count_cell-entries pool1 ok1 (after2.csr_cells 0) written1 r c (k * 127) 127 hr hc
        (omega arith),
  )
  after2-holds r c (suc zero) k hr hc hs hk = ground (
    arith,
    count_cell-entries pool2 ok2 (after2.csr_cells 1) second.reverse r c (k * 127) 127 hr hc
        (omega arith),
  )
  after2-holds r c (suc (suc j)) k hr hc hs hk = absurd (omega arith)

  after2-inside :
      (sub k : ℕ)
      → sub < 2
      → k < 127
      → All InMatrix (map (after2.csr_cells sub) (range (k * 127) 127))
  after2-inside zero k hs hk =
      entries-InMatrix pool1 ok1 (after2.csr_cells 0) written1 (k * 127) 127 (omega arith)
  after2-inside (suc zero) k hs hk =
      entries-InMatrix pool2 ok2 (after2.csr_cells 1) second.reverse (k * 127) 127 (omega arith)
  after2-inside (suc (suc j)) k hs hk = absurd (omega arith)

  after2-IsTabled : IsTabled after2 line
  after2-IsTabled = record {
    line_lt = λ sub f hs hf. ground (arith, ok1.index_lt f hf, ok2.index_lt f hf);
    forward = λ f h. forward f h;
    count_small = λ f. unfold empty_data in ground (arith, second.forward f, first.forward f);
    offsets = offsets_right;
    holds = after2-holds;
    inside = after2-inside;
  }

  -- Whatever the two seeds are, the table that is built meets the interface that the constraint store
  -- relies on, and there is an assignment of a line of each sub-table to each cell of the matrix such
  -- that the cell stands on this line once and on no other line of the sub-table.
  pub build_all_partitions-IsLtp :
      IsLtp (table_of (build_all_partitions seed_1 seed_2))
      × (line : ℕ → ℕ → ℕ) × ((r c sub k : ℕ)
          → r < s
          → c < s
          → sub < 2
          → k < s
          → (line sub (r * s + c) < s)
            × (count_cell (r, c) ((table_of (build_all_partitions seed_1 seed_2)).cells sub k)
                ≡ to_bit (line sub (r * s + c) == k)))
  unfolding build_all_partitions
  build_all_partitions-IsLtp =
      (table_of-IsLtp after2 line after2-IsTabled, line, table_of-holds after2 line after2-IsTabled)
