-- ===== src/LtpTable/Fill.antt =====
-- What a pass over the lines of one sub-table writes: the cell at index x of the pool gets reverse
-- entry x, and is a member of line x / 127.
use crsce.Prelude.{
  ℕ, zero, suc, ◌+◌, ◌*◌, ◌/◌, ◌%◌, ◌≤◌, ◌<◌, ◌≡◌, ◌≢◌, refl, ap, arith, ltb, if◌then◌else◌, update,
}
use mathlib.Core.Path.{subst}
use crsce.Lines.{s}
use crsce.LtpTable.{
  LtpData, joined, write_entry, fill_line, fill_lines, fill_offsets, build_csr_offsets,
  ltp_line_len,
}
use crsce.LtpTable.Shuffle.{IsShuffled}

fill_offsets-done :
    (k n : ℕ) (offsets : ℕ → ℕ)
    → ((i : ℕ) → i ≤ k → offsets i ≡ i * 127)
    → (i : ℕ) → i ≤ k + n
    → fill_offsets k n offsets i ≡ i * 127
unfolding fill_offsets
fill_offsets-done k zero offsets h i le = h i (omega arith)
fill_offsets-done k (suc n) offsets h i le =
    fill_offsets-done (k + 1) n (update offsets (k + 1) (offsets k + ltp_line_len k))
      (λ i' le'. ground (arith, h i', h k (omega arith))) i (omega arith)

-- Line k of a sub-table starts at entry 127 k.
pub build_csr_offsets_lem : (k : ℕ) → k ≤ 127 → build_csr_offsets k ≡ k * 127
unfolding build_csr_offsets
build_csr_offsets_lem k h = fill_offsets-done 0 127 (λ i. 0) (λ i le. omega arith) k h

-- The first n cells of the pool are written.
pub record Filled (sub base : ℕ) (pool index : ℕ → ℕ) (before : LtpData) (n : ℕ) (d : LtpData)
    : Type 0 where
  pub reverse : (x : ℕ) → x < n → d.csr_cells sub x ≡ (pool x / s, pool x % s)
  pub forward :
      (f : ℕ)
      → d.fwd f
        ≡ (if ltb (index f) n then joined (before.fwd f) sub (base + index f / s) else before.fwd f)
  pub others : (j x : ℕ) → j ≢ sub → d.csr_cells j x ≡ before.csr_cells j x
  pub offsets : d.csr_offsets ≡ before.csr_offsets

module _ (sub base : ℕ) (pool : ℕ → ℕ) (ok : IsShuffled 16129 pool) (before : LtpData) where
  start-Filled : Filled sub base pool ok.index before 0 before
  start-Filled = record {
    reverse = λ x h. absurd (omega arith);
    forward = λ f. ground arith;
    others = λ j x h. refl;
    offsets = refl;
  }

  write_entry-Filled :
      (n line : ℕ) (d : LtpData)
      → line ≡ base + n / s
      → Filled sub base pool ok.index before n d
      → Filled sub base pool ok.index before (n + 1) (write_entry sub line n (pool n) d)
  unfolding write_entry
  write_entry-Filled n line d e done = record {
    reverse = λ x h. ground (arith, done.reverse x);
    forward = λ f. ground (arith, done.forward f, ok.index_pool n, ok.pool_index f);
    others = λ j x h. ground (arith, done.others j x h);
    offsets = done.offsets;
  }

  renumber :
      (n m : ℕ) (d : LtpData)
      → n ≡ m
      → Filled sub base pool ok.index before n d
      → Filled sub base pool ok.index before m d
  renumber n m d e = subst (λ x. Filled sub base pool ok.index before x d) e

  -- The entries of line k from index j on.
  fill_line-Filled :
      (k j n first : ℕ) (d : LtpData)
      → j + n ≤ 127
      → first ≡ k * 127 + j
      → Filled sub base pool ok.index before first d
      → Filled sub base pool ok.index before
          (first + n)
          (fill_line sub (base + k) (k * 127) (k * 127) pool j n d)
  unfolding fill_line
  fill_line-Filled k j zero first d h e done = renumber first (first + 0) d (omega arith) done
  fill_line-Filled k j (suc n) first d h e done =
      let slot = k * 127 + j in
      let d' = write_entry sub (base + k) slot (pool slot) d in
      renumber (first + 1 + n) (first + suc n)
        (fill_line sub (base + k) (k * 127) (k * 127) pool (j + 1) n d') (omega arith)
        (fill_line-Filled k (j + 1) n (first + 1) d' (omega arith) (omega arith) (
          renumber (slot + 1) (first + 1) d' (omega arith)
            (write_entry-Filled slot (base + k) d (omega arith) (renumber first slot d e done))))

  module _ (starts : (k : ℕ) → k < 127 → before.csr_offsets sub k ≡ k * 127) where
    line-Filled :
        (k pos : ℕ) (d : LtpData)
        → k < 127
        → pos ≡ k * 127
        → Filled sub base pool ok.index before pos d
        → Filled sub base pool ok.index before
            (pos + 127)
            (fill_line sub (base + k) (d.csr_offsets sub k) pos pool 0 127 d)
    line-Filled k pos d h e done =
        rw (ap (λ f. f sub k) done.offsets, starts k h, e)
          (fill_line-Filled k 0 127 (k * 127) d (omega arith) (omega arith)
            (renumber pos (k * 127) d e done))

    -- The lines from index k on.
    fill_lines-Filled :
        (k pos n : ℕ) (d : LtpData)
        → k + n ≤ 127
        → pos ≡ k * 127
        → Filled sub base pool ok.index before pos d
        → Filled sub base pool ok.index before (pos + n * 127) (fill_lines sub base pool k pos n d)
    unfolding fill_lines
    fill_lines-Filled k pos zero d h e done = renumber pos (pos + 0 * 127) d (omega arith) done
    fill_lines-Filled k pos (suc n) d h e done =
        let d' = fill_line sub (base + k) (d.csr_offsets sub k) pos pool 0 127 d in
        renumber (pos + 127 + n * 127) (pos + suc n * 127)
          (fill_lines sub base pool (k + 1) (pos + 127) n d') (omega arith)
          (fill_lines-Filled (k + 1) (pos + 127) n d' (omega arith) (omega arith)
            (line-Filled k pos d (omega arith) e done))

    -- A whole pass writes the whole pool.
    pub pass-Filled :
        Filled sub base pool ok.index before 16129 (fill_lines sub base pool 0 0 127 before)
    pass-Filled = fill_lines-Filled 0 0 127 before (omega arith) (omega arith) start-Filled
