-- ===== src/Tests/Sample.antt =====
-- A small lookup table that meets the interface of LtpTable.h: LTP1 repeats the rows, LTP2 the
-- columns. And a fresh store whose targets are all zero.
use crsce.Prelude.{
  ℕ, zero, suc, ◌+◌, ◌*◌, ◌≤◌, ◌<◌, ◌≡◌, refl, arith, List, [], map, range, ◌==◌, if◌then◌else◌,
  All, count, length, to_bit,
}
use crsce.Lines.{Ltp, IsLtp, s, InMatrix, count_cell, basic_lines, total_lines, members}
use crsce.Lines.Counts.{count_cell-row, count_cell-column}
use crsce.Lines.Extent.{length-row, inside-row}
use crsce.Store.{Store, new_store}

abbrev pub sample : Ltp
sample = record {
  membership = λ r c. record {
    count = 2;
    flat = λ j. if j == 0 then basic_lines + r else basic_lines + s + c;
  };
  cells = λ j k. if j == 0 then map (λ c. (k, c)) (range 0 s) else map (λ r. (r, k)) (range 0 s);
}

count-members :
    (r c i : ℕ)
    → count i (members (sample.membership r c))
      ≡ to_bit (basic_lines + r == i) + (to_bit (basic_lines + s + c == i) + 0)
unfolding range
count-members r c i = refl

sample-incident :
    (r c j k : ℕ)
    → r < s
    → c < s
    → j < 2
    → k < s
    → count_cell (r, c) (sample.cells j k)
      ≡ count (basic_lines + j * s + k) (members (sample.membership r c))
sample-incident r c zero k hr hc hj hk =
    ground (arith, count_cell-row k r c 0 127, count-members r c (basic_lines + 0 * s + k))
sample-incident r c (suc zero) k hr hc hj hk =
    ground (arith, count_cell-column k r c 0 127, count-members r c (basic_lines + 1 * s + k))
sample-incident r c (suc (suc j)) k hr hc hj hk = absurd (omega arith)

sample-line_full : (j k : ℕ) → j < 2 → k < s → length (sample.cells j k) ≡ s
sample-line_full zero k hj hk = length-row _ 0 127
sample-line_full (suc zero) k hj hk = length-row _ 0 127
sample-line_full (suc (suc j)) k hj hk = absurd (omega arith)

sample-inside : (j k : ℕ) → j < 2 → k < s → All InMatrix (sample.cells j k)
sample-inside zero k hj hk = inside-row _ 0 127 127 (λ x e. (hk, e)) (omega arith)
sample-inside (suc zero) k hj hk = inside-row _ 0 127 127 (λ x e. (e, hk)) (omega arith)
sample-inside (suc (suc j)) k hj hk = absurd (omega arith)

sample-members :
    (r c : ℕ)
    → r < s
    → c < s
    → All (λ i. (basic_lines ≤ i) × (i < total_lines)) (members (sample.membership r c))
unfolding range
sample-members r c hr hc = omega arith

pub sample-IsLtp : IsLtp sample
sample-IsLtp = record {
  count_small = λ r c. omega arith;
  members_range = sample-members;
  incident = sample-incident;
  line_full = sample-line_full;
  inside = sample-inside;
}

abbrev pub zeros : List ℕ
zeros = []

abbrev pub blank : Store
blank = new_store zeros zeros zeros zeros zeros zeros
