-- ===== src/LtpTable/Tabled.antt =====
-- What makes a table meet the interface of the constraint store, however it is built.
use mathlib.Core.Path.{subst}
use crsce.Prelude.{
  ℕ, zero, suc, ◌+◌, ◌*◌, ◌≤◌, ◌<◌, ◌≡◌, arith, map, range, count, All, ◌==◌, to_bit,
}
use crsce.Lines.{
  IsLtp, LtpMembership, InMatrix, s, basic_lines, ltp2_base, total_lines, members, count_cell,
}
use crsce.Lines.Extent.{length-row}
use crsce.LtpTable.{LtpData, joined, table_of}

abbrev pub nowhere : LtpMembership
nowhere = record { count = 0; flat = λ j. 0 }

-- A membership in two lines.
abbrev pub pair_of : ℕ → ℕ → LtpMembership
pair_of a b = joined (joined nowhere 0 a) 1 b

count-pair_of :
    (a b i : ℕ)
    → a < 65536
    → b < 65536
    → count i (members (pair_of a b)) ≡ to_bit (a == i) + (to_bit (b == i) + 0)
unfolding range
count-pair_of a b i ha hb = ground arith

members-pair_of :
    (P : ℕ → Type 0) (a b : ℕ) → a < 65536 → b < 65536 → P a → P b → All P (members (pair_of a b))
unfolding range
members-pair_of P a b ha hb pa pb = (subst P (omega arith) pa, (subst P (omega arith) pb, tt))

-- The cell f is on line `line 0 f` of LTP1 and on line `line 1 f` of LTP2.
pub record IsTabled (d : LtpData) (line : ℕ → ℕ → ℕ) : Type 0 where
  pub line_lt : (sub f : ℕ) → sub < 2 → f < 16129 → line sub f < 127
  pub forward :
      (f : ℕ) → f < 16129 → d.fwd f ≡ pair_of (basic_lines + line 0 f) (ltp2_base + line 1 f)
  pub count_small : (f : ℕ) → (d.fwd f).count ≤ 6
  pub offsets : (sub k : ℕ) → sub < 2 → k < 127 → d.csr_offsets sub k ≡ k * 127
  pub holds :
      (r c sub k : ℕ)
      → r < s
      → c < s
      → sub < 2
      → k < 127
      → count_cell (r, c) (map (d.csr_cells sub) (range (k * 127) 127))
        ≡ to_bit (line sub (r * s + c) == k)
  pub inside :
      (sub k : ℕ) → sub < 2 → k < 127 → All InMatrix (map (d.csr_cells sub) (range (k * 127) 127))

module _ (d : LtpData) (line : ℕ → ℕ → ℕ) (ok : IsTabled d line) where
  table-members_range :
      (r c : ℕ)
      → r < s
      → c < s
      → All (λ i. (basic_lines ≤ i) × (i < total_lines)) (members (d.fwd (r * s + c)))
  table-members_range r c hr hc =
      let f = r * s + c in
      let small1 = ok.line_lt 0 f (omega arith) (omega arith) in
      let small2 = ok.line_lt 1 f (omega arith) (omega arith) in
      rw (ok.forward f (omega arith)) (
        members-pair_of _ (basic_lines + line 0 f) (ltp2_base + line 1 f) (omega arith)
          (omega arith) (omega arith) (omega arith))

  table-count :
      (r c i : ℕ)
      → r < s
      → c < s
      → count i (members (d.fwd (r * s + c)))
        ≡ to_bit (basic_lines + line 0 (r * s + c) == i)
          + (to_bit (ltp2_base + line 1 (r * s + c) == i) + 0)
  table-count r c i hr hc =
      let f = r * s + c in
      let small1 = ok.line_lt 0 f (omega arith) (omega arith) in
      let small2 = ok.line_lt 1 f (omega arith) (omega arith) in
      rw (ok.forward f (omega arith)) (
        count-pair_of (basic_lines + line 0 f) (ltp2_base + line 1 f) i (omega arith) (omega arith))

  table-incident :
      (r c j k : ℕ)
      → r < s
      → c < s
      → j < 2
      → k < s
      → count_cell (r, c) (map (d.csr_cells j) (range (k * 127) 127))
        ≡ count (basic_lines + j * s + k) (members (d.fwd (r * s + c)))
  table-incident r c zero k hr hc hj hk = ground (
    arith,
    ok.holds r c 0 k hr hc hj hk,
    table-count r c (basic_lines + 0 * s + k) hr hc,
    ok.line_lt 0 (r * s + c) (omega arith) (omega arith),
    ok.line_lt 1 (r * s + c) (omega arith) (omega arith),
  )
  table-incident r c (suc zero) k hr hc hj hk = ground (
    arith,
    ok.holds r c 1 k hr hc hj hk,
    table-count r c (basic_lines + 1 * s + k) hr hc,
    ok.line_lt 0 (r * s + c) (omega arith) (omega arith),
    ok.line_lt 1 (r * s + c) (omega arith) (omega arith),
  )
  table-incident r c (suc (suc j)) k hr hc hj hk = absurd (omega arith)

  pub table_of-IsLtp : IsLtp (table_of d)
  unfolding table_of
  table_of-IsLtp = record {
    count_small = λ r c. ok.count_small (r * s + c);
    members_range = table-members_range;
    incident =
        λ r c j k hr hc hj hk. rw (ok.offsets j k hj hk) (table-incident r c j k hr hc hj hk);
    line_full = λ j k hj hk. length-row (d.csr_cells j) (d.csr_offsets j k) 127;
    inside = λ j k hj hk. rw (ok.offsets j k hj hk) (ok.inside j k hj hk);
  }

  -- A cell stands on its line of a sub-table once, and on no other.
  pub table_of-holds :
      (r c sub k : ℕ)
      → r < s
      → c < s
      → sub < 2
      → k < s
      → (line sub (r * s + c) < s)
        × (count_cell (r, c) ((table_of d).cells sub k) ≡ to_bit (line sub (r * s + c) == k))
  unfolding table_of
  table_of-holds r c sub k hr hc hs hk = (
    ok.line_lt sub (r * s + c) hs (omega arith),
    rw (ok.offsets sub k hs hk) (ok.holds r c sub k hr hc hs hk),
  )
