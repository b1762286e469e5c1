-- ===== src/LtpTable/Loaded.antt =====
-- Tables that are built from an assignment, from a file, or from the seeds.
use mathlib.Core.Path.{subst}
use crsce.Prelude.{
  ℕ, zero, suc, ◌+◌, ◌-◌, ◌*◌, ◌<◌, ◌≡◌, inl, inr, refl, sym, ap, fun_ext, ◌∙◌, arith, some, List,
  [], ◌∷◌, map, range, All, ◌==◌, if◌then◌else◌, to_bit, get_or, Bool-cases,
}
use crsce.Lines.{IsLtp, Cell, InMatrix, s, basic_lines, ltp2_base, count_cell}
use crsce.LtpTable.{
  LtpData, empty_data, build_csr_offsets, fill_assigned, is_balanced, build_from_assignment,
  table_of,
}
use crsce.LtpTable.Fill.{build_csr_offsets_lem}
use crsce.LtpTable.Tabled.{IsTabled, table_of-IsLtp}
use crsce.LtpTable.Balanced.{IsBalanced, is_balanced-IsBalanced}
use crsce.LtpTable.Assigned.{Written, chunk, fill_assigned-Written}

abbrev line_of : List ℕ → ℕ → ℕ
line_of ls f = get_or ls f 0

All-get_or : (ls : List ℕ) (f : ℕ) → All (λ l. l < 127) ls → get_or ls f 0 < 127
All-get_or [] f a = omega arith
All-get_or (l ∷ ls) zero a = a.0
All-get_or (l ∷ ls) (suc f) a = All-get_or ls f a.1

whole_chunk :
    (entries : ℕ → Cell) (last : ℕ → ℕ) (k : ℕ)
    → last k ≡ k * 127 + 127
    → chunk entries last k ≡ map entries (range (k * 127) 127)
whole_chunk entries last k e =
    ap (λ n. map entries (range (k * 127) n)) {x = last k - k * 127} {y = 127} (omega arith)

module _ (sub base : ℕ) (ls : List ℕ) (ok : IsBalanced ls) (before : LtpData) where
  no_chunk : (entries : ℕ → Cell) (k : ℕ) → k < 127 → chunk entries build_csr_offsets k ≡ []
  unfolding range
  no_chunk entries k hk =
      ap (λ n. map entries (range (k * 127) n)) {x = build_csr_offsets k - k * 127} {y = 0}
        (omega (arith, build_csr_offsets_lem k (omega arith)))

  start-Written : Written sub base (line_of ls) before 0 build_csr_offsets before
  start-Written = record {
    started = λ k hk. omega (arith, build_csr_offsets_lem k (omega arith));
    holds = λ r c k hr hc hk. rw (no_chunk (before.csr_cells sub) k hk) (ground arith);
    inside = λ k hk. rw (no_chunk (before.csr_cells sub) k hk) tt;
    forward = λ f. ground arith;
    others = λ j x h. refl;
    offsets = refl;
  }

  -- The loop over a balanced assignment.
  pass-Written :
      (last : ℕ → ℕ) × ((k : ℕ) → k < 127 → last k ≡ k * 127 + 127)
      × Written sub base
          (line_of ls)
          before
          16129
          last
          (fill_assigned sub base 0 ls build_csr_offsets before)
  pass-Written =
      fill_assigned-Written sub base (line_of ls) before 0 ls build_csr_offsets before
        (omega (arith, ok.size)) (λ i h. ap (line_of ls) {x = i} {y = 0 + i} (omega arith))
        ok.lines_lt (λ k hk. omega (arith, ok.full k hk, build_csr_offsets_lem k (omega arith)))
        start-Written

module _ (ls1 ls2 : List ℕ) (ok1 : IsBalanced ls1) (ok2 : IsBalanced ls2) where
  abbrev empty : LtpData
  empty = empty_data build_csr_offsets

  abbrev filled1 : LtpData
  filled1 = fill_assigned 0 basic_lines 0 ls1 build_csr_offsets empty

  abbrev filled2 : LtpData
  filled2 = fill_assigned 1 ltp2_base 0 ls2 build_csr_offsets filled1

  abbrev line : ℕ → ℕ → ℕ
  line sub f = if sub == 0 then line_of ls1 f else line_of ls2 f

  offsets_right :
      {last1 last2 : ℕ → ℕ}
      → Written 0 basic_lines (line_of ls1) empty 16129 last1 filled1
      → Written 1 ltp2_base (line_of ls2) filled1 16129 last2 filled2
      → (sub k : ℕ) → sub < 2
      → k < 127
      → filled2.csr_offsets sub k ≡ k * 127
  unfolding empty_data
  offsets_right w1 w2 sub k hs hk =
      rw (ap (λ f. f sub k) w2.offsets, ap (λ f. f sub k) w1.offsets)
        (ground (arith, build_csr_offsets_lem k (omega arith)))

  module _ (last1 last2 : ℕ → ℕ) (full1 : (k : ℕ) → k < 127 → last1 k ≡ k * 127 + 127)
      (full2 : (k : ℕ) → k < 127 → last2 k ≡ k * 127 + 127)
      (w1 : Written 0 basic_lines (line_of ls1) empty 16129 last1 filled1)
      (w2 : Written 1 ltp2_base (line_of ls2) filled1 16129 last2 filled2) where
    chunk1 :
        (k : ℕ)
        → k < 127
        → map (filled2.csr_cells 0) (range (k * 127) 127) ≡ chunk (filled1.csr_cells 0) last1 k
    chunk1 k hk =
        ap (λ f. map f (range (k * 127) 127)) (fun_ext (λ x. w2.others 0 x (omega arith)))
        ∙ sym (whole_chunk (filled1.csr_cells 0) last1 k (full1 k hk))

    chunk2 :
        (k : ℕ)
        → k < 127
        → map (filled2.csr_cells 1) (range (k * 127) 127) ≡ chunk (filled2.csr_cells 1) last2 k
    chunk2 k hk = sym (whole_chunk (filled2.csr_cells 1) last2 k (full2 k hk))

    filled2-holds :
        (r c sub k : ℕ)
        → r < s
        → c < s
        → sub < 2
        → k < 127
        → count_cell (r, c) (map (filled2.csr_cells sub) (range (k * 127) 127))
          ≡ to_bit (line sub (r * s + c) == k)
    filled2-holds r c zero k hr hc hs hk =
        rw (chunk1 k hk) (ground (arith, w1.holds r c k hr hc hk))
    filled2-holds r c (suc zero) k hr hc hs hk =
        rw (chunk2 k hk) (ground (arith, w2.holds r c k hr hc hk))
    filled2-holds r c (suc (suc j)) k hr hc hs hk = absurd (omega arith)

    filled2-inside :
        (sub k : ℕ)
        → sub < 2
        → k < 127
        → All InMatrix (map (filled2.csr_cells sub) (range (k * 127) 127))
    filled2-inside zero k hs hk = rw (chunk1 k hk) (w1.inside k hk)
    filled2-inside (suc zero) k hs hk = rw (chunk2 k hk) (w2.inside k hk)
    filled2-inside (suc (suc j)) k hs hk = absurd (omega arith)

    filled2-IsTabled : IsTabled filled2 line
    filled2-IsTabled = record {
      line_lt = λ sub f hs hf.
          ground (arith, All-get_or ls1 f ok1.lines_lt, All-get_or ls2 f ok2.lines_lt);
      forward = λ f h. unfold empty_data in ground (arith, w2.forward f, w1.forward f);
      count_small = λ f. unfold empty_data in ground (arith, w2.forward f, w1.forward f);
      offsets = offsets_right w1 w2;
      holds = filled2-holds;
      inside = filled2-inside;
    }

  filled2-IsLtp : IsLtp (table_of filled2)
  filled2-IsLtp =
      let (last1, full1, w1) = pass-Written 0 basic_lines ls1 ok1 empty in
      let (last2, full2, w2) = pass-Written 1 ltp2_base ls2 ok2 filled1 in
      table_of-IsLtp filled2 line (filled2-IsTabled last1 last2 full1 full2 w1 w2)

-- From two supplied sub-tables either nothing is built, or a table that meets the interface.
pub build_from_assignment-IsLtp :
    (ls1 ls2 : List ℕ) (d : LtpData) → build_from_assignment 2 ls1 ls2 ≡ some d → IsLtp (table_of d)
unfolding build_from_assignment
build_from_assignment-IsLtp ls1 ls2 d h = elim (Bool-cases (is_balanced ls1)) [
  | inr bad ↦ absurd (ground (arith, bad))
  | inl good1 ↦ elim (Bool-cases (is_balanced ls2)) [
    | inr bad ↦ absurd (ground (arith, good1, bad))
    | inl good2 ↦
        let e : filled2 ls1 ls2 (is_balanced-IsBalanced ls1 good1)
              (is_balanced-IsBalanced ls2 good2)
            ≡ d =
          ground (arith, good1, good2) in
        subst (λ x. IsLtp (table_of x)) e
          (filled2-IsLtp ls1 ls2 (is_balanced-IsBalanced ls1 good1)
            (is_balanced-IsBalanced ls2 good2))
  ]
]
