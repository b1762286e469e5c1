-- ===== src/Branching/Rows.antt =====
-- The scan of one row: its lowest free bit is its first unassigned cell.
use native.Mathlib.Decide.{dec_lt}
use crsce.Prelude.{
  lt→ltb, ℕ, zero, suc, ◌+◌, ◌-◌, ◌*◌, ◌/◌, ◌%◌, ◌^◌, ◌≤◌, ◌<◌, ◌≡◌, refl, sym, ap, ◌∙◌, arith,
  true, false, not, Option, none, some, map, range, ◌==◌, to_bit,
}
use crsce.Bits.{get_bit, get_bit-zero, get_bit-suc, get_bit-zero_word, pow_parts}
use crsce.Bits.Complement.{get_bit_complement, get_bit_mask, mask-le}
use crsce.Lines.{Ltp, Cell, s, cells_on_line, flat_index_to_line_id}
use crsce.Store.{Store, CellState, flat, is_unassigned}
use crsce.Store.Tally.{tally, unknown_on}
use crsce.Store.Consistent.{Consistent, line_cells}
use crsce.Branching.{ctz, free_bits, scan_words}

-- The lowest bit of a word that is not zero.
ctz_lem :
    (n w : ℕ)
    → 0 < w
    → w < 2 ^ n
    → (ctz n w < n) × (get_bit w (ctz n w) ≡ 1) × ((i : ℕ) → i < ctz n w → get_bit w i ≡ 0)
unfolding ctz
ctz_lem zero w h h' = absurd (omega arith)
ctz_lem (suc n) w h h' = elim (dec_lt 0 (w % 2)) [
  | yes odd ↦
      rw (set_digit w odd)
        (omega arith, omega (arith, get_bit-zero w), λ i hi. absurd (omega arith))
  | no even ↦
      let rest = ctz_lem n (w / 2) (omega arith) (omega (arith, pow_parts n)) in
      rw (clear_digit w (omega arith)) (
        omega (arith, rest.0),
        ap (λ (i : ℕ). get_bit w i) {x = ctz n (w / 2) + 1} {y = suc (ctz n (w / 2))} (omega arith)
            ∙ get_bit-suc w (ctz n (w / 2))
            ∙ rest.1,
        below rest.2 (omega arith),
      )
]
  where
    below :
        ((i : ℕ) → i < ctz n (w / 2) → get_bit (w / 2) i ≡ 0)
        → w % 2 ≡ 0
        → (i : ℕ) → i < ctz n (w / 2) + 1
        → get_bit w i ≡ 0
    below h e zero hi = omega (arith, get_bit-zero w)
    below h e (suc i) hi = get_bit-suc w i ∙ h i (omega arith)

    set_digit : (w : ℕ) → 0 < w % 2 → (w % 2 == 0) ≡ false
    set_digit w h = ground arith

    clear_digit : (w : ℕ) → w % 2 ≡ 0 → (w % 2 == 0) ≡ true
    clear_digit w h = ground arith

pub not_zero : (n : ℕ) → 0 < n → (n == 0) ≡ false
not_zero n h = ground arith

pub is_zero : (n : ℕ) → n ≡ 0 → (n == 0) ≡ true
is_zero n h = ground arith

one_zero : (x : ℕ) → x ≡ 1 → x ≡ 0 → ⊥
one_zero x e e' = omega arith

-- No unassigned cell in row r among the columns lo, …, hi - 1.
abbrev pub RowFull : Store → ℕ → ℕ → ℕ → Type 0
RowFull st r lo hi = (c : ℕ) → lo ≤ c → c < hi → is_unassigned (st.cells (flat r c)) ≡ false

unknowns_none :
    (f : ℕ → CellState) (r lo n : ℕ)
    → unknown_on f (map (λ c. (r, c)) (range lo n)) ≡ 0
    → (c : ℕ) → lo ≤ c
    → c < lo + n
    → is_unassigned (f (flat r c)) ≡ false
unfolding range tally
unknowns_none f r lo zero e c h h' = absurd (omega arith)
unknowns_none f r lo (suc n) e c h h' = elim (dec_lt lo c) [
  | yes less ↦ unknowns_none f r (lo + 1) n (ground arith) c (omega arith) (omega arith)
  | no same ↦
      ap (λ (i : ℕ). is_unassigned (f (flat r i))) {x = c} {y = lo} (omega arith) ∙ ground arith
]

module _ (t : Ltp) (st : Store) (k : Consistent t st) where
  row_line : (r : ℕ) → r < s → line_cells t r ≡ map (λ c. (r, c)) (range 0 s)
  unfolding flat_index_to_line_id cells_on_line
  row_line r h = rw (lt→ltb r 127 h) refl

  -- A row without unknowns is full.
  pub row_skipped : (r : ℕ) → r < s → (st.stats r).unknown ≡ 0 → RowFull st r 0 s
  row_skipped r h e c a b =
      unknowns_none st.cells r 0 127
        (ap (unknown_on st.cells) (sym (row_line r h)) ∙ sym (k.unknown_right r (omega arith)) ∙ e)
        c a (omega arith)

  free_bits-lt : (r w : ℕ) → free_bits st r w < 2 ^ 64
  unfolding free_bits
  free_bits-lt r w = ground (arith, mask-le 63 (2 ^ 64 - 1 - st.assigned r w))

  assigned_at :
      (r w i : ℕ)
      → i < 64
      → w * 64 + i < s
      → get_bit (st.assigned r w) i ≡ to_bit (not (is_unassigned (st.cells (flat r (w * 64 + i)))))
  assigned_at r w i h hc =
      ap (λ (j : ℕ). get_bit (st.assigned r j) i) {x = w} {y = (w * 64 + i) / 64} (omega arith)
      ∙ ap (λ (j : ℕ). get_bit (st.assigned r ((w * 64 + i) / 64)) j) {x = i}
          {y = (w * 64 + i) % 64} (omega arith)
      ∙ k.assigned_bit r (w * 64 + i) hc

  free_bit :
      (r w i : ℕ)
      → w < 2
      → i < 64
      → w * 64 + i < s
      → get_bit (free_bits st r w) i ≡ to_bit (is_unassigned (st.cells (flat r (w * 64 + i))))
  unfolding free_bits
  free_bit r w i hw h hc = ground (
    arith,
    assigned_at r w i h hc,
    get_bit_complement 64 (st.assigned r w) i (k.assigned_word r w) h,
    get_bit_mask 63 (2 ^ 64 - 1 - st.assigned r w) i,
  )

  last_bit : (r : ℕ) → get_bit (free_bits st r 1) 63 ≡ 0
  unfolding free_bits
  last_bit r = get_bit_mask 63 (2 ^ 64 - 1 - st.assigned r 1) 63

  -- A word without free bits.
  word_full :
      (r w : ℕ)
      → w < 2
      → free_bits st r w ≡ 0
      → (c : ℕ) → w * 64 ≤ c
      → c < w * 64 + 64
      → c < s
      → is_unassigned (st.cells (flat r c)) ≡ false
  word_full r w hw e c a b hc =
      ap (λ (i : ℕ). is_unassigned (st.cells (flat r i))) {x = c} {y = w * 64 + (c - w * 64)}
        (omega arith)
      ∙ ground (
        arith,
        free_bit r w (c - w * 64) hw (omega arith) (omega arith),
        ap (λ (t : ℕ). get_bit t (c - w * 64)) e,
        get_bit-zero_word (c - w * 64),
      )

  -- A word with free bits: its lowest free bit is an unassigned cell, and none is before it.
  word_found :
      (r w : ℕ)
      → w < 2
      → 0 < free_bits st r w
      → (w * 64 + ctz 64 (free_bits st r w) < s)
        × (is_unassigned (st.cells (flat r (w * 64 + ctz 64 (free_bits st r w)))) ≡ true)
        × RowFull st r (w * 64) (w * 64 + ctz 64 (free_bits st r w))
  word_found r w hw pos =
      let (small, bit, below) = ctz_lem 64 (free_bits st r w) pos (free_bits-lt r w) in
      let inside : w * 64 + ctz 64 (free_bits st r w) < s =
        in_row w hw (ctz 64 (free_bits st r w)) small bit in
      (
        inside,
        ground (arith, bit, free_bit r w (ctz 64 (free_bits st r w)) hw small inside),
        λ c a b.
            ap (λ (i : ℕ). is_unassigned (st.cells (flat r i))) {x = c} {y = w * 64 + (c - w * 64)}
              (omega arith)
            ∙ ground (
              arith,
              free_bit r w (c - w * 64) hw (omega arith) (omega arith),
              below (c - w * 64) (omega arith),
            ),
      )
    where
      in_row :
          (w : ℕ) → w < 2 → (i : ℕ) → i < 64 → get_bit (free_bits st r w) i ≡ 1 → w * 64 + i < s
      in_row zero h i hi e = omega arith
      in_row (suc zero) h i hi e = elim (dec_lt i 63) [
        | yes less ↦ omega arith
        | no last ↦ absurd (
            one_zero (get_bit (free_bits st r 1) i) e (
              ap (λ (j : ℕ). get_bit (free_bits st r 1) j) {x = i} {y = 63} (omega arith)
              ∙ last_bit r))
      ]
      in_row (suc (suc w)) h i hi e = absurd (omega arith)

  second_word :
      (r c : ℕ) → free_bits st r 0 ≡ 0 → c ≤ s → RowFull st r (1 * 64) c → RowFull st r 0 c
  second_word r c e h full i a b = elim (dec_lt i 64) [
    | yes less ↦ word_full r 0 (omega arith) e i (omega arith) (omega arith) (omega arith)
    | no more ↦ full i (omega arith) b
  ]

  -- What the scan of one row finds.
  abbrev pub RowFirst : ℕ → Option Cell → Type 0
  RowFirst r none = RowFull st r 0 s
  RowFirst r (some (r', c)) =
      (r' ≡ r) × (c < s) × (is_unassigned (st.cells (flat r' c)) ≡ true) × RowFull st r 0 c

  pub scan_words-RowFirst : (r : ℕ) → RowFirst r (scan_words st r 0 2)
  unfolding scan_words
  scan_words-RowFirst r = elim (dec_lt 0 (free_bits st r 0)) [
    | yes found ↦
        let (a, b, c) = word_found r 0 (omega arith) found in
        rw (not_zero (free_bits st r 0) found) (refl, a, b, c)
    | no empty ↦ elim (dec_lt 0 (free_bits st r 1)) [
      | yes found ↦
          let (a, b, c) = word_found r 1 (omega arith) found in
          rw (is_zero (free_bits st r 0) (omega arith), not_zero (free_bits st r 1) found)
            (refl, a, b, second_word r _ (omega arith) (omega arith) c)
      | no empty' ↦
          rw (is_zero (free_bits st r 0) (omega arith), is_zero (free_bits st r 1) (omega arith))
            (second_word r 127 (omega arith) (omega arith)
              (λ i lo hi. word_full r 1 (omega arith) (omega arith) i lo (omega arith) hi))
    ]
  ]
