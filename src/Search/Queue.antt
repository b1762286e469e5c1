-- ===== src/Search/Queue.antt =====
-- The lines in the queue of the initial propagation.
use crsce.Prelude.{
  ℕ, zero, suc, ◌+◌, ◌≤◌, ◌<◌, ◌≡◌, refl, inl, inr, ◌⊎◌, arith, List, [], ◌∷◌, ◌++◌, All, length,
  map, range,
}
use crsce.Lines.{
  s, num_diags, LineType, LineId, IsLine, line_count, row, column, diagonal, anti_diagonal, ltp1,
  ltp2,
}
use crsce.Search.{lines_of, all_lines}
use native.Mathlib.Decide.{dec_lt}
use crsce.Lines.{total_lines, line_index}
use crsce.Propagation.Waiting.{waiting}

abbrev line_at : LineType → ℕ → LineId
line_at type i = record { type = type; index = i }

lines_of-IsLine :
    (type : LineType) (lo n : ℕ)
    → lo + n ≤ line_count type
    → All IsLine (map (line_at type) (range lo n)) × (length (map (line_at type) (range lo n)) ≡ n)
unfolding range
lines_of-IsLine type lo zero h = (tt, refl)
lines_of-IsLine type lo (suc n) h =
    let rest = lines_of-IsLine type (lo + 1) n (omega arith) in
    ((omega arith, rest.0), omega (arith, rest.1))

queue_append :
    (xs ys : List LineId) (n m : ℕ)
    → All IsLine xs × (length xs ≡ n)
    → All IsLine ys × (length ys ≡ m)
    → All IsLine (xs ++ ys) × (length (xs ++ ys) ≡ n + m)
queue_append [] ys n m a b = (b.0, omega (arith, a.1, b.1))
queue_append (x ∷ xs) ys n m a b =
    let rest = queue_append xs ys (length xs) m (a.0.1, refl) b in
    ((a.0.0, rest.0), omega (arith, rest.1, a.1))

pub all_lines-IsLine : All IsLine all_lines × (length all_lines ≡ 1014)
unfolding all_lines lines_of
all_lines-IsLine = queue_append _ _ 127 887 (lines_of-IsLine row 0 s (omega arith)) (
    queue_append _ _ 127 760 (lines_of-IsLine column 0 s (omega arith)) (
      queue_append _ _ 253 507 (lines_of-IsLine diagonal 0 num_diags (omega arith)) (
        queue_append _ _ 253 254 (lines_of-IsLine anti_diagonal 0 num_diags (omega arith)) (
          queue_append _ _ 127 127 (lines_of-IsLine ltp1 0 s (omega arith))
            (lines_of-IsLine ltp2 0 s (omega arith))))))

-- The lines of one family, from number `lo` on for n, wait.
family_waits :
    (f : ℕ → LineId) (base lo n i : ℕ)
    → ((k : ℕ) → line_index (f k) ≡ base + k)
    → base + lo ≤ i
    → i < base + lo + n
    → 0 < waiting (map f (range lo n)) i
unfolding range
family_waits f base lo zero i h a b = absurd (omega arith)
family_waits f base lo (suc n) i h a b = ground (arith, h lo, family_waits f base (lo + 1) n i h)

waiting-append : (xs ys : List LineId) (i : ℕ) → waiting (xs ++ ys) i ≡ waiting xs i + waiting ys i
waiting-append [] ys i = omega arith
waiting-append (x ∷ xs) ys i = omega (arith, waiting-append xs ys i)

any_waits :
    (xs ys : List LineId) (i : ℕ)
    → (0 < waiting xs i) ⊎ (0 < waiting ys i)
    → 0 < waiting (xs ++ ys) i
any_waits xs ys i (inl h) = omega (arith, h, waiting-append xs ys i)
any_waits xs ys i (inr h) = omega (arith, h, waiting-append xs ys i)

lines_of-waits :
    (type : LineType) (base n i : ℕ)
    → ((k : ℕ) → line_index (record { type = type; index = k }) ≡ base + k)
    → base ≤ i
    → i < base + n
    → 0 < waiting (lines_of type n) i
unfolding lines_of
lines_of-waits type base n i h a b =
    family_waits (λ k. record { type = type; index = k }) base 0 n i h (omega arith) (omega arith)

pub all_lines-waits : (i : ℕ) → i < total_lines → 0 < waiting all_lines i
unfolding all_lines line_index
all_lines-waits i h =
    let ltps = lines_of ltp1 s ++ lines_of ltp2 s in
    let antis = lines_of anti_diagonal num_diags ++ ltps in
    let diags = lines_of diagonal num_diags ++ antis in
    let columns = lines_of column s ++ diags in
    any_waits (lines_of row s) columns i (elim (dec_lt i 127) [
      | yes a ↦ inl (lines_of-waits row 0 127 i (λ k. omega arith) (omega arith) (omega arith))
      | no a ↦ inr (
          any_waits (lines_of column s) diags i (elim (dec_lt i 254) [
            | yes b ↦
                inl (lines_of-waits column 127 127 i (λ k. omega arith) (omega arith) (omega arith))
            | no b ↦ inr (
                any_waits (lines_of diagonal num_diags) antis i (elim (dec_lt i 507) [
                  | yes d ↦ inl (
                      lines_of-waits diagonal 254 253 i (λ k. omega arith) (omega arith)
                        (omega arith))
                  | no d ↦ inr (
                      any_waits (lines_of anti_diagonal num_diags) ltps i (elim (dec_lt i 760) [
                        | yes e ↦ inl (
                            lines_of-waits anti_diagonal 507 253 i (λ k. omega arith) (omega arith)
                              (omega arith))
                        | no e ↦ inr (
                            any_waits (lines_of ltp1 s) (lines_of ltp2 s) i (elim (dec_lt i 887) [
                              | yes f ↦ inl (
                                  lines_of-waits ltp1 760 127 i (λ k. omega arith) (omega arith)
                                    (omega arith))
                              | no f ↦ inr (
                                  lines_of-waits ltp2 887 127 i (λ k. omega arith) (omega arith)
                                    (omega arith))
                            ]))
                      ]))
                ]))
          ]))
    ])
