-- ===== src/Search/Lex.antt =====
-- The order in which enumerateSolutionsLex submits its matrices: what a frame of the search knows of
-- those submitted before.
use crsce.Prelude.{
  ℕ, ◌+◌, ◌-◌, ◌/◌, ◌%◌, ◌<◌, ◌≤◌, ◌≡◌, ap, ◌∙◌, sym, inl, inr, ◌⊎◌, arith, false, List, [], ◌∷◌,
  ◌++◌, All, to_bit, lt→ltb,
}
use crsce.Lines.{Ltp, s}
use crsce.Csm.{Csm, cell}
use crsce.Store.{CellState, one, Store, flat, is_unassigned, is_one, state_of, get_row}
use crsce.Store.Consistent.{Consistent}
use crsce.Search.{Frame, build_csm, branch_order}

-- The bits of a matrix, row by row.
abbrev pub bit : Csm → ℕ → ℕ
bit m z = cell m (z / s) (z % s)

-- At the first bit where they differ, the one has 0 and the other 1.
abbrev pub LexLess : Csm → Csm → Type 0
LexLess m m' =
    (y : ℕ) × (y < 16129) × ((z : ℕ) → z < y → bit m z ≡ bit m' z) × (bit m y ≡ 0) × (bit m' y ≡ 1)

-- Each matrix is less than every later one.
abbrev pub Increasing : List Csm → Type 0
Increasing [] = Unit {0}
Increasing (m ∷ ms) = All (LexLess m) ms × Increasing ms

-- The matrix has the cells before x.
abbrev pub Matches : (ℕ → CellState) → ℕ → Csm → Type 0
Matches f x m = (z : ℕ) → z < x → bit m z ≡ to_bit (is_one (f z))

-- The matrix is less than every one that has the cells before x.
abbrev pub Under : (ℕ → CellState) → ℕ → Csm → Type 0
Under f x m = (y : ℕ) × (y < x) × Matches f y m × (bit m y ≡ 0) × (f y ≡ one)

-- So far, or it has the cells before x and a smaller bit x than the next value.
abbrev pub Passed : (ℕ → CellState) → ℕ → ℕ → Csm → Type 0
Passed f x next m = Under f x m ⊎ (Matches f x m × (bit m x < next))

abbrev pub Assigned : (ℕ → CellState) → ℕ → Type 0
Assigned f x = (z : ℕ) → z < x → is_unassigned (f z) ≡ false

abbrev pub Same : ℕ → (ℕ → CellState) → (ℕ → CellState) → Type 0
Same x f f' = (z : ℕ) → z < x → f' z ≡ f z

abbrev pub place_of : Frame → ℕ
place_of g = flat g.r g.c

-- The frames below a cell, each with its value in the store, and the matrices that they are done with.
abbrev pub Ordered : ℕ → (ℕ → CellState) → List Csm → List Frame → Type 0
Ordered bound f ms [] = Unit {0}
Ordered bound f ms (g ∷ gs) =
    (place_of g < bound)
    × Assigned f (place_of g)
    × (0 < g.next_value)
    × (f (place_of g) ≡ state_of (branch_order (g.next_value - 1)))
    × All (Passed f (place_of g) g.next_value) ms
    × Ordered (place_of g) f ms gs

-- The newest frame, whose cell may be unassigned.
abbrev pub Ready : (ℕ → CellState) → List Csm → List Frame → Type 0
Ready f ms [] = Unit {0}
Ready f ms (g ∷ gs) =
    Assigned f (place_of g)
    × All (Passed f (place_of g) g.next_value) ms
    × Ordered (place_of g) f ms gs

All-map : {P Q : Csm → Type 0} → ((m : Csm) → P m → Q m) → (ms : List Csm) → All P ms → All Q ms
All-map h [] a = tt
All-map h (m ∷ ms) a = (h m a.0, All-map h ms a.1)

All-append : (P : Csm → Type 0) (ms : List Csm) (m : Csm) → All P ms → P m → All P (ms ++ (m ∷ []))
All-append P [] m a h = (h, tt)
All-append P (x ∷ ms) m a h = (a.0, All-append P ms m a.1 h)

-- Only cells before x matter.
module _ (f f' : ℕ → CellState) where
  Matches-Same : (x : ℕ) (m : Csm) → Same x f f' → Matches f x m → Matches f' x m
  Matches-Same x m same h z less = h z less ∙ ap (λ v. to_bit (is_one v)) (sym (same z less))

  Passed-Same : (x next : ℕ) (m : Csm) → Same x f f' → Passed f x next m → Passed f' x next m
  Passed-Same x next m same (inl (y, less, h, bit0, at)) =
      inl (y, less, Matches-Same y m (λ z lo. same z (omega arith)) h, bit0, same y less ∙ at)
  Passed-Same x next m same (inr (h, small)) = inr (Matches-Same x m same h, small)

  Assigned-Same : (x : ℕ) → Same x f f' → Assigned f x → Assigned f' x
  Assigned-Same x same h z less = ap is_unassigned (same z less) ∙ h z less

  pub Ordered-Same :
      (b x : ℕ) (ms : List Csm) (gs : List Frame)
      → b ≤ x
      → Same x f f'
      → Ordered b f ms gs
      → Ordered b f' ms gs
  Ordered-Same b x ms [] le same o = tt
  Ordered-Same b x ms (g ∷ gs) le same (small, full, pos, at, passed, rest) = (
    small,
    Assigned-Same (place_of g) (λ z lo. same z (omega arith)) full,
    pos,
    same (place_of g) (omega arith) ∙ at,
    All-map (λ m. Passed-Same (place_of g) g.next_value m (λ z lo. same z (omega arith))) ms passed,
    Ordered-Same (place_of g) x ms gs (omega arith) same rest,
  )

  pub Ready-Same :
      (x : ℕ) (ms : List Csm) (g : Frame) (gs : List Frame)
      → place_of g ≤ x
      → Same x f f'
      → Ready f ms (g ∷ gs)
      → Ready f' ms (g ∷ gs)
  Ready-Same x ms g gs le same (full, passed, rest) = (
    Assigned-Same (place_of g) (λ z lo. same z (omega arith)) full,
    All-map (λ m. Passed-Same (place_of g) g.next_value m (λ z lo. same z (omega arith))) ms passed,
    Ordered-Same (place_of g) x ms gs le same rest,
  )

pub Ordered-Ready :
    (b : ℕ) (f : ℕ → CellState) (ms : List Csm) (gs : List Frame)
    → Ordered b f ms gs
    → Ready f ms gs
Ordered-Ready b f ms [] o = tt
Ordered-Ready b f ms (g ∷ gs) o = (o.1, o.4, o.5)

Ordered-bound :
    (b b' : ℕ) (f : ℕ → CellState) (ms : List Csm) (gs : List Frame)
    → b ≤ b'
    → Ordered b f ms gs
    → Ordered b' f ms gs
Ordered-bound b b' f ms [] le o = tt
Ordered-bound b b' f ms (g ∷ gs) le (small, full, pos, at, passed, rest) =
    (omega arith, full, pos, at, passed, rest)

-- The frame's next value is in its cell.
module _ (f : ℕ → CellState) (ms : List Csm) (g : Frame) (gs : List Frame) (left : g.next_value < 2)
    (at : f (place_of g) ≡ state_of (branch_order g.next_value)) where
  Passed-Under : (m : Csm) → Passed f (place_of g) g.next_value m → Under f (place_of g + 1) m
  unfolding branch_order
  Passed-Under m (inl (y, less, h, bit0, at1)) = (y, omega arith, h, bit0, at1)
  Passed-Under m (inr (h, small)) = (
    place_of g,
    omega arith,
    h,
    omega arith,
    at ∙ ap (λ (x : ℕ). state_of (branch_order x)) {x = g.next_value} {y = 1} (omega arith),
  )

  pub tried-Under : Ready f ms (g ∷ gs) → All (Under f (place_of g + 1)) ms
  tried-Under (full, passed, rest) = All-map Passed-Under ms passed

  Passed-next :
      (m : Csm) → Passed f (place_of g) g.next_value m → Passed f (place_of g) (g.next_value + 1) m
  Passed-next m (inl u) = inl u
  Passed-next m (inr (h, small)) = inr (h, omega arith)

  pub tried-Ordered :
      (token : ℕ)
      → place_of g < 16129
      → Ready f ms (g ∷ gs)
      → Ordered 16129 f ms (record g { next_value = g.next_value + 1; token = token } ∷ gs)
  tried-Ordered token small (full, passed, rest) = (
    small,
    full,
    omega arith,
    at
        ∙ ap (λ (x : ℕ). state_of (branch_order x)) {x = g.next_value} {y = g.next_value + 1 - 1}
            (omega arith),
    All-map Passed-next ms passed,
    rest,
  )

-- A fresh frame behind them.
pub fresh-Ready :
    (f : ℕ → CellState) (ms : List Csm) (g p : Frame) (gs : List Frame)
    → All (Under f (place_of g + 1)) ms
    → Ordered 16129 f ms (g ∷ gs)
    → place_of g < place_of p
    → Assigned f (place_of p)
    → Ready f ms (p ∷ (g ∷ gs))
fresh-Ready f ms g p gs under (small, full', pos, at, passed, rest) more full = (
  full,
  All-map (λ m u. inl (u.0, omega (arith, u.1), u.2, u.3, u.4)) ms under,
  (more, full', pos, at, passed, rest),
)

-- The matrix of a full store.
module _ (t : Ltp) (st : Store) (k : Consistent t st) where
  bit-build_csm : (z : ℕ) → z < 16129 → bit (build_csm st) z ≡ to_bit (is_one (st.cells z))
  unfolding cell build_csm get_row
  bit-build_csm z h =
      let right = k.row_bit (z / s) (z % s) (omega arith) in
      let same =
        ap (λ (x : ℕ). to_bit (is_one (st.cells x))) {x = flat (z / s) (z % s)} {y = z}
          (omega arith) in
      rw (lt→ltb (z / s) s (omega arith)) (right ∙ same)

  Under-LexLess : (x : ℕ) (m : Csm) → x ≤ 16129 → Under st.cells x m → LexLess m (build_csm st)
  Under-LexLess x m le (y, less, h, bit0, at) = (
    y,
    omega arith,
    λ z lo. h z lo ∙ sym (bit-build_csm z (omega arith)),
    bit0,
    bit-build_csm y (omega arith) ∙ ap (λ v. to_bit (is_one v)) at,
  )

  pub Increasing-append :
      (x : ℕ) (ms : List Csm)
      → x ≤ 16129
      → All (Under st.cells x) ms
      → Increasing ms
      → Increasing (ms ++ (build_csm st ∷ []))
  Increasing-append x [] le under inc = (tt, tt)
  Increasing-append x (m ∷ ms) le (u, under) (less, inc) = (
    All-append (LexLess m) ms (build_csm st) less (Under-LexLess x m le u),
    Increasing-append x ms le under inc,
  )

  value-less : (n : ℕ) → 0 < n → to_bit (is_one (state_of (branch_order (n - 1)))) < n
  unfolding branch_order
  value-less n h = ground arith

  pub submitted-Ordered :
      (b : ℕ) (ms : List Csm) (gs : List Frame)
      → b ≤ 16129
      → Ordered b st.cells ms gs
      → Ordered b st.cells (ms ++ (build_csm st ∷ [])) gs
  submitted-Ordered b ms [] le o = tt
  submitted-Ordered b ms (g ∷ gs) le (small, full, pos, at, passed, rest) = (
    small,
    full,
    pos,
    at,
    All-append (Passed st.cells (place_of g) g.next_value) ms (build_csm st) passed (
        inr (
          λ z lo. bit-build_csm z (omega arith),
          omega (
            arith,
            bit-build_csm (place_of g) (omega arith),
            ap (λ v. to_bit (is_one v)) at,
            value-less g.next_value pos,
          ),
        )),
    submitted-Ordered (place_of g) ms gs (omega arith) rest,
  )
