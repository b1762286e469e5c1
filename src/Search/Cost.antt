-- ===== src/Search/Cost.antt =====
-- A bound on the rounds that the search still makes, from what its frames have left to try.
use crsce.Prelude.{
  ℕ, zero, suc, ◌+◌, ◌-◌, ◌*◌, ◌≤◌, ◌<◌, ◌≡◌, refl, ap, arith, List, [], ◌∷◌, ◌++◌, length, ◌==◌,
  if◌then◌else◌, All,
}
use crsce.Lines.{Cell}
use crsce.Store.{flat}
use crsce.Search.{Frame}

-- The rounds for a frame whose cell is one of k unassigned ones.
unfoldable pub weight : ℕ → ℕ
weight zero = 1
weight (suc k) = 2 * (weight k + 1) + 1

-- The same when `tries` values are left.
unfoldable pub cost : ℕ → ℕ → ℕ
cost zero k = 1
cost (suc tries) k = weight (k - 1) + 1 + cost tries k

unfoldable pub below_cost : ℕ → List Frame → ℕ
below_cost n [] = 0
below_cost n (f ∷ fs) = cost (2 - f.next_value) (n - f.token) + below_cost n fs

-- The newest frame has no save point before its first value.
unfoldable pub top_cost : ℕ → ℕ → Frame → ℕ
top_cost n depth f =
    if f.next_value == 0 then cost 2 (n - depth) else cost (2 - f.next_value) (n - f.token)

unfoldable pub all_cost : ℕ → ℕ → List Frame → ℕ
all_cost n depth [] = 0
all_cost n depth (f ∷ fs) = top_cost n depth f + below_cost n fs

weight-pos : (k : ℕ) → 1 ≤ weight k
unfolding weight
weight-pos zero = omega arith
weight-pos (suc k) = omega arith

weight_monotone : (a b : ℕ) → a ≤ b → weight a ≤ weight b
unfolding weight
weight_monotone zero b h = weight-pos b
weight_monotone (suc a) zero h = absurd (omega arith)
weight_monotone (suc a) (suc b) h = omega (arith, weight_monotone a b (omega arith))

pub cost-pos : (tries k : ℕ) → 0 < cost tries k
unfolding cost
cost-pos zero k = omega arith
cost-pos (suc tries) k = omega arith

pub cost_monotone : (tries a b : ℕ) → a ≤ b → cost tries a ≤ cost tries b
unfolding cost
cost_monotone zero a b h = omega arith
cost_monotone (suc tries) a b h =
    omega (arith, cost_monotone tries a b h, weight_monotone (a - 1) (b - 1) (omega arith))

below_cost_monotone : (n n' : ℕ) (fs : List Frame) → n' ≤ n → below_cost n' fs ≤ below_cost n fs
unfolding below_cost
below_cost_monotone n n' [] h = omega arith
below_cost_monotone n n' (f ∷ fs) h = omega (
  arith,
  below_cost_monotone n n' fs h,
  cost_monotone (2 - f.next_value) (n' - f.token) (n - f.token) (omega arith),
)

fresh_cost : (k : ℕ) → 0 < k → cost 2 k ≡ weight k
unfolding cost weight
fresh_cost zero h = absurd (omega arith)
fresh_cost (suc k) h = omega (arith, ap weight {x = suc k - 1} {y = k} (omega arith))

-- Every frame tried a value: its cell was recorded on the stack at its save point, and later cells
-- behind it.
abbrev pub Framed : List Frame → List Cell → Type 0
Framed [] stack = Unit {0}
Framed (f ∷ fs) stack =
    (above : List Cell) × (below : List Cell) × (stack ≡ above ++ ((f.r, f.c) ∷ below))
    × (f.token ≡ length below)
    × (0 < f.next_value)
    × All (λ p. flat f.r f.c ≤ flat p.0 p.1) above
    × Framed fs below

pub Framed-cost :
    (fs : List Frame) (stack : List Cell) (n depth : ℕ)
    → Framed fs stack
    → all_cost n depth fs ≡ below_cost n fs
unfolding all_cost below_cost top_cost
Framed-cost [] stack n depth a = refl
Framed-cost (f ∷ fs) stack n depth a = ground (arith, a.4)

-- A value was tried at the save point `token`, and the room is no more: the bound leaves rounds for
-- a fresh frame on top.
module _ (f : Frame) (fs : List Frame) (n n' token : ℕ) (left : f.next_value < 2)
    (no_more : n' ≤ n) where
  abbrev pub tried : Frame
  tried = record f { next_value = f.next_value + 1; token = token }

  cost-left :
      cost (2 - f.next_value) (n - token)
      ≡ weight (n - token - 1) + 1 + cost (2 - (f.next_value + 1)) (n - token)
  unfolding cost
  cost-left =
      ap (λ (i : ℕ). cost i (n - token)) {x = 2 - f.next_value} {y = suc (2 - (f.next_value + 1))}
        (omega arith)

  pub tried-cost :
      below_cost n' (tried ∷ fs) + weight (n - token - 1) + 1
      ≤ cost (2 - f.next_value) (n - token) + below_cost n fs
  unfolding below_cost
  tried-cost = omega (
    arith,
    cost-left,
    below_cost_monotone n n' fs no_more,
    cost_monotone (2 - (f.next_value + 1)) (n' - token) (n - token) (omega arith),
  )

  pub tried-fresh :
      (k : ℕ)
      → 0 < k
      → k + token < n
      → cost 2 k + below_cost n' (tried ∷ fs)
        < cost (2 - f.next_value) (n - token) + below_cost n fs
  tried-fresh k pos small =
      omega (arith, tried-cost, fresh_cost k pos, weight_monotone k (n - token - 1) (omega arith))
