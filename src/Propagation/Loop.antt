-- ===== src/Propagation/Loop.antt =====
-- The propagation loop: enough fuel, what every outcome keeps, and that a false answer is right.
use crsce.Prelude.{
  ℕ, zero, suc, ◌<◌, ◌≡◌, refl, ◌⊎◌, inl, inr, arith, Bool, true, false, Option, some, List, [],
  ◌∷◌, All, length, ap, List-cases,
}
use crsce.Lines.{Ltp, IsLtp, LineId, IsLine, line_index, cells_on_line}
use crsce.Lines.Extent.{cells_on_line-InMatrix}
use crsce.Store.{get_stat}
use crsce.Propagation.{
  Engine, Verdict, infeasible, skip, force, judge, force_cells, pop, propagate_loop,
}
use crsce.Propagation.Force.{measure}
use crsce.Propagation.Forcing.{Safe, force_cells-Safe}

pub Verdict-cases : (x : Verdict) → (x ≡ infeasible) ⊎ ((x ≡ skip) ⊎ ((v : ℕ) × (x ≡ force v)))
Verdict-cases infeasible = inl refl
Verdict-cases skip = inr (inl refl)
Verdict-cases (force v) = inr (inr (v, refl))

module _ (t : Ltp) where
  -- One round: `line` is taken off, and judged infeasible, passed over, or forced.
  abbrev pub Round : (Engine → Type 0) → Engine → LineId → List LineId → Verdict → Type 0
  Round P e line rest infeasible = Unit {0}
  Round P e line rest skip = P (pop t line rest e) × (measure (pop t line rest e) < measure e)
  Round P e line rest (force v) =
      P (force_cells t v (line_index line) (cells_on_line t line) (pop t line rest e))
      × (measure (force_cells t v (line_index line) (cells_on_line t line) (pop t line rest e))
          < measure e)

  -- Where the loop stands when a line makes it give up.
  pub record GaveUp (P : Engine → Type 0) : Type 0 where
    pub at : Engine
    pub line : LineId
    pub rest : List LineId
    pub holds : P at
    pub waiting : at.work ≡ line ∷ rest
    pub judged : judge (get_stat at.store line) ≡ infeasible

  -- How the loop ends.
  abbrev pub Ends : (Engine → Type 0) → Option (Bool × Engine) → Type 0
  Ends P r =
      (e' : Engine) × P e'
      × (((r ≡ some (true, e')) × (e'.work ≡ [])) ⊎ ((r ≡ some (false, e')) × GaveUp P))

  pub loop_done :
      (fuel : ℕ) (e : Engine) → e.work ≡ [] → propagate_loop t (suc fuel) e ≡ some (true, e)
  unfolding propagate_loop
  loop_done fuel e w = ground arith

  pub loop_infeasible :
      (fuel : ℕ) (e : Engine) (line : LineId) (rest : List LineId)
      → e.work ≡ line ∷ rest
      → judge (get_stat e.store line) ≡ infeasible
      → propagate_loop t (suc fuel) e ≡ some (false, pop t line rest e)
  unfolding propagate_loop
  loop_infeasible fuel e line rest w j = ground arith

  pub loop_skip :
      (fuel : ℕ) (e : Engine) (line : LineId) (rest : List LineId)
      → e.work ≡ line ∷ rest
      → judge (get_stat e.store line) ≡ skip
      → propagate_loop t (suc fuel) e ≡ propagate_loop t fuel (pop t line rest e)
  unfolding propagate_loop
  loop_skip fuel e line rest w j = ground arith

  pub loop_force :
      (fuel : ℕ) (e : Engine) (line : LineId) (rest : List LineId) (v : ℕ)
      → e.work ≡ line ∷ rest
      → judge (get_stat e.store line) ≡ force v
      → propagate_loop t (suc fuel) e
        ≡ propagate_loop t fuel
            (force_cells t v (line_index line) (cells_on_line t line) (pop t line rest e))
  unfolding propagate_loop
  loop_force fuel e line rest v w j = rw (w, propagate_loop, j, propagate_loop)

  module _ (P : Engine → Type 0)
      (round : (e : Engine) (line : LineId) (rest : List LineId)
        → e.work ≡ line ∷ rest
        → P e
        → Round P e line rest (judge (get_stat e.store line)))
      (popped : (e : Engine) (line : LineId) (rest : List LineId)
        → e.work ≡ line ∷ rest
        → P e
        → P (pop t line rest e)) where
    pub loop-Ends :
        (fuel : ℕ) (e : Engine) → measure e < fuel → P e → Ends P (propagate_loop t fuel e)
    loop-Ends zero e h p = absurd (omega arith)
    loop-Ends (suc fuel) e h p = elim (List-cases e.work) [
      | inl w ↦ (e, p, inl (loop_done fuel e w, w))
      | inr (line, rest, w) ↦ elim (Verdict-cases (judge (get_stat e.store line))) [
        | inl j ↦ (
          pop t line rest e,
          popped e line rest w p,
          inr (
            loop_infeasible fuel e line rest w j,
            record { at = e; line = line; rest = rest; holds = p; waiting = w; judged = j },
          ),
        )
        | inr (inl j) ↦
            let (q, less) : Round P e line rest skip = rw j at (round e line rest w p) in
            rw (loop_skip fuel e line rest w j)
              (loop-Ends fuel (pop t line rest e) (omega (arith, less)) q)
        | inr (inr (v, j)) ↦
            let next =
              force_cells t v (line_index line) (cells_on_line t line) (pop t line rest e) in
            let (q, less) : Round P e line rest (force v) = rw j at (round e line rest w p) in
            rw (loop_force fuel e line rest v w j) (loop-Ends fuel next (omega (arith, less)) q)
      ]
    ]

  -- How the loop ends, for what only a true answer keeps.
  abbrev pub Keeps : (Engine → Type 0) → Option (Bool × Engine) → Type 0
  Keeps P r =
      (e' : Engine) × (((r ≡ some (true, e')) × P e' × (e'.work ≡ [])) ⊎ (r ≡ some (false, e')))

  pub loop-Keeps :
      (P : Engine → Type 0)
      → ((e : Engine) (line : LineId) (rest : List LineId)
          → e.work ≡ line ∷ rest
          → P e
          → Round P e line rest (judge (get_stat e.store line)))
      → (fuel : ℕ) (e : Engine) → measure e < fuel
      → P e
      → Keeps P (propagate_loop t fuel e)
  loop-Keeps P round zero e h p = absurd (omega arith)
  loop-Keeps P round (suc fuel) e h p = elim (List-cases e.work) [
    | inl w ↦ (e, inl (loop_done fuel e w, p, w))
    | inr (line, rest, w) ↦ elim (Verdict-cases (judge (get_stat e.store line))) [
      | inl j ↦ (pop t line rest e, inr (loop_infeasible fuel e line rest w j))
      | inr (inl j) ↦
          let (q, less) : Round P e line rest skip = rw j at (round e line rest w p) in
          rw (loop_skip fuel e line rest w j)
            (loop-Keeps P round fuel (pop t line rest e) (omega (arith, less)) q)
      | inr (inr (v, j)) ↦
          let next = force_cells t v (line_index line) (cells_on_line t line) (pop t line rest e) in
          let (q, less) : Round P e line rest (force v) = rw j at (round e line rest w p) in
          rw (loop_force fuel e line rest v w j)
            (loop-Keeps P round fuel next (omega (arith, less)) q)
    ]
  ]

module _ (t : Ltp) (ok : IsLtp t) where
  pub pop-Safe :
      (e : Engine) (line : LineId) (rest : List LineId)
      → e.work ≡ line ∷ rest
      → Safe t e
      → Safe t (pop t line rest e) × IsLine line × (measure (pop t line rest e) < measure e)
  unfolding pop measure
  pop-Safe e line rest w safe =
      let (line_ok, rest_ok) : All IsLine (line ∷ rest) = rw w at safe.lines in
      (
        record { consistent = safe.consistent; lines = rest_ok },
        line_ok,
        omega (arith, ap length w),
      )

  pub Round-Safe :
      (e : Engine) (line : LineId) (rest : List LineId)
      → e.work ≡ line ∷ rest
      → Safe t e
      → (x : Verdict) → Round t (Safe t) e line rest x
  Round-Safe e line rest w safe infeasible = tt
  Round-Safe e line rest w safe skip =
      let (popped, line_ok, less) = pop-Safe e line rest w safe in (popped, less)
  Round-Safe e line rest w safe (force v) =
      let (popped, line_ok, less) = pop-Safe e line rest w safe in
      let (kept, no_more) =
        force_cells-Safe t ok v (line_index line) (cells_on_line t line) (pop t line rest e)
          (cells_on_line-InMatrix t ok line line_ok) popped in
      (kept, omega (arith, less, no_more))
