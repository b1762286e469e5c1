-- ===== src/Propagation/Quiet.antt =====
-- Lines that wait or call for nothing, while the cells of a line are forced.
use crsce.Prelude.{
  ℕ, ◌≤◌, ◌<◌, ◌≡◌, ap, ◌∙◌, sym, subst, inl, inr, ◌⊎◌, arith, true, List, [], ◌∷◌, ◌++◌, count,
  All, Bool-cases,
}
use native.Mathlib.Decide.{dec_lt}
use crsce.Lines.{Ltp, IsLtp, Cell, InMatrix, s, total_lines, line_indices, lines_for_cell}
use crsce.Store.{Store, flat, is_unassigned, assign, get_cell_state}
use crsce.Store.Tally.{tally, unknown_on}
use crsce.Store.Consistent.{Consistent, assign-stats}
use crsce.Propagation.{Engine, skip, judge, enqueue, force_cell, force_cells}
use crsce.Propagation.Force.{enqueue_facts, lines_for_cell-IsLine}
use crsce.Propagation.Forcing.{Safe, force_cell-Safe, force_cell-skip}
use crsce.Propagation.Waiting.{waiting, Waits, enqueue-Waits, waiting-lines_for_cell}

-- Every line but line x waits or calls for nothing.
pub record Quiet (x : ℕ) (e : Engine) : Type 0 where
  pub waits : Waits e.work e.queued
  pub settled :
      (i : ℕ)
      → i < total_lines
      → (0 < waiting e.work i) ⊎ ((i ≡ x) ⊎ (judge (e.store.stats i) ≡ skip))

-- All cells of the list are on line i.
abbrev pub On : Ltp → ℕ → List Cell → Type 0
On t i = All (λ p. 0 < count i (line_indices t p.0 p.1))

module _ (t : Ltp) (ok : IsLtp t) (x v line : ℕ) where
  assign-other :
      (st : Store) (r c : ℕ)
      → Consistent t st
      → r < s
      → c < s
      → is_unassigned (st.cells (flat r c)) ≡ true
      → (i : ℕ) → i < total_lines
      → count i (line_indices t r c) ≡ 0
      → (assign t st r c v).stats i ≡ st.stats i
  assign-other st r c k hr hc h i small none =
      assign-stats t ok st k r c hr hc v h i small ∙ ground (arith, none)

  module _ (r c : ℕ) (hr : r < s) (hc : c < s) (e : Engine) (safe : Safe t e) (quiet : Quiet x e)
      (h : is_unassigned (e.store.cells (flat r c)) ≡ true) where
    forced_cell-Quiet :
        Quiet x (force_cell t v line (r, c) e)
        × ((i : ℕ)
            → 0 < count i (line_indices t r c)
            → 0 < waiting (force_cell t v line (r, c) e).work i)
        × ((i : ℕ) → waiting e.work i ≤ waiting (force_cell t v line (r, c) e).work i)
    unfolding force_cell get_cell_state
    forced_cell-Quiet = rw h (
      record { waits = pushed.0; settled = kept },
      λ i on. pushed.1 i (omega (arith, on, waiting-lines_for_cell t ok r c i hr hc)),
      pushed.2,
    )
      where
        after : Engine
        after = record e {
          store = assign t e.store r c v;
          forced = e.forced ++ (record { r = r; c = c; value = v; antecedent_line = line } ∷ []);
        }

        pushed :
            Waits
              (enqueue (lines_for_cell t r c) after).work
              (enqueue (lines_for_cell t r c) after).queued
            × ((i : ℕ)
                → 0 < waiting (lines_for_cell t r c) i
                → 0 < waiting (enqueue (lines_for_cell t r c) after).work i)
            × ((i : ℕ) → waiting e.work i ≤ waiting (enqueue (lines_for_cell t r c) after).work i)
        pushed = enqueue-Waits (lines_for_cell t r c) after quiet.waits

        unchanged : (enqueue (lines_for_cell t r c) after).store ≡ assign t e.store r c v
        unchanged =
            (enqueue_facts (lines_for_cell t r c) after (lines_for_cell-IsLine t ok r c hr hc).0
              safe.lines).0

        kept :
            (i : ℕ)
            → i < total_lines
            → (0 < waiting (enqueue (lines_for_cell t r c) after).work i)
              ⊎ ((i ≡ x) ⊎ (judge ((enqueue (lines_for_cell t r c) after).store.stats i) ≡ skip))
        kept i small = elim (dec_lt 0 (count i (line_indices t r c))) [
          | yes on ↦ inl (pushed.1 i (omega (arith, on, waiting-lines_for_cell t ok r c i hr hc)))
          | no off ↦ elim (quiet.settled i small) [
            | inl w ↦ inl (omega (arith, w, pushed.2 i))
            | inr (inl exempt) ↦ inr (inl exempt)
            | inr (inr calm) ↦ inr (
                inr (
                  ap (λ st. judge (st.stats i)) unchanged
                  ∙ ap judge (
                      assign-other e.store r c safe.consistent hr hc h i small (omega (arith, off)))
                  ∙ calm))
          ]
        ]

  -- After all cells are forced, a line with an unassigned cell among them waits.
  pub force_cells-Quiet :
      (ps : List Cell) (e : Engine)
      → All InMatrix ps
      → Safe t e
      → Quiet x e
      → Quiet x (force_cells t v line ps e)
        × ((i : ℕ)
            → On t i ps
            → 0 < unknown_on e.store.cells ps
            → 0 < waiting (force_cells t v line ps e).work i)
        × ((i : ℕ) → waiting e.work i ≤ waiting (force_cells t v line ps e).work i)
  unfolding force_cells tally
  force_cells-Quiet [] e a safe quiet = (quiet, λ i on some. absurd (omega arith), λ i. omega arith)
  force_cells-Quiet ((r, c) ∷ ps) e a safe quiet =
      elim (Bool-cases (is_unassigned (e.store.cells (flat r c)))) [
        | inl h ↦
            let head = forced_cell-Quiet r c a.0.0 a.0.1 e safe quiet h in
            let rest =
              force_cells-Quiet ps (force_cell t v line (r, c) e) a.1
                (force_cell-Safe t ok v line r c a.0.0 a.0.1 e safe).0 head.0 in
            (
              rest.0,
              λ i on some. omega (arith, head.1 i on.0, rest.2 i),
              λ i. omega (arith, head.2 i, rest.2 i),
            )
        | inr h ↦
            let rest = force_cells-Quiet ps e a.1 safe quiet in
            subst
              (λ e'.
                Quiet x (force_cells t v line ps e')
                × ((i : ℕ)
                    → On t i ((r, c) ∷ ps)
                    → 0 < unknown_on e.store.cells ((r, c) ∷ ps)
                    → 0 < waiting (force_cells t v line ps e').work i)
                × ((i : ℕ) → waiting e.work i ≤ waiting (force_cells t v line ps e').work i))
              (sym (force_cell-skip t ok v line r c a.0.0 a.0.1 e safe h))
              (rest.0, λ i on some. rest.1 i on.1 (ground (arith, some, h)), rest.2)
      ]
