-- ===== src/Propagation/Waiting.antt =====
-- Marked lines and the work list: pushing, taking off, and the marks at the start.
use crsce.Prelude.{
  ℕ, ◌+◌, ◌-◌, ◌*◌, ◌≤◌, ◌<◌, ◌≡◌, refl, ap, ◌∙◌, inl, inr, arith, true, List, [], ◌∷◌, ◌++◌, ◌==◌,
  map, count, to_bit, All, Bool-cases,
}
use crsce.Lines.{
  Ltp, IsLtp, LineId, s, num_diags, total_lines, basic_lines, line_index, flat_index_to_line_id,
  members, line_indices, lines_for_cell,
}
use crsce.Lines.Flat.{line_index-flat_index_to_line_id}
use crsce.Queued.{QueuedSet, is_queued, mark_queued, clear_queued}
use crsce.Queued.Laws.{
  Small, is_queued-mark, is_queued-clear, mark_queued-Small, clear_queued-Small,
}
use crsce.Propagation.{Engine, push_line, enqueue, mark_all}

-- How often line i is on the list.
abbrev pub waiting : List LineId → ℕ → ℕ
waiting ls i = count i (map line_index ls)

-- Only marked lines that wait: each marked line is on the list.
pub record Waits (work : List LineId) (q : QueuedSet) : Type 0 where
  pub small : Small q
  pub right : (i : ℕ) → is_queued q i ≡ true → 0 < waiting work i

waiting-append :
    (ls : List LineId) (l : LineId) (i : ℕ)
    → waiting (ls ++ (l ∷ [])) i ≡ waiting ls i + to_bit (line_index l == i)
waiting-append [] l i = omega arith
waiting-append (x ∷ ls) l i = omega (arith, waiting-append ls l i)

pub push_line-Waits :
    (l : LineId) (e : Engine)
    → Waits e.work e.queued
    → Waits (push_line l e).work (push_line l e).queued
      × (0 < waiting (push_line l e).work (line_index l))
      × ((i : ℕ) → waiting e.work i ≤ waiting (push_line l e).work i)
unfolding push_line
push_line-Waits l e k = elim (Bool-cases (is_queued e.queued (line_index l))) [
  | inl h ↦ rw h (k, k.right (line_index l) h, λ i. omega arith)
  | inr h ↦ rw h (
    record {
      small = mark_queued-Small e.queued (line_index l) k.small;
      right = λ i marked. ground (
        arith,
        waiting-append e.work l i,
        is_queued-mark e.queued (line_index l) i,
        marked,
        k.right i,
      );
    },
    ground (arith, waiting-append e.work l (line_index l)),
    λ i. omega (arith, waiting-append e.work l i),
  )
]

pub enqueue-Waits :
    (ls : List LineId) (e : Engine)
    → Waits e.work e.queued
    → Waits (enqueue ls e).work (enqueue ls e).queued
      × ((i : ℕ) → 0 < waiting ls i → 0 < waiting (enqueue ls e).work i)
      × ((i : ℕ) → waiting e.work i ≤ waiting (enqueue ls e).work i)
unfolding enqueue
enqueue-Waits [] e k = (k, λ i h. absurd (omega arith), λ i. omega arith)
enqueue-Waits (l ∷ ls) e k =
    let head = push_line-Waits l e k in
    let rest = enqueue-Waits ls (push_line l e) head.0 in
    (
      rest.0,
      λ i h. ground (arith, rest.1 i, rest.2 i, head.1, h),
      λ i. omega (arith, head.2 i, rest.2 i),
    )

pub pop-Waits :
    (line : LineId) (rest : List LineId) (q : QueuedSet)
    → Waits (line ∷ rest) q
    → Waits rest (clear_queued q (line_index line))
pop-Waits line rest q k = record {
  small = clear_queued-Small q (line_index line) k.small;
  right =
      λ i marked. ground (arith, is_queued-clear q (line_index line) i k.small, marked, k.right i);
}

module _ (t : Ltp) where
  -- Lines that wait are marked at the start.
  pub mark_all-Waits :
      (ls ks : List LineId) (q : QueuedSet)
      → ((i : ℕ) → waiting ks i ≤ waiting ls i)
      → Waits ls q
      → Waits ls (mark_all t ks q)
  unfolding mark_all
  mark_all-Waits ls [] q h k = k
  mark_all-Waits ls (x ∷ ks) q h k =
      mark_all-Waits ls ks (mark_queued q (line_index x)) (λ i. omega (arith, h i))
        (record {
          small = mark_queued-Small q (line_index x) k.small;
          right =
              λ i marked. ground (arith, is_queued-mark q (line_index x) i, marked, k.right i, h i);
        })

  waiting_members :
      (is : List ℕ)
      → All (λ i. (basic_lines ≤ i) × (i < total_lines)) is
      → map line_index (map flat_index_to_line_id is) ≡ is
  waiting_members [] a = refl
  waiting_members (x ∷ is) a =
      λ i. (line_index-flat_index_to_line_id x a.0.1).1 i ∷ waiting_members is a.1 i

  -- The lines of a cell are pushed by their numbers.
  pub waiting-lines_for_cell :
      IsLtp t
      → (r c i : ℕ) → r < s
      → c < s
      → waiting (lines_for_cell t r c) i ≡ count i (line_indices t r c)
  unfolding lines_for_cell line_indices line_index
  waiting-lines_for_cell ok r c i hr hc =
      ap
        (λ (n : ℕ). count i (
          n
          ∷ (s + c)
          ∷ (2 * s + (c + 126 - r))
          ∷ (2 * s + num_diags + (r + c))
          ∷ map line_index (map flat_index_to_line_id (members (t.membership r c)))))
        {x = 0 + r} {y = r} (omega arith)
      ∙ ap
          (λ (is : List ℕ).
            count i (r ∷ (s + c) ∷ (2 * s + (c + 126 - r)) ∷ (2 * s + num_diags + (r + c)) ∷ is))
          (waiting_members (members (t.membership r c)) (ok.members_range r c hr hc))
