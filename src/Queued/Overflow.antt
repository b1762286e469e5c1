-- ===== src/Queued/Overflow.antt =====
-- How dirtyCount_ of PropagationEngine.h grows while one line is queued and taken off again.
use crsce.Prelude.{ℕ, zero, suc, ◌+◌, ◌/◌, ◌%◌, ◌^◌, ◌<◌, ◌≡◌, refl, ap, ◌∙◌, arith, false}
use crsce.Bits.{get_bit, set_bit, clear_bit, bit_and-one, clear_bit-set_bit}
use crsce.Queued.{QueuedSet, is_queued, mark_queued, clear_queued}

-- markQueued and then clearQueued, n times.
abbrev pub rounds : ℕ → ℕ → QueuedSet → QueuedSet
rounds zero idx q = q
rounds (suc n) idx q = rounds n idx (clear_queued (mark_queued q idx) idx)

get_bit-empty : (b : ℕ) → get_bit 0 b ≡ 0
unfolding get_bit
get_bit-empty b = omega (arith, bit_and-one (0 / 2 ^ b))

not_marked : (q : QueuedSet) (idx : ℕ) → q.words (idx / 64) ≡ 0 → is_queued q idx ≡ false
unfolding is_queued
not_marked q idx h =
    ground (arith, ap (λ (w : ℕ). get_bit w (idx % 64)) h, get_bit-empty (idx % 64))

one_round :
    (q : QueuedSet) (idx : ℕ)
    → q.words (idx / 64) ≡ 0
    → ((w : ℕ) → (clear_queued (mark_queued q idx) idx).words w ≡ q.words w)
      × ((clear_queued (mark_queued q idx) idx).dirty_count ≡ (q.dirty_count + 1) % 256)
unfolding mark_queued clear_queued
one_round q idx h = (
  λ w. ground (
    arith,
    not_marked q idx h,
    h,
    ap q.words {x = idx / 64} {y = w},
    ap (λ (x : ℕ). clear_bit 64 (set_bit x (idx % 64)) (idx % 64)) h,
    clear_bit-set_bit 64 0 (idx % 64) (omega arith) (omega arith) (get_bit-empty (idx % 64)),
  ),
  ground (arith, not_marked q idx h, h),
)

-- If no line of a line's word is marked, then n rounds of marking and clearing the line leave every
-- word as it was and raise the count of dirty words by n, as long as it stays below 256.
pub dirty_count-rounds :
    (n idx : ℕ) (q : QueuedSet)
    → q.words (idx / 64) ≡ 0
    → q.dirty_count + n < 256
    → ((rounds n idx q).dirty_count ≡ q.dirty_count + n)
      × ((w : ℕ) → (rounds n idx q).words w ≡ q.words w)
dirty_count-rounds zero idx q h small = (omega arith, λ w. refl)
dirty_count-rounds (suc n) idx q h small =
    let head = one_round q idx h in
    let rest =
      dirty_count-rounds n idx (clear_queued (mark_queued q idx) idx) (head.0 (idx / 64) ∙ h)
        (omega (arith, head.1, small)) in
    (omega (arith, rest.0, head.1, small), λ w. rest.1 w ∙ head.0 w)
