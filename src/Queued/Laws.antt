-- ===== src/Queued/Laws.antt =====
-- The queued set as a set of numbers.
use crsce.Prelude.{ℕ, ◌/◌, ◌%◌, ◌^◌, ◌<◌, ◌≡◌, ap, arith, not, ◌&&◌, ◌||◌, ◌==◌}
use crsce.Bits.{get_bit, get_bit-set_bit, get_bit-clear_bit, set_bit-lt, clear_bit_sum}
use crsce.Queued.{QueuedSet, is_queued, mark_queued, clear_queued}

-- Words of 64 bits.
abbrev pub Small : QueuedSet → Type 0
Small q = (w : ℕ) → q.words w < 2 ^ 64

-- The bit of j after the bit of i in the same or another word.
split : (i j : ℕ) → (i == j) ≡ ((i / 64 == j / 64) && (i % 64 == j % 64))
split i j = ground arith

pub is_queued-mark :
    (q : QueuedSet) (i j : ℕ) → is_queued (mark_queued q i) j ≡ ((i == j) || is_queued q j)
unfolding mark_queued is_queued
is_queued-mark q i j = ground (
  arith,
  split i j,
  get_bit-set_bit (q.words (i / 64)) (i % 64) (j % 64),
  ap q.words {x = i / 64} {y = j / 64},
  ap (get_bit (q.words (i / 64))) {x = i % 64} {y = j % 64},
)

pub is_queued-clear :
    (q : QueuedSet) (i j : ℕ)
    → Small q
    → is_queued (clear_queued q i) j ≡ (not (i == j) && is_queued q j)
unfolding clear_queued is_queued
is_queued-clear q i j small = ground (
  arith,
  split i j,
  get_bit-clear_bit 64 (q.words (i / 64)) (i % 64) (j % 64) (omega arith) (small (i / 64)),
  ap q.words {x = i / 64} {y = j / 64},
)

pub mark_queued-Small : (q : QueuedSet) (i : ℕ) → Small q → Small (mark_queued q i)
unfolding mark_queued
mark_queued-Small q i small w =
    ground
      (arith, small w, set_bit-lt 64 (q.words (i / 64)) (i % 64) (omega arith) (small (i / 64)))

pub clear_queued-Small : (q : QueuedSet) (i : ℕ) → Small q → Small (clear_queued q i)
unfolding clear_queued
clear_queued-Small q i small w = ground (
  arith,
  small w,
  small (i / 64),
  clear_bit_sum 64 (q.words (i / 64)) (i % 64) (omega arith) (small (i / 64)),
)
