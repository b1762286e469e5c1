-- ===== src/Queued.antt =====
-- The set of queued lines of PropagationEngine.h: a bitset over the flat line numbers, and the list
-- of the words that are not zero, by which it is emptied. `dirtyWords_` has room for 16 words;
-- here it is an array without a bound, so that a write past its end is seen in `dirty_count`.
pub mod Laws
pub mod Overflow
use crsce.Prelude.{ℕ, zero, suc, ◌+◌, ◌/◌, ◌%◌, Bool, not, ◌==◌, if◌then◌else◌, update}
use crsce.Bits.{get_bit, set_bit, clear_bit}

pub record QueuedSet : Type 0 where
  pub words : ℕ → ℕ
  pub dirty_words : ℕ → ℕ
  pub dirty_count : ℕ

unfoldable pub no_queued : QueuedSet
no_queued = record { words = λ w. 0; dirty_words = λ i. 0; dirty_count = 0 }

unfoldable pub is_queued : QueuedSet → ℕ → Bool
is_queued q idx = not (get_bit (q.words (idx / 64)) (idx % 64) == 0)

-- A word that was zero is put on the list first; the count is a uint8.
unfoldable pub mark_queued : QueuedSet → ℕ → QueuedSet
unfolding is_queued
mark_queued q idx =
    let word = idx / 64 in
    let marked = update q.words word (set_bit (q.words word) (idx % 64)) in
    if not (is_queued q idx)
    then (if q.words word == 0
        then record {
          words = marked;
          dirty_words = update q.dirty_words q.dirty_count word;
          dirty_count = (q.dirty_count + 1) % 256;
        }
        else record q { words = marked })
    else q

unfoldable pub clear_queued : QueuedSet → ℕ → QueuedSet
clear_queued q idx =
    let word = idx / 64 in
    record q { words = update q.words word (clear_bit 64 (q.words word) (idx % 64)) }

-- for (i = 0; i < dirtyCount_; ++i) queued_[dirtyWords_[i]] = 0
unfoldable pub clear_dirty : ℕ → (ℕ → ℕ) → (ℕ → ℕ) → ℕ → ℕ
clear_dirty zero dirty words = words
clear_dirty (suc n) dirty words = update (clear_dirty n dirty words) (dirty n) 0

unfoldable pub reset_queued : QueuedSet → QueuedSet
unfolding clear_dirty
reset_queued q = record q {
  words = clear_dirty q.dirty_count q.dirty_words q.words;
  dirty_count = 0;
}
