-- ===== src/Store/Words.antt =====
-- One bit written in an array of words, read back; and the bit that a cell has there.
use crsce.Prelude.{ℕ, ◌-◌, ◌/◌, ◌%◌, ◌^◌, ◌<◌, ◌≡◌, arith, ◌&&◌, ◌==◌, if◌then◌else◌}
use crsce.Bits.{
  get_bit, set_bit, clear_bit, get_bit-set_bit, get_bit-clear_bit, set_bit-lt, clear_bit_sum,
}
use crsce.Lines.{s}
use crsce.Store.{flat, set_word}

module _ (words : ℕ → ℕ → ℕ) (small : (r w : ℕ) → words r w < 2 ^ 64) (r w b : ℕ)
    (hb : b < 64) where
  pub get_bit-set_word :
      (r' w' i : ℕ)
      → get_bit (set_word words r w (set_bit (words r w) b) r' w') i
        ≡ (if (r == r') && (w == w') && (b == i) then 1 else get_bit (words r' w') i)
  get_bit-set_word r' w' i = ground (arith, get_bit-set_bit (words r w) b i)

  pub get_bit-clear_word :
      (r' w' i : ℕ)
      → get_bit (set_word words r w (clear_bit 64 (words r w) b) r' w') i
        ≡ (if (r == r') && (w == w') && (b == i) then 0 else get_bit (words r' w') i)
  get_bit-clear_word r' w' i =
      ground (arith, small r w, get_bit-clear_bit 64 (words r w) b i hb (small r w))

  pub set_word-lt : (r' w' : ℕ) → set_word words r w (set_bit (words r w) b) r' w' < 2 ^ 64
  set_word-lt r' w' = ground (arith, small r' w', set_bit-lt 64 (words r w) b hb (small r w))

  pub clear_word-lt : (r' w' : ℕ) → set_word words r w (clear_bit 64 (words r w) b) r' w' < 2 ^ 64
  clear_word-lt r' w' =
      ground (arith, small r' w', small r w, clear_bit_sum 64 (words r w) b hb (small r w))

-- Two cells of the columns below kS share a row, a word and a bit only if they share the flat index.
pub same_bit :
    (r c r' c' : ℕ)
    → c < s
    → c' < s
    → ((r == r') && (c / 64 == c' / 64) && (63 - c % 64 == 63 - c' % 64)) ≡ (flat r c == flat r' c')
same_bit r c r' c' h h' = ground arith

pub same_assigned_bit :
    (r c r' c' : ℕ)
    → c < s
    → c' < s
    → ((r == r') && (c / 64 == c' / 64) && (c % 64 == c' % 64)) ≡ (flat r c == flat r' c')
same_assigned_bit r c r' c' h h' = ground arith
