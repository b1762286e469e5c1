-- ===== src/Csm/Access.antt =====
-- Writing a cell changes that cell and no other.
use crsce.Prelude.{ℕ, ◌-◌, ◌/◌, ◌%◌, ◌^◌, ◌<◌, ◌≡◌, arith, ◌&&◌, ◌==◌, if◌then◌else◌}
use crsce.Lines.{s}
use crsce.Store.Words.{get_bit-set_word, get_bit-clear_word, set_word-lt, clear_word-lt, same_bit}
use crsce.Csm.{Csm, cell, set_cell}

-- Every word has 64 bits.
pub record IsCsm (m : Csm) : Type 0 where
  pub words : (r w : ℕ) → m.rows r w < 2 ^ 64

pub set_cell-IsCsm : (m : Csm) (r c v : ℕ) → IsCsm m → IsCsm (set_cell m r c v)
unfolding set_cell
set_cell-IsCsm m r c v k = record {
  words = λ r' w. ground (
    arith,
    k.words r' w,
    set_word-lt m.rows k.words r (c / 64) (63 - c % 64) (omega arith) r' w,
    clear_word-lt m.rows k.words r (c / 64) (63 - c % 64) (omega arith) r' w,
  );
}

-- In a matrix of 64-bit words, writing a cell of a column below 127 changes that cell, and no other of
-- a column below 127.
pub cell-set_cell :
    (m : Csm) (r c v r' c' : ℕ)
    → IsCsm m
    → c < s
    → c' < s
    → cell (set_cell m r c v) r' c'
      ≡ (if (r == r') && (c == c') then (if v == 0 then 0 else 1) else cell m r' c')
unfolding cell set_cell
cell-set_cell m r c v r' c' k hc hc' = ground (
  arith,
  get_bit-set_word m.rows k.words r (c / 64) (63 - c % 64) (omega arith) r' (c' / 64)
      (63 - c' % 64),
  get_bit-clear_word m.rows k.words r (c / 64) (63 - c % 64) (omega arith) r' (c' / 64)
      (63 - c' % 64),
  same_bit r c r' c' hc hc',
)
