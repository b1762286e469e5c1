-- ===== src/Csm.antt =====
-- Csm (include/common/Csm/Csm.h and src/common/Csm/Csm_*.cpp), the matrix of 127 rows of two
-- 64-bit words, and Compressor::loadCsm. A call that throws out_of_range is `none`.
pub mod Access
pub mod Load
pub mod RoundTrip
use crsce.Prelude.{
  ℕ, zero, suc, ◌+◌, ◌-◌, ◌*◌, ◌/◌, ◌%◌, ◌^◌, Bool, true, false, ◌||◌, Option, none, some, ltb, leb,
  ◌==◌, if◌then◌else◌, ◌>>=◌,
}
use crsce.Bits.{get_bit, set_bit, clear_bit}
use crsce.Lines.{s}
use crsce.Store.{set_word}

pub record Csm : Type 0 where
  pub rows : ℕ → ℕ → ℕ

unfoldable pub new_csm : Csm
new_csm = record { rows = λ r w. 0 }

-- (rows_[r][word] >> bit) & 1
unfoldable pub cell : Csm → ℕ → ℕ → ℕ
cell m r c = get_bit (m.rows r (c / 64)) (63 - c % 64)

unfoldable pub get : Csm → ℕ → ℕ → Option ℕ
unfolding cell
get m r c = if leb s r || leb s c then none else some (cell m r c)

unfoldable pub set_cell : Csm → ℕ → ℕ → ℕ → Csm
set_cell m r c v =
    let word = c / 64 in
    let bit = 63 - c % 64 in
    record {
      rows =
          set_word m.rows r word
            (if v == 0 then clear_bit 64 (m.rows r word) bit else set_bit (m.rows r word) bit);
    }

unfoldable pub set : Csm → ℕ → ℕ → ℕ → Option Csm
unfolding set_cell
set m r c v = if leb s r || leb s c then none else some (set_cell m r c v)

-- loadCsm from bit i on, for n bits: bit i is the bit 7 - i % 8 of byte i / 8.
unfoldable pub load_loop : (ℕ → ℕ) → ℕ → ℕ → Csm → Option Csm
unfolding set
load_loop bytes i zero m = some m
load_loop bytes i (suc n) m = do
  m' ← set m (i / s) (i % s) (get_bit (bytes (i / 8)) (7 - i % 8))
  load_loop bytes (i + 1) n m'

unfoldable pub load_csm : (ℕ → ℕ) → ℕ → Option Csm
unfolding load_loop new_csm
load_csm bytes bit_count = load_loop bytes 0 bit_count new_csm

-- vec: the bits of the cells in row-major order, from cell (r, c) on; `bit_idx` counts them.
unfoldable pub put_bit : (ℕ → ℕ) → ℕ → ℕ → ℕ → ℕ
put_bit out bit_idx val i =
    if val == 0
    then out i
    else if bit_idx / 8 == i
    then set_bit (out i) (7 - bit_idx % 8)
    else out i

unfoldable pub vec_row : Csm → ℕ → ℕ → ℕ → (ℕ → ℕ) × ℕ → (ℕ → ℕ) × ℕ
unfolding put_bit cell
vec_row m r c zero at = at
vec_row m r c (suc n) at = vec_row m r (c + 1) n (put_bit at.0 at.1 (cell m r c), at.1 + 1)

unfoldable pub vec_rows : Csm → ℕ → ℕ → (ℕ → ℕ) × ℕ → (ℕ → ℕ) × ℕ
unfolding vec_row
vec_rows m r zero at = at
vec_rows m r (suc n) at = vec_rows m (r + 1) n (vec_row m r 0 s at)

unfoldable pub vec : Csm → ℕ → ℕ
unfolding vec_rows
vec m = (vec_rows m 0 s (λ i. 0, 0)).0
