-- ===== src/Payload/Access.antt =====
-- The setters and getters of the sum vectors: CompressedPayload_set*.cpp and _get*.cpp.
use crsce.Prelude.{ℕ, ◌≡◌, arith, Option, none, some, ltb, ◌==◌, if◌then◌else◌, ◌>>=◌}
use crsce.Lines.{s, num_diags}
use crsce.Payload.{Payload, get_sum, set_sum}

unfoldable pub get_lsm : Payload → ℕ → Option ℕ
unfolding get_sum
get_lsm p k = get_sum s p.lsm k

unfoldable pub set_lsm : Payload → ℕ → ℕ → Option Payload
unfolding set_sum
set_lsm p k value = do sums ← set_sum s p.lsm k value; some (record p { lsm = sums })

unfoldable pub get_vsm : Payload → ℕ → Option ℕ
unfolding get_sum
get_vsm p k = get_sum s p.vsm k

unfoldable pub set_vsm : Payload → ℕ → ℕ → Option Payload
unfolding set_sum
set_vsm p k value = do sums ← set_sum s p.vsm k value; some (record p { vsm = sums })

unfoldable pub get_dsm : Payload → ℕ → Option ℕ
unfolding get_sum
get_dsm p k = get_sum num_diags p.dsm k

unfoldable pub set_dsm : Payload → ℕ → ℕ → Option Payload
unfolding set_sum
set_dsm p k value = do sums ← set_sum num_diags p.dsm k value; some (record p { dsm = sums })

unfoldable pub get_xsm : Payload → ℕ → Option ℕ
unfolding get_sum
get_xsm p k = get_sum num_diags p.xsm k

unfoldable pub set_xsm : Payload → ℕ → ℕ → Option Payload
unfolding set_sum
set_xsm p k value = do sums ← set_sum num_diags p.xsm k value; some (record p { xsm = sums })

unfoldable pub get_ltp1sm : Payload → ℕ → Option ℕ
unfolding get_sum
get_ltp1sm p k = get_sum s p.ltp1sm k

unfoldable pub set_ltp1sm : Payload → ℕ → ℕ → Option Payload
unfolding set_sum
set_ltp1sm p k value = do sums ← set_sum s p.ltp1sm k value; some (record p { ltp1sm = sums })

unfoldable pub get_ltp2sm : Payload → ℕ → Option ℕ
unfolding get_sum
get_ltp2sm p k = get_sum s p.ltp2sm k

unfoldable pub set_ltp2sm : Payload → ℕ → ℕ → Option Payload
unfolding set_sum
set_ltp2sm p k value = do sums ← set_sum s p.ltp2sm k value; some (record p { ltp2sm = sums })

-- Entry j read after entry k was written.
abbrev pub Reads :
    ℕ → (Payload → ℕ → ℕ → Option Payload) → (Payload → ℕ → Option ℕ) → Payload → ℕ → ℕ → ℕ → Type 0
Reads size setter getter p k value j =
    (setter p k value >>= λ p'. getter p' j)
    ≡ (if ltb k size then (if k == j then some value else getter p j) else none)

-- On each of the six vectors: after a write in range, the entry that was written reads the value and
-- every other reads as before; a write out of range throws.
pub get-set :
    (p : Payload) (k value j : ℕ)
    → Reads s set_lsm get_lsm p k value j
      × Reads s set_vsm get_vsm p k value j
      × Reads num_diags set_dsm get_dsm p k value j
      × Reads num_diags set_xsm get_xsm p k value j
      × Reads s set_ltp1sm get_ltp1sm p k value j
      × Reads s set_ltp2sm get_ltp2sm p k value j
unfolding set_lsm get_lsm set_vsm get_vsm set_dsm get_dsm set_xsm get_xsm set_ltp1sm get_ltp1sm
    set_ltp2sm get_ltp2sm set_sum get_sum
get-set p k value j =
    (ground arith, ground arith, ground arith, ground arith, ground arith, ground arith)
