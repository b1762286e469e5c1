-- ===== src/Csm/RoundTrip.antt =====
-- Loading the bits of a block into the matrix and writing them out again.
use crsce.Prelude.{
  ℕ, zero, suc, ◌+◌, ◌-◌, ◌*◌, ◌/◌, ◌%◌, ◌≤◌, ◌<◌, ◌≡◌, refl, ap, ◌∙◌, arith, ◌&&◌, some, ltb, leb,
  ◌==◌, if◌then◌else◌,
}
use crsce.Bits.{get_bit, get_bit-le, get_bit-zero_word}
use crsce.Lines.{s}
use crsce.Csm.{Csm, new_csm, cell, set_cell, set, load_loop, load_csm, vec}
use crsce.Csm.Access.{IsCsm, set_cell-IsCsm, cell-set_cell}
use crsce.Csm.Load.{bit_at-vec}
use crsce.Payload.{bit_at}

new_csm-IsCsm : IsCsm new_csm
unfolding new_csm
new_csm-IsCsm = record { words = λ r w. omega arith }

cell-new_csm : (r c : ℕ) → cell new_csm r c ≡ 0
unfolding cell new_csm
cell-new_csm r c = get_bit-zero_word (63 - c % 64)

set_in_range :
    (m : Csm) (i v : ℕ) → i < 16129 → set m (i / s) (i % s) v ≡ some (set_cell m (i / s) (i % s) v)
unfolding set
set_in_range m i v h = ground arith

bit_value : (v : ℕ) → v ≤ 1 → (if v == 0 then 0 else 1) ≡ v
bit_value v h = ground arith

same_place : (i r c : ℕ) → c < s → ((i / s == r) && (i % s == c)) ≡ (i == 127 * r + c)
same_place i r c h = ground arith

merge :
    (i x n a b : ℕ)
    → (if leb (i + 1) x && ltb x (i + 1 + n) then a else (if i == x then a else b))
      ≡ (if leb i x && ltb x (i + suc n) then a else b)
merge i x n a b = ground arith

one_step :
    (bytes : ℕ → ℕ) (m : Csm) (i r c : ℕ)
    → IsCsm m
    → c < s
    → cell (set_cell m (i / s) (i % s) (get_bit (bytes (i / 8)) (7 - i % 8))) r c
      ≡ (if i == 127 * r + c then bit_at bytes (127 * r + c) else cell m r c)
unfolding bit_at
one_step bytes m i r c k hc =
    let v = get_bit (bytes (i / 8)) (7 - i % 8) in
    cell-set_cell m (i / s) (i % s) v r c k (omega arith) hc
    ∙ rw (same_place i r c hc)
        (rw (bit_value v (get_bit-le (bytes (i / 8)) (7 - i % 8))) (ground arith))

-- The matrix after the bits i, …, i + n - 1 are loaded, and what its cells are.
load_loop_lem :
    (bytes : ℕ → ℕ) (n i : ℕ) (m : Csm)
    → i + n ≤ 16129
    → IsCsm m
    → (m' : Csm) × (load_loop bytes i n m ≡ some m')
      × ((r c : ℕ)
          → c < s
          → cell m' r c ≡ (
              if leb i (127 * r + c) && ltb (127 * r + c) (i + n)
              then bit_at bytes (127 * r + c)
              else cell m r c))
unfolding load_loop
load_loop_lem bytes zero i m h k = (m, refl, λ r c hc. ground arith)
load_loop_lem bytes (suc n) i m h k =
    let v = get_bit (bytes (i / 8)) (7 - i % 8) in
    let m1 = set_cell m (i / s) (i % s) v in
    let (m', run, cells) =
      load_loop_lem bytes n (i + 1) m1 (omega arith) (set_cell-IsCsm m (i / s) (i % s) v k) in
    (
      m',
      rw (set_in_range m i v (omega arith)) run,
      λ r c hc.
          cells r c hc
          ∙ ap
              (λ (b : ℕ).
                if leb (i + 1) (127 * r + c) && ltb (127 * r + c) (i + 1 + n)
                then bit_at bytes (127 * r + c)
                else b)
              (one_step bytes m i r c k hc)
          ∙ merge i (127 * r + c) n (bit_at bytes (127 * r + c)) (cell m r c),
    )

within_block :
    (i n x b : ℕ)
    → n ≤ 16129
    → x ≡ (if leb 0 i && ltb i (0 + n) then b else 0)
    → (if ltb i 16129 then x else 0) ≡ (if ltb i n then b else 0)
within_block i n x b h e = ground arith

-- At most 16129 bits are loaded without an exception, and written out again in their order, with
-- clear bits after them.
pub vec-load_csm :
    (bytes : ℕ → ℕ) (n : ℕ)
    → n ≤ 16129
    → (m : Csm) × (load_csm bytes n ≡ some m)
      × ((i : ℕ) → bit_at (vec m) i ≡ (if ltb i n then bit_at bytes i else 0))
unfolding load_csm
vec-load_csm bytes n h =
    let (m, run, cells) = load_loop_lem bytes n 0 new_csm (omega arith) new_csm-IsCsm in
    (
      m,
      run,
      λ i.
          bit_at-vec m i
          ∙ within_block i n (cell m (i / 127) (i % 127)) (bit_at bytes i) h (
              cells (i / 127) (i % 127) (omega arith)
              ∙ ap
                  (λ (j : ℕ).
                    if leb 0 j && ltb j (0 + n)
                    then bit_at bytes j
                    else cell new_csm (i / 127) (i % 127))
                  {x = 127 * (i / 127) + i % 127} {y = i} (omega arith)
              ∙ ap (λ (b : ℕ). if leb 0 i && ltb i (0 + n) then bit_at bytes i else b)
                  (cell-new_csm (i / 127) (i % 127))),
    )
