-- ===== src/LtpTable/Balanced.antt =====
-- An assignment passes the validation only if every line has its 127 cells.
use crsce.Prelude.{
  ℕ, zero, suc, ◌+◌, ◌%◌, ◌≤◌, ◌<◌, ◌≡◌, ◌↔◌, refl, ap, arith, true, Option, none, some, List, [],
  ◌∷◌, length, count, All, ◌==◌, update,
}
use crsce.LtpTable.{count_lines, all_full, is_balanced}

-- A balanced assignment.
pub record IsBalanced (ls : List ℕ) : Type 0 where
  pub size : length ls ≡ 16129
  pub full : (k : ℕ) → k < 127 → count k ls ≡ 127
  pub lines_lt : All (λ l. l < 127) ls

count_lines_lem :
    (ls : List ℕ) (cnt cnt' : ℕ → ℕ) (k : ℕ)
    → ((k : ℕ) → cnt k + length ls < 65536)
    → count_lines ls cnt ≡ some cnt'
    → (cnt' k ≡ cnt k + count k ls) × All (λ l. l < 127) ls
unfolding count_lines
count_lines_lem [] cnt cnt' k small h = (ground arith, tt)
count_lines_lem (l ∷ ls) cnt cnt' k small h = ground (
  arith,
  small l,
  small k,
  count_lines_lem ls (update cnt l ((cnt l + 1) % 65536)) cnt' k
      (λ k'. ground (arith, small l, small k')),
)

all_full_lem : (cnt : ℕ → ℕ) (k n i : ℕ) → all_full cnt k n ≡ true → k ≤ i → i < k + n → cnt i ≡ 127
unfolding all_full
all_full_lem cnt k zero i h lo hi = absurd (omega arith)
all_full_lem cnt k (suc n) i h lo hi = ground (arith, all_full_lem cnt (k + 1) n i)

pub is_balanced-IsBalanced : (ls : List ℕ) → is_balanced ls ≡ true → IsBalanced ls
unfolding is_balanced
is_balanced-IsBalanced ls h = by_counts (count_lines ls (λ k. 0)) refl
  where
    size : length ls ≡ 16129
    size = ground arith

    by_counts : (x : Option (ℕ → ℕ)) → count_lines ls (λ k. 0) ≡ x → IsBalanced ls
    by_counts none e = absurd (ground (arith, e))
    by_counts (some cnt) e = record {
      size = size;
      full = λ k hk. omega (
        arith,
        all_full_lem cnt 0 127 k (ground (arith, e)) (omega arith) (omega arith),
        (count_lines_lem ls (λ k. 0) cnt k (λ k. omega (arith, size)) e).0,
      );
      lines_lt = (count_lines_lem ls (λ k. 0) cnt 0 (λ k. omega (arith, size)) e).1;
    }

count_lines-some :
    (ls : List ℕ) (cnt : ℕ → ℕ)
    → ((k : ℕ) → cnt k + length ls < 65536)
    → All (λ l. l < 127) ls
    → (cnt' : ℕ → ℕ) × (count_lines ls cnt ≡ some cnt')
unfolding count_lines
count_lines-some [] cnt small lt = (cnt, refl)
count_lines-some (l ∷ ls) cnt small lt =
    let (cnt', e) =
      count_lines-some ls (update cnt l ((cnt l + 1) % 65536))
        (λ k. ground (arith, small l, small k)) lt.1 in
    (cnt', ground (arith, lt.0, e))

all_full-true :
    (cnt : ℕ → ℕ) (k n : ℕ) → ((i : ℕ) → k ≤ i → i < k + n → cnt i ≡ 127) → all_full cnt k n ≡ true
unfolding all_full
all_full-true cnt k zero h = refl
all_full-true cnt k (suc n) h = ground (
  arith,
  h k (omega arith) (omega arith),
  all_full-true cnt (k + 1) n (λ i lo hi. h i (omega arith) (omega arith)),
)

-- The validation of a supplied sub-table accepts exactly the lists of 16129 line numbers below 127
-- in which each of the 127 lines stands 127 times.
pub is_balanced_iff : (ls : List ℕ) → (is_balanced ls ≡ true) ↔ IsBalanced ls
unfolding is_balanced
is_balanced_iff ls = (is_balanced-IsBalanced ls, λ ok. by_counts ok)
  where
    by_counts : IsBalanced ls → is_balanced ls ≡ true
    by_counts ok =
        let small : (k : ℕ) → 0 + length ls < 65536 = λ k. omega (arith, ok.size) in
        let (cnt, e) = count_lines-some ls (λ k. 0) small ok.lines_lt in
        let full =
          all_full-true cnt 0 127 (λ i lo hi.
            omega (arith, (count_lines_lem ls (λ k. 0) cnt i small e).0, ok.full i hi)) in
        rw (ap (λ n. n == 16129) ok.size, e, is_balanced) (ground (arith, full))
