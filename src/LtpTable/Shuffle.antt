-- ===== src/LtpTable/Shuffle.antt =====
-- The shuffle permutes the cells: its pool has an inverse, whatever the seed.
use crsce.Prelude.{ℕ, zero, suc, ◌+◌, ◌%◌, ◌<◌, ◌≡◌, refl, ap, ◌∙◌, arith, ◌==◌, if◌then◌else◌}
use crsce.LtpTable.{lcg, swap, shuffle}

-- A pool that holds every number once, those below n at indices below n.
pub record IsShuffled (n : ℕ) (pool : ℕ → ℕ) : Type 0 where
  pub index : ℕ → ℕ
  pub index_pool : (x : ℕ) → index (pool x) ≡ x
  pub pool_index : (x : ℕ) → pool (index x) ≡ x
  pub pool_lt : (x : ℕ) → x < n → pool x < n
  pub index_lt : (x : ℕ) → x < n → index x < n

pub id-IsShuffled : (n : ℕ) → IsShuffled n (λ v. v)
id-IsShuffled n = record {
  index = λ v. v;
  index_pool = λ x. refl;
  pool_index = λ x. refl;
  pool_lt = λ x h. h;
  index_lt = λ x h. h;
}

abbrev exchange : ℕ → ℕ → ℕ → ℕ
exchange i j x = if j == x then i else if i == x then j else x

exchange_twice : (i j x : ℕ) → exchange i j (exchange i j x) ≡ x
exchange_twice i j x = ground arith

swap-exchange : (pool : ℕ → ℕ) (i j x : ℕ) → swap pool i j x ≡ pool (exchange i j x)
swap-exchange pool i j x = ground arith

swap-IsShuffled :
    (n i j : ℕ) (pool : ℕ → ℕ) → i < n → j < n → IsShuffled n pool → IsShuffled n (swap pool i j)
swap-IsShuffled n i j pool hi hj ok = record {
  index = λ x. exchange i j (ok.index x);
  index_pool = λ x.
      ap (λ y. exchange i j (ok.index y)) (swap-exchange pool i j x)
      ∙ ap (exchange i j) (ok.index_pool (exchange i j x))
      ∙ exchange_twice i j x;
  pool_index = λ x.
      swap-exchange pool i j (exchange i j (ok.index x))
      ∙ ap pool (exchange_twice i j (ok.index x))
      ∙ ok.pool_index x;
  pool_lt = λ x h. ground (arith, ok.pool_lt i hi, ok.pool_lt j hj, ok.pool_lt x h);
  index_lt = λ x h. ground (arith, ok.index_lt x h);
}

pub shuffle-IsShuffled :
    (n i state : ℕ) (pool : ℕ → ℕ) → i < n → IsShuffled n pool → IsShuffled n (shuffle i state pool)
unfolding shuffle
shuffle-IsShuffled n zero state pool h ok = ok
shuffle-IsShuffled n (suc i) state pool h ok =
    let j = lcg state % (suc i + 1) in
    shuffle-IsShuffled n i (lcg state) (swap pool (suc i) j) (omega arith)
      (swap-IsShuffled n (suc i) j pool h (grind arith) ok)
