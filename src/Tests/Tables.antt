-- ===== src/Tests/Tables.antt =====
-- The theorems on the lookup table, applied to the default seeds, a file, and an assignment by rows.
use crsce.Prelude.{
  ℕ, zero, suc, ◌+◌, ◌*◌, ◌≤◌, ◌<◌, ◌≡◌, ◌≢◌, ◌↔◌, refl, ap, arith, true, Option, none, some, List,
  [], ◌∷◌, ◌++◌, length, replicate, count, All, ltb, leb, ◌==◌, ◌&&◌, if◌then◌else◌, length-append,
  to_bit,
}
use crsce.Header.{load_le}
use crsce.Lines.{IsLtp, s, basic_lines, count_cell}
use crsce.LtpTable.{
  seed1, seed2, build_all_partitions, get_ltp_data, table_of, is_balanced, build_from_assignment,
  shuffle, lcg, fill_assigned, empty_data, build_csr_offsets,
}
use crsce.LtpTable.Balanced.{IsBalanced, is_balanced_iff}
use crsce.LtpTable.Build.{build_all_partitions-IsLtp}
use crsce.LtpTable.File.{get_ltp_data-IsLtp}
use crsce.LtpTable.Single.{build_from_assignment-single}

shuffle_of_four :
    (shuffle 3 seed1 (λ v. v) 0
      ∷ shuffle 3 seed1 (λ v. v) 1
      ∷ shuffle 3 seed1 (λ v. v) 2
      ∷ shuffle 3 seed1 (λ v. v) 3
      ∷ [])
    ≡ (0 ∷ 2 ∷ 3 ∷ 1 ∷ [])
unfolding shuffle lcg
shuffle_of_four = refl

build_all_partitions-IsLtp_example :
    IsLtp (table_of (build_all_partitions seed1 seed2))
    × (line : ℕ → ℕ → ℕ) × ((r c sub k : ℕ)
        → r < s
        → c < s
        → sub < 2
        → k < s
        → (line sub (r * s + c) < s)
          × (count_cell (r, c) ((table_of (build_all_partitions seed1 seed2)).cells sub k)
              ≡ to_bit (line sub (r * s + c) == k)))
build_all_partitions-IsLtp_example = build_all_partitions-IsLtp seed1 seed2

-- A file that is too short, of bytes 2.
abbrev short_file : Option (ℕ × (ℕ → ℕ))
short_file = some (10, λ i. 2)

-- It does not claim a single sub-table.
bytes_lt : (size : ℕ) (bytes : ℕ → ℕ) → short_file ≡ some (size, bytes) → load_le bytes 12 4 ≢ 1
unfolding load_le
bytes_lt size bytes e one =
    let same : (λ (i : ℕ). 2) ≡ bytes = cc in
    absurd (ground (arith, one, ap (λ f. f 12) same, ap (λ f. f (12 + 1)) same))

get_ltp_data-IsLtp_example :
    IsLtp (table_of (get_ltp_data length short_file none (some (5 ∷ 7 ∷ []))))
unfolding load_le
get_ltp_data-IsLtp_example =
    get_ltp_data-IsLtp length short_file none (some (5 ∷ 7 ∷ []))
      (λ size bytes e one. bytes_lt size bytes e one)

-- n lines from k on, each 127 times.
blocks : ℕ → ℕ → List ℕ
blocks k zero = []
blocks k (suc n) = replicate 127 k ++ blocks (k + 1) n

length-blocks : (k n : ℕ) → length (blocks k n) ≡ n * 127
unfolding blocks
length-blocks k zero = omega arith
length-blocks k (suc n) =
    omega (arith, length-append (replicate 127 k) (blocks (k + 1) n), length-blocks (k + 1) n)

count-append : (i : ℕ) (xs ys : List ℕ) → count i (xs ++ ys) ≡ count i xs + count i ys
count-append i [] ys = omega arith
count-append i (x ∷ xs) ys = omega (arith, count-append i xs ys)

count-replicate : (i n k : ℕ) → count i (replicate n k) ≡ (if k == i then n else 0)
count-replicate i zero k = ground arith
count-replicate i (suc n) k = ground (arith, count-replicate i n k)

count-blocks : (i k n : ℕ) → count i (blocks k n) ≡ (if leb k i && ltb i (k + n) then 127 else 0)
unfolding blocks
count-blocks i k zero = ground arith
count-blocks i k (suc n) = ground (
  arith,
  count-append i (replicate 127 k) (blocks (k + 1) n),
  count-replicate i 127 k,
  count-blocks i (k + 1) n,
)

All-append :
    (xs ys : List ℕ) → All (λ l. l < 127) xs → All (λ l. l < 127) ys → All (λ l. l < 127) (xs ++ ys)
All-append [] ys a b = b
All-append (x ∷ xs) ys a b = (a.0, All-append xs ys a.1 b)

All-replicate : (n k : ℕ) → k < 127 → All (λ l. l < 127) (replicate n k)
All-replicate zero k h = tt
All-replicate (suc n) k h = (h, All-replicate n k h)

All-blocks : (k n : ℕ) → k + n ≤ 127 → All (λ l. l < 127) (blocks k n)
unfolding blocks
All-blocks k zero h = tt
All-blocks k (suc n) h =
    All-append (replicate 127 k) (blocks (k + 1) n) (All-replicate 127 k (omega arith))
      (All-blocks (k + 1) n (omega arith))

blocks-IsBalanced : IsBalanced (blocks 0 127)
blocks-IsBalanced = record {
  size = length-blocks 0 127;
  full = λ k h. ground (arith, count-blocks k 0 127);
  lines_lt = All-blocks 0 127 (omega arith);
}

build_from_assignment-single_example : ¬ IsLtp (
    table_of (
      fill_assigned 0 basic_lines 0
        (blocks 0 127)
        build_csr_offsets
        (empty_data build_csr_offsets)))
build_from_assignment-single_example =
    build_from_assignment-single (blocks 0 127) []
      (fill_assigned 0 basic_lines 0 (blocks 0 127) build_csr_offsets
        (empty_data build_csr_offsets))
      (unfold build_from_assignment in
        ground (arith, (is_balanced_iff (blocks 0 127)).1 blocks-IsBalanced))

is_balanced_iff_example : (is_balanced (blocks 0 127) ≡ true) ↔ IsBalanced (blocks 0 127)
is_balanced_iff_example = is_balanced_iff (blocks 0 127)
