-- ===== src/LtpTable.antt =====
-- The builder of the lookup table (src/Decompress/Solvers/LtpTable.cpp): a shuffle of the cells for
-- each of the two sub-tables, cut into lines of 127 cells, or a table read from a file. A vector is
-- a function from its index; the code reads and writes none of them out of bounds. `strtoull` of
-- the C library is a parameter.
pub mod Shuffle
pub mod Fill
pub mod Tabled
pub mod Build
pub mod Balanced
pub mod Assigned
pub mod Loaded
pub mod Single
pub mod File
use crsce.Prelude.{
  ℕ, zero, suc, ◌+◌, ◌*◌, ◌/◌, ◌%◌, ◌^◌, Option, none, some, List, [], ◌∷◌, map, range, update, ltb,
  leb, ◌==◌, if◌then◌else◌, Bool, true, false, not, ◌&&◌, ◌||◌, length,
}
use crsce.Header.{load_le}
use crsce.Lines.{Ltp, LtpMembership, Cell, s, basic_lines, ltp2_base}

-- kN
abbrev pub num_cells : ℕ
num_cells = 16129

abbrev pub seed1 : ℕ
seed1 = 0x435253434C545056

abbrev pub seed2 : ℕ
seed2 = 0x435253434C545050

abbrev pub lcg_a : ℕ
lcg_a = 6364136223846793005

abbrev pub lcg_c : ℕ
lcg_c = 1442695040888963407

-- ltpLineLen
abbrev pub ltp_line_len : ℕ → ℕ
ltp_line_len k = s

pub record LtpData : Type 0 where
  pub fwd : ℕ → LtpMembership
  pub csr_offsets : ℕ → ℕ → ℕ
  pub csr_cells : ℕ → ℕ → Cell

-- Vectors and arrays of value-initialised entries.
unfoldable pub empty_data : (ℕ → ℕ) → LtpData
empty_data offsets = record {
  fwd = λ f. record { count = 0; flat = λ j. 0 };
  csr_offsets = λ sub. if ltb sub 2 then offsets else λ k. 0;
  csr_cells = λ sub i. (0, 0);
}

-- The environment variable's value: absent, empty, or a text for strtoull.
unfoldable pub parse_opt_env_seed : (List ℕ → ℕ) → Option (List ℕ) → ℕ → ℕ
parse_opt_env_seed strtoull none default = default
parse_opt_env_seed strtoull (some []) default = default
parse_opt_env_seed strtoull (some (b ∷ bs)) default = strtoull (b ∷ bs)

-- offsets[k + 1] = offsets[k] + ltpLineLen(k), for n values from k on
unfoldable pub fill_offsets : ℕ → ℕ → (ℕ → ℕ) → ℕ → ℕ
fill_offsets k zero offsets = offsets
fill_offsets k (suc n) offsets =
    fill_offsets (k + 1) n (update offsets (k + 1) (offsets k + ltp_line_len k))

unfoldable pub build_csr_offsets : ℕ → ℕ
build_csr_offsets = fill_offsets 0 127 (λ k. 0)

-- state * kLcgA + kLcgC, a uint64
unfoldable pub lcg : ℕ → ℕ
lcg state = (state * lcg_a + lcg_c) % 2 ^ 64

abbrev pub swap : (ℕ → ℕ) → ℕ → ℕ → ℕ → ℕ
swap pool i j = update (update pool i (pool j)) j (pool i)

-- The loop of the shuffle from index i down to 1.
unfoldable pub shuffle : ℕ → ℕ → (ℕ → ℕ) → ℕ → ℕ
unfolding lcg
shuffle zero state pool = pool
shuffle (suc i) state pool =
    let state' = lcg state in shuffle i state' (swap pool (suc i) (state' % (suc i + 1)))

-- One more line for a cell: sub-table `sub` has flat line number `line` (a uint16).
abbrev pub joined : LtpMembership → ℕ → ℕ → LtpMembership
joined m sub line = record { count = (m.count + 1) % 256; flat = update m.flat sub (line % 65536) }

-- The reverse entry in `slot`, and the forward entry of the cell.
unfoldable pub write_entry : (sub line slot flat : ℕ) → LtpData → LtpData
write_entry sub line slot flat d = record d {
  fwd = update d.fwd flat (joined (d.fwd flat) sub line);
  csr_cells = update d.csr_cells sub (update (d.csr_cells sub) slot (flat / s, flat % s));
}

-- The n entries of a line from j on.
unfoldable pub fill_line : (sub line offset pos : ℕ) → (ℕ → ℕ) → ℕ → ℕ → LtpData → LtpData
unfolding write_entry
fill_line sub line offset pos pool j zero d = d
fill_line sub line offset pos pool j (suc n) d =
    fill_line sub line offset pos pool (j + 1) n
      (write_entry sub line (offset + j) (pool (pos + j)) d)

-- The n lines from index k on; `pos` is the first of the pool's cells that is left.
unfoldable pub fill_lines : (sub base : ℕ) → (ℕ → ℕ) → (k pos n : ℕ) → LtpData → LtpData
unfolding fill_line
fill_lines sub base pool k pos zero d = d
fill_lines sub base pool k pos (suc n) d =
    fill_lines sub base pool (k + 1) (pos + ltp_line_len k) n
      (fill_line sub (base + k) (d.csr_offsets sub k) pos pool 0 (ltp_line_len k) d)

-- The second pass shuffles what the first one left in the pool.
unfoldable pub build_all_partitions : (seed_1 seed_2 : ℕ) → LtpData
build_all_partitions seed_1 seed_2 =
    let pool1 = shuffle 16128 seed_1 (λ v. v) in
    let pool2 = shuffle 16128 seed_2 pool1 in
    fill_lines 1 ltp2_base pool2 0 0 127
      (fill_lines 0 basic_lines pool1 0 0 127 (empty_data build_csr_offsets))

-- ltpMembership and ltp1CellsForLine, ltp2CellsForLine, …: the functions of LtpTable.h.
unfoldable pub table_of : LtpData → Ltp
table_of d = record {
  membership = λ r c. d.fwd (r * s + c);
  cells = λ sub k. map (λ i. d.csr_cells sub i) (range (d.csr_offsets sub k) (ltp_line_len k));
}

-- The counts of a validated assignment (uint16); `none` if a line number is out of range.
unfoldable pub count_lines : List ℕ → (ℕ → ℕ) → Option (ℕ → ℕ)
count_lines [] cnt = some cnt
count_lines (l ∷ ls) cnt =
    let rest = count_lines ls (update cnt l ((cnt l + 1) % 65536)) in if leb s l then none else rest

-- cnt[k] == kLtpS for n lines from k on.
unfoldable pub all_full : (ℕ → ℕ) → ℕ → ℕ → Bool
all_full cnt k zero = true
all_full cnt k (suc n) = (cnt k == s) && all_full cnt (k + 1) n

unfoldable pub is_balanced : List ℕ → Bool
unfolding count_lines
is_balanced ls =
    (length ls == num_cells)
    && elim (count_lines ls (λ k. 0)) [ none ↦ false | some cnt ↦ all_full cnt 0 127 ]

-- The cells from `flat` on, in order, each to the next free entry of its line.
unfoldable pub fill_assigned : (sub base flat : ℕ) → List ℕ → (ℕ → ℕ) → LtpData → LtpData
unfolding write_entry
fill_assigned sub base flat [] write_pos d = d
fill_assigned sub base flat (l ∷ ls) write_pos d =
    fill_assigned sub base (flat + 1) ls (update write_pos l (write_pos l + 1))
      (write_entry sub (base + l) (write_pos l) flat d)

-- One or two sub-tables are supplied.
unfoldable pub build_from_assignment : (num_sub : ℕ) → (assign1 assign2 : List ℕ) → Option LtpData
build_from_assignment num_sub assign1 assign2 =
    if ltb num_sub 1 || ltb 2 num_sub
    then none
    else if not (is_balanced assign1)
    then none
    else if (num_sub == 2) && not (is_balanced assign2)
    then none
    else let offsets = build_csr_offsets in
      let d = fill_assigned 0 basic_lines 0 assign1 offsets (empty_data offsets) in
      some (if num_sub == 2 then fill_assigned 1 ltp2_base 0 assign2 offsets d else d)

-- "LTPB" as a little-endian number.
abbrev pub file_magic : ℕ
file_magic = 0x4250544C

-- The uint16 entries of a sub-table in the file.
unfoldable pub file_assignment : (ℕ → ℕ) → ℕ → List ℕ
file_assignment bytes sub =
    map (λ i. load_le bytes (16 + (sub * num_cells + i) * 2) 2) (range 0 num_cells)

-- A file of `size` bytes that can be read to its end.
unfoldable pub try_load_from_file : (size : ℕ) → (ℕ → ℕ) → Option LtpData
try_load_from_file size bytes =
    let num_subtables = load_le bytes 12 4 in
    if ltb size 16
    then none
    else if not (load_le bytes 0 4 == file_magic)
    then none
    else if not (load_le bytes 4 4 == 1)
    then none
    else if not (load_le bytes 8 4 == s)
    then none
    else if ltb num_subtables 1 || ltb 2 num_subtables
    then none
    else if not (size == 16 + num_subtables * num_cells * 2)
    then none
    else build_from_assignment num_subtables (file_assignment bytes 0) (file_assignment bytes 1)

-- The file that CRSCE_LTP_TABLE_FILE names, if it names one that opens, and the two seeds.
unfoldable pub get_ltp_data :
    (strtoull : List ℕ → ℕ) (file : Option (ℕ × (ℕ → ℕ))) (env1 env2 : Option (List ℕ)) → LtpData
get_ltp_data strtoull file env1 env2 =
    let seeded =
      build_all_partitions (parse_opt_env_seed strtoull env1 seed1)
        (parse_opt_env_seed strtoull env2 seed2) in
    elim file [
      | none ↦ seeded
      | some f ↦ elim (try_load_from_file f.0 f.1) [ none ↦ seeded | some d ↦ d ]
    ]

unfoldable pub ltp_file_is_valid : Option (ℕ × (ℕ → ℕ)) → Bool
unfolding try_load_from_file
ltp_file_is_valid none = false
ltp_file_is_valid (some f) = elim (try_load_from_file f.0 f.1) [ none ↦ false | some d ↦ true ]
