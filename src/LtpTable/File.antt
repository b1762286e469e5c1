-- ===== src/LtpTable/File.antt =====
-- The table in use: from the file that the environment names, or from the seeds.
use crsce.Prelude.{
  ℕ, ◌≡◌, ◌≢◌, ◌⊎◌, inl, inr, refl, arith, Option, none, some, List, ◌==◌, Bool-cases,
}
use crsce.Header.{load_le}
use crsce.Lines.{IsLtp}
use crsce.LtpTable.{
  LtpData, file_assignment, build_from_assignment, try_load_from_file, get_ltp_data, table_of,
}
use crsce.LtpTable.Build.{build_all_partitions-IsLtp}
use crsce.LtpTable.Loaded.{build_from_assignment-IsLtp}

-- A file that is loaded has two sub-tables or one, and its assignment is accepted.
try_load_from_file-cases :
    (size : ℕ) (bytes : ℕ → ℕ) (d : LtpData)
    → try_load_from_file size bytes ≡ some d
    → (build_from_assignment 2 (file_assignment bytes 0) (file_assignment bytes 1) ≡ some d)
      ⊎ (load_le bytes 12 4 ≡ 1)
unfolding try_load_from_file
try_load_from_file-cases size bytes d h = elim (Bool-cases (load_le bytes 12 4 == 1)) [
  | inl one ↦ inr (ground (arith, one))
  | inr more ↦ inl (ground (arith, more))
]

-- Whatever the environment is, the table in use meets the interface of the constraint store, if
-- it does not come from a file of a single sub-table.
pub get_ltp_data-IsLtp :
    (strtoull : List ℕ → ℕ) (file : Option (ℕ × (ℕ → ℕ))) (env1 env2 : Option (List ℕ))
    → ((size : ℕ) (bytes : ℕ → ℕ) → file ≡ some (size, bytes) → load_le bytes 12 4 ≢ 1)
    → IsLtp (table_of (get_ltp_data strtoull file env1 env2))
unfolding get_ltp_data
get_ltp_data-IsLtp strtoull none env1 env2 h = (build_all_partitions-IsLtp _ _).0
get_ltp_data-IsLtp strtoull (some (size, bytes)) env1 env2 h =
    by_load (try_load_from_file size bytes) refl
  where
    by_load :
        (x : Option LtpData)
        → try_load_from_file size bytes ≡ x
        → IsLtp (table_of (get_ltp_data strtoull (some (size, bytes)) env1 env2))
    by_load none e = rw (e, get_ltp_data) (build_all_partitions-IsLtp _ _).0
    by_load (some d) e =
        rw (e, get_ltp_data)
          (elim (try_load_from_file-cases size bytes d e) [
            | inl two ↦ build_from_assignment-IsLtp _ _ d two
            | inr one ↦ absurd (h size bytes refl one)
          ])
