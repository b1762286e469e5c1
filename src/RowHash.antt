-- ===== src/RowHash.antt =====
-- The checksum of a row: LateralHash (src/common/LateralHash/LateralHash_*.cpp), the loop of
-- Compressor_computeLH.cpp, and Sha1HashVerifier (src/Decompress/Solvers/Sha1HashVerifier_*.cpp),
-- which in spite of its name compares CRC-32 values. An array is a function from its index.
pub mod Verify
use crsce.Prelude.{
  ℕ, zero, suc, ◌+◌, ◌-◌, ◌*◌, ◌/◌, ◌%◌, ◌^◌, Bool, true, false, ◌&&◌, Option, none, some, ltb,
  ◌==◌, if◌then◌else◌, update,
}
use crsce.Lines.{s}
use crsce.Csm.{Csm}
use crsce.Crc.{crc32_ieee}
use crsce.Payload.{Payload}

-- The 16 bytes of a row of two words, the highest byte of each word first.
unfoldable pub row_message : (ℕ → ℕ) → ℕ → ℕ
row_message row i = row (i / 8) / 2 ^ (8 * (7 - i % 8)) % 256

unfoldable pub row_crc : (ℕ → ℕ) → ℕ
unfolding row_message
row_crc row = crc32_ieee (row_message row) 16

-- The four bytes of a checksum, the highest first.
unfoldable pub digest_byte : ℕ → ℕ → ℕ
digest_byte crc i =
    if i == 0
    then crc / 2 ^ 24 % 256
    else if i == 1
    then crc / 2 ^ 16 % 256
    else if i == 2
    then crc / 2 ^ 8 % 256
    else if i == 3
    then crc % 256
    else 0

-- LateralHash::compute and Sha1HashVerifier::computeHash, which pads with zeros.
unfoldable pub lateral_hash : (ℕ → ℕ) → ℕ → ℕ
unfolding digest_byte
lateral_hash row = digest_byte (row_crc row)

-- The first n bytes agree.
unfoldable pub same_bytes : (ℕ → ℕ) → (ℕ → ℕ) → ℕ → Bool
same_bytes a b zero = true
same_bytes a b (suc n) = (a n == b n) && same_bytes a b n

-- expected_: four bytes for each row.
pub record Verifier : Type 0 where
  pub expected : ℕ → ℕ → ℕ

unfoldable pub new_verifier : Verifier
new_verifier = record { expected = λ r i. 0 }

unfoldable pub set_expected : ℕ → (ℕ → ℕ) → Verifier → Verifier
set_expected r digest v = record {
  expected = update v.expected r (λ i. if ltb i 4 then digest i else v.expected r i);
}

unfoldable pub verify_row : Verifier → ℕ → (ℕ → ℕ) → Bool
unfolding same_bytes lateral_hash
verify_row v r row = same_bytes (lateral_hash row) (v.expected r) 4

-- The loop of computeLH over the rows from r on.
unfoldable pub compute_lh : Csm → ℕ → ℕ → Payload → Payload
unfolding lateral_hash
compute_lh m r zero p = p
compute_lh m r (suc n) p =
    compute_lh m (r + 1) n (record p { lh = update p.lh r (lateral_hash (m.rows r)) })

-- The loop of reconstructBlock and discoverDI over the rows from r on.
unfoldable pub expect_rows : Payload → ℕ → ℕ → Verifier → Verifier
unfolding set_expected
expect_rows p r zero v = v
expect_rows p r (suc n) v = expect_rows p (r + 1) n (set_expected r (p.lh r) v)

-- LateralHash as a table of s rows: out of range its calls throw, which is `none`.
unfoldable pub store_digest : ℕ → ℕ → (ℕ → ℕ) → (ℕ → ℕ → ℕ) → Option (ℕ → ℕ → ℕ)
store_digest size r digest digests = if ltb r size then some (update digests r digest) else none

unfoldable pub verify_digest : ℕ → ℕ → (ℕ → ℕ) → (ℕ → ℕ → ℕ) → Option Bool
unfolding same_bytes
verify_digest size r digest digests =
    if ltb r size then some (same_bytes (digests r) digest 4) else none

unfoldable pub get_digest : ℕ → ℕ → (ℕ → ℕ → ℕ) → Option (ℕ → ℕ)
get_digest size r digests = if ltb r size then some (digests r) else none
