-- ===== src/Header.antt =====
-- FileHeader (include/common/Format/CompressedPayload/FileHeader.h, FileHeader_serialize.cpp and
-- FileHeader_deserialize.cpp in src/common/Format/CompressedPayload): the 28 bytes before the
-- blocks, on a little-endian machine. An exception is a result of its own.
pub mod LittleEndian
pub mod RoundTrip
use crsce.Prelude.{ℕ, zero, suc, ◌+◌, ◌*◌, ◌/◌, ◌%◌, ◌^◌, ltb, ◌==◌, if◌then◌else◌}
use crsce.Crc.{crc32_ieee}
use crsce.Payload.{copy}

abbrev pub magic_number : ℕ
magic_number = 1129468739

abbrev pub version_number : ℕ
version_number = 1

abbrev pub header_bytes : ℕ
header_bytes = 28

pub record FileHeader : Type 0 where
  pub original_file_size_bytes : ℕ
  pub block_count : ℕ

-- The bytes of a number, the lowest first.
unfoldable pub le_byte : ℕ → ℕ → ℕ
le_byte v i = v / 256 ^ i % 256

-- memcpy(buf + offset, &v, n) and memcpy(&v, bytes + offset, n)
unfoldable pub store_le : ℕ → ℕ → ℕ → (ℕ → ℕ) → ℕ → ℕ
unfolding copy
store_le v n offset buf = copy (le_byte v) n offset buf

unfoldable pub load_le : (ℕ → ℕ) → ℕ → ℕ → ℕ
load_le bytes offset zero = 0
load_le bytes offset (suc n) = bytes offset + 256 * load_le bytes (offset + 1) n

-- The first 24 bytes, and the buffer of 28 bytes.
unfoldable pub fill : FileHeader → ℕ → ℕ
unfolding store_le
fill h = store_le h.block_count 8 16 (
    store_le h.original_file_size_bytes 8 8 (
      store_le header_bytes 2 6 (store_le version_number 2 4 (store_le magic_number 4 0 (λ i. 0)))))

unfoldable pub serialize : FileHeader → ℕ → ℕ
unfolding fill crc32_ieee
serialize h = store_le (crc32_ieee (fill h) 24) 4 24 (fill h)

pub data HeaderResult : Type 0 where
  too_small bad_magic crc_mismatch : HeaderResult
  header : FileHeader → HeaderResult

-- The guards in their order, on what is loaded.
unfoldable pub check : (len magic stored_crc computed_crc : ℕ) → FileHeader → HeaderResult
check len magic stored_crc computed_crc h =
    if ltb len header_bytes
    then too_small
    else if magic == magic_number
    then (if stored_crc == computed_crc then header h else crc_mismatch)
    else bad_magic

unfoldable pub deserialize : (ℕ → ℕ) → ℕ → HeaderResult
unfolding check load_le crc32_ieee
deserialize bytes len =
    check len (load_le bytes 0 4) (load_le bytes 24 4) (crc32_ieee bytes 24)
      (record { original_file_size_bytes = load_le bytes 8 8; block_count = load_le bytes 16 8 })
