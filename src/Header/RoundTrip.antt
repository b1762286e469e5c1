-- ===== src/Header/RoundTrip.antt =====
-- `deserialize` reads back what `serialize` writes, and rejects a header whose checksum was changed.
use crsce.Prelude.{
  ℕ, zero, suc, ◌+◌, ◌-◌, ◌/◌, ◌^◌, ◌≤◌, ◌<◌, ◌≡◌, ◌≢◌, refl, sym, ap, ◌∙◌, inl, arith, bit_xor,
  bit_and,
}
use crsce.Crc.{crc32_ieee, crc32_loop, make_entry_rt}
use crsce.Header.{
  FileHeader, magic_number, version_number, header_bytes, fill, serialize, deserialize, check,
  store_le, load_le, header, crc_mismatch,
}
use crsce.Header.LittleEndian.{load_le_same, load_le-store_le, store_le_outside}

crc32_loop_same :
    (bytes bytes' : ℕ → ℕ) (i n c : ℕ)
    → ((j : ℕ) → j < i + n → bytes j ≡ bytes' j)
    → crc32_loop bytes i n c ≡ crc32_loop bytes' i n c
unfolding crc32_loop
crc32_loop_same bytes bytes' i zero c same = refl
crc32_loop_same bytes bytes' i (suc n) c same =
    ap
      (λ (b : ℕ).
        crc32_loop bytes (i + 1) n
          (bit_xor (make_entry_rt (bit_and (bit_xor c b) 255)) (c / 2 ^ 8)))
      (same i (omega arith))
    ∙ crc32_loop_same bytes bytes' (i + 1) n _ (λ j h. same j (omega arith))

-- The checksum reads the bytes before `n` only.
crc32_ieee_same :
    (bytes bytes' : ℕ → ℕ) (n : ℕ)
    → ((j : ℕ) → j < n → bytes j ≡ bytes' j)
    → crc32_ieee bytes n ≡ crc32_ieee bytes' n
unfolding crc32_ieee
crc32_ieee_same bytes bytes' n same =
    ap (λ (c : ℕ). 2 ^ 32 - 1 - c)
      (crc32_loop_same bytes bytes' 0 n 4294967295 (λ j h. same j (omega arith)))

crc32_ieee-lt : (bytes : ℕ → ℕ) (n : ℕ) → crc32_ieee bytes n < 256 ^ 4
unfolding crc32_ieee
crc32_ieee-lt bytes n = omega arith

module _ (h : FileHeader) where
  -- The stages of `fill`.
  abbrev with_magic : ℕ → ℕ
  with_magic = store_le magic_number 4 0 (λ i. 0)

  abbrev with_version : ℕ → ℕ
  with_version = store_le version_number 2 4 with_magic

  abbrev with_bytes : ℕ → ℕ
  with_bytes = store_le header_bytes 2 6 with_version

  abbrev with_size : ℕ → ℕ
  with_size = store_le h.original_file_size_bytes 8 8 with_bytes

  before_crc : (i : ℕ) → i < 24 → serialize h i ≡ fill h i
  unfolding serialize
  before_crc i hi = store_le_outside (crc32_ieee (fill h) 24) 4 24 (fill h) i (inl (omega arith))

  before_count : (i : ℕ) → i < 16 → serialize h i ≡ with_size i
  unfolding fill
  before_count i hi =
      before_crc i (omega arith)
      ∙ store_le_outside h.block_count 8 16 with_size i (inl (omega arith))

  before_version : (i : ℕ) → i < 4 → serialize h i ≡ with_magic i
  before_version i hi =
      before_count i (omega arith)
      ∙ store_le_outside h.original_file_size_bytes 8 8 with_bytes i (inl (omega arith))
      ∙ store_le_outside header_bytes 2 6 with_version i (inl (omega arith))
      ∙ store_le_outside version_number 2 4 with_magic i (inl (omega arith))

  magic_read : load_le (serialize h) 0 4 ≡ magic_number
  magic_read =
      load_le_same (serialize h) with_magic 0 4 (λ i a b. before_version i (omega arith))
      ∙ load_le-store_le magic_number 4 0 (λ i. 0) (omega arith)

  size_read :
      h.original_file_size_bytes < 2 ^ 64 → load_le (serialize h) 8 8 ≡ h.original_file_size_bytes
  size_read hs =
      load_le_same (serialize h) with_size 8 8 (λ i a b. before_count i (omega arith))
      ∙ load_le-store_le h.original_file_size_bytes 8 8 with_bytes (omega arith)

  count_read : h.block_count < 2 ^ 64 → load_le (serialize h) 16 8 ≡ h.block_count
  unfolding fill
  count_read hc =
      load_le_same (serialize h) (fill h) 16 8 (λ i a b. before_crc i (omega arith))
      ∙ load_le-store_le h.block_count 8 16 with_size (omega arith)

  crc_read : load_le (serialize h) 24 4 ≡ crc32_ieee (serialize h) 24
  unfolding serialize
  crc_read =
      load_le-store_le (crc32_ieee (fill h) 24) 4 24 (fill h) (crc32_ieee-lt (fill h) 24)
      ∙ sym (crc32_ieee_same (serialize h) (fill h) 24 before_crc)

  -- A header of two 64-bit numbers is read back from its 28 bytes.
  pub deserialize-serialize :
      h.original_file_size_bytes < 2 ^ 64
      → h.block_count < 2 ^ 64
      → deserialize (serialize h) header_bytes ≡ header h
  unfolding deserialize check
  deserialize-serialize hs hc =
      rw (magic_read, crc_read, size_read hs, count_read hc) (ground arith)

check_changed_crc :
    (len magic stored computed stored' : ℕ) (f f' h : FileHeader)
    → check len magic stored computed f ≡ header h
    → stored ≢ stored'
    → check len magic stored' computed f' ≡ crc_mismatch
unfolding check
check_changed_crc len magic stored computed stored' f f' h ok other = ground arith

-- If a buffer is accepted, then a buffer with the same first 24 bytes and another checksum is
-- rejected for its checksum.
pub deserialize_changed_crc :
    (bytes bytes' : ℕ → ℕ) (len : ℕ) (h : FileHeader)
    → deserialize bytes len ≡ header h
    → ((i : ℕ) → i < 24 → bytes i ≡ bytes' i)
    → load_le bytes 24 4 ≢ load_le bytes' 24 4
    → deserialize bytes' len ≡ crc_mismatch
unfolding deserialize
deserialize_changed_crc bytes bytes' len h ok same other =
    rw
      (
        sym (load_le_same bytes bytes' 0 4 (λ i a b. same i (omega arith))),
        sym (crc32_ieee_same bytes bytes' 24 same),
      )
      (check_changed_crc len (load_le bytes 0 4) (load_le bytes 24 4) (crc32_ieee bytes 24)
        (load_le bytes' 24 4) _ _ h ok other)

check_length :
    (len magic stored computed : ℕ) (h : FileHeader)
    → header_bytes ≤ len
    → check len magic stored computed h ≡ check header_bytes magic stored computed h
unfolding check
check_length len magic stored computed h le = ground arith

-- A longer buffer that starts with the same 28 bytes has the same header.
pub deserialize_same :
    (bytes bytes' : ℕ → ℕ) (len : ℕ)
    → header_bytes ≤ len
    → ((i : ℕ) → i < header_bytes → bytes i ≡ bytes' i)
    → deserialize bytes len ≡ deserialize bytes' header_bytes
unfolding deserialize
deserialize_same bytes bytes' len le same =
    rw
      (
        load_le_same bytes bytes' 0 4 (λ i a b. same i (omega arith)),
        load_le_same bytes bytes' 24 4 (λ i a b. same i (omega arith)),
        load_le_same bytes bytes' 8 8 (λ i a b. same i (omega arith)),
        load_le_same bytes bytes' 16 8 (λ i a b. same i (omega arith)),
        crc32_ieee_same bytes bytes' 24 (λ i a. same i (omega arith)),
      )
      (check_length len (load_le bytes' 0 4) (load_le bytes' 24 4) (crc32_ieee bytes' 24)
        (record {
          original_file_size_bytes = load_le bytes' 8 8;
          block_count = load_le bytes' 16 8;
        })
        le)
