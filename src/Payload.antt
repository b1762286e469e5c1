-- ===== src/Payload.antt =====
-- CompressedPayload (include/common/Format/CompressedPayload/CompressedPayload.h and
-- src/common/Format/CompressedPayload/CompressedPayload_*.cpp): the block of a compressed file. A
-- vector is a function from its index, and a setter or getter that throws out_of_range is `none`.
pub mod Access
pub mod Bitstream
pub mod Sections
pub mod Bytes
pub mod Widths
pub mod RoundTrip
use crsce.Prelude.{
  ℕ, zero, suc, ◌+◌, ◌-◌, ◌*◌, ◌/◌, ◌%◌, ◌^◌, Bool, true, false, ◌&&◌, Option, none, some, ltb, leb,
  ◌==◌, if◌then◌else◌, update, bit_or,
}
use crsce.Bits.{get_bit}
use crsce.Lines.{s, num_diags, diag_len}

abbrev pub payload_bytes : ℕ
payload_bytes = 1369

pub record Payload : Type 0 where
  pub lh : ℕ → ℕ → ℕ
  pub bh : ℕ → ℕ
  pub di : ℕ
  pub lsm : ℕ → ℕ
  pub vsm : ℕ → ℕ
  pub dsm : ℕ → ℕ
  pub xsm : ℕ → ℕ
  pub ltp1sm : ℕ → ℕ
  pub ltp2sm : ℕ → ℕ

-- The constructor: every slot is zero.
unfoldable pub new_payload : Payload
new_payload = record {
  lh = λ r i. 0;
  bh = λ i. 0;
  di = 0;
  lsm = λ k. 0;
  vsm = λ k. 0;
  dsm = λ k. 0;
  xsm = λ k. 0;
  ltp1sm = λ k. 0;
  ltp2sm = λ k. 0;
}

-- One sum vector's getter and setter: out of range below `size` they throw.
unfoldable pub get_sum : ℕ → (ℕ → ℕ) → ℕ → Option ℕ
get_sum size sums k = if ltb k size then some (sums k) else none

unfoldable pub set_sum : ℕ → (ℕ → ℕ) → ℕ → ℕ → Option (ℕ → ℕ)
set_sum size sums k value = if ltb k size then some (update sums k value) else none

unfoldable pub set_lh : Payload → ℕ → (ℕ → ℕ) → Option Payload
set_lh p r digest = if ltb r s then some (record p { lh = update p.lh r digest }) else none

unfoldable pub get_lh : Payload → ℕ → Option (ℕ → ℕ)
get_lh p r = if ltb r s then some (p.lh r) else none

-- std::bit_width of a 32-bit number
unfoldable pub width_loop : ℕ → ℕ → ℕ
width_loop zero n = 0
width_loop (suc fuel) n = let rest = width_loop fuel (n / 2) in if n == 0 then 0 else rest + 1

unfoldable pub bit_width : ℕ → ℕ
unfolding width_loop
bit_width n = width_loop 32 n

-- The widths of the sums of a line of kS cells and of diagonal k.
unfoldable pub full_bits : ℕ → ℕ
unfolding bit_width
full_bits k = bit_width s

unfoldable pub diag_bits : ℕ → ℕ
unfolding bit_width diag_len
diag_bits k = bit_width (diag_len k)

-- Bit `offset` of a buffer, the highest bit of a byte first.
unfoldable pub bit_at : (ℕ → ℕ) → ℕ → ℕ
bit_at bytes offset = get_bit (bytes (offset / 8)) (7 - offset % 8)

-- buf[byteIdx] | (bit << bitIdx), in 8 bits
unfoldable pub write_bit : (ℕ → ℕ) → ℕ → ℕ → ℕ → ℕ
write_bit buf offset bit =
    update buf (offset / 8) (bit_or (buf (offset / 8)) (bit * 2 ^ (7 - offset % 8) % 256))

-- The buffer and the offset after the n low bits of the value are written.
unfoldable pub pack_bits : (ℕ → ℕ) → ℕ → ℕ → ℕ → (ℕ → ℕ) × ℕ
unfolding write_bit
pack_bits buf offset value zero = (buf, offset)
pack_bits buf offset value (suc i) =
    pack_bits (write_bit buf offset (get_bit value i)) (offset + 1) value i

-- The value and the offset after n bits are read; the loop has n - i bits to go.
unfoldable pub unpack_loop : (ℕ → ℕ) → ℕ → ℕ → ℕ → ℕ × ℕ
unfolding bit_at
unpack_loop bytes offset value zero = (value, offset)
unpack_loop bytes offset value (suc k) =
    unpack_loop bytes (offset + 1) (bit_or value (bit_at bytes offset * 2 ^ k % 65536)) k

unfoldable pub unpack_bits : (ℕ → ℕ) → ℕ → ℕ → ℕ × ℕ
unfolding unpack_loop
unpack_bits bytes offset n = unpack_loop bytes offset 0 n

-- One loop over a sum vector, from k on for n sums.
module _ (width : ℕ → ℕ) where
  unfoldable pub pack_sums : (ℕ → ℕ) → (ℕ → ℕ) × ℕ → ℕ → ℕ → (ℕ → ℕ) × ℕ
  unfolding pack_bits
  pack_sums sums at k zero = at
  pack_sums sums at k (suc n) = pack_sums sums (pack_bits at.0 at.1 (sums k) (width k)) (k + 1) n

  unfoldable pub unpack_sums : (ℕ → ℕ) → (ℕ → ℕ) × ℕ → ℕ → ℕ → (ℕ → ℕ) × ℕ
  unfolding unpack_bits
  unpack_sums bytes (sums, offset) k zero = (sums, offset)
  unpack_sums bytes (sums, offset) k (suc n) =
      let (value, next) = unpack_bits bytes offset (width k) in
      unpack_sums bytes (update sums k value, next) (k + 1) n

-- memcpy(buf + offset, src, n)
unfoldable pub copy : (ℕ → ℕ) → ℕ → ℕ → (ℕ → ℕ) → ℕ → ℕ
copy src n offset buf i = if leb offset i && ltb i (offset + n) then src (i - offset) else buf i

-- The loop over the row digests, 4 bytes each.
unfoldable pub copy_rows : (ℕ → ℕ → ℕ) → ℕ → ℕ → ℕ → (ℕ → ℕ) → ℕ → ℕ
unfolding copy
copy_rows lh r zero offset buf = buf
copy_rows lh r (suc n) offset buf = copy_rows lh (r + 1) n (offset + 4) (copy (lh r) 4 offset buf)

-- The digests, the block hash and the DI byte: 508 + 32 + 1 bytes.
unfoldable pub serialize_bytes : Payload → ℕ → ℕ
unfolding copy_rows
serialize_bytes p = update (copy p.bh 32 508 (copy_rows p.lh 0 s 0 (λ i. 0))) 540 p.di

-- The buffer of serializeBlock, with the final bit offset.
unfoldable pub serialize_block : Payload → (ℕ → ℕ) × ℕ
unfolding serialize_bytes pack_sums full_bits diag_bits
serialize_block p =
    pack_sums full_bits p.ltp2sm
      (pack_sums full_bits p.ltp1sm
        (pack_sums diag_bits p.xsm
          (pack_sums diag_bits p.dsm
            (pack_sums full_bits p.vsm (pack_sums full_bits p.lsm (serialize_bytes p, 541 * 8) 0 s)
              0 s)
            0 num_diags)
          0 num_diags)
        0 s)
      0 s

-- The loop that reads the row digests.
unfoldable pub read_rows : (ℕ → ℕ) → (ℕ → ℕ → ℕ) → ℕ → ℕ → ℕ → ℕ → ℕ → ℕ
unfolding copy
read_rows bytes lh r zero offset = lh
read_rows bytes lh r (suc n) offset =
    read_rows bytes (update lh r (copy (λ i. bytes (offset + i)) 4 0 (lh r))) (r + 1) n (offset + 4)

-- The body of deserializeBlock, which reads a whole block into the payload given.
unfoldable pub read_block : (ℕ → ℕ) → Payload → Payload
unfolding read_rows unpack_sums full_bits diag_bits
read_block bytes p =
    let (lsm, o1) = unpack_sums full_bits bytes (p.lsm, 541 * 8) 0 s in
    let (vsm, o2) = unpack_sums full_bits bytes (p.vsm, o1) 0 s in
    let (dsm, o3) = unpack_sums diag_bits bytes (p.dsm, o2) 0 num_diags in
    let (xsm, o4) = unpack_sums diag_bits bytes (p.xsm, o3) 0 num_diags in
    let (ltp1sm, o5) = unpack_sums full_bits bytes (p.ltp1sm, o4) 0 s in
    let (ltp2sm, o6) = unpack_sums full_bits bytes (p.ltp2sm, o5) 0 s in
    record {
      lh = read_rows bytes p.lh 0 s 0;
      bh = copy (λ i. bytes (508 + i)) 32 0 p.bh;
      di = bytes 540;
      lsm = lsm;
      vsm = vsm;
      dsm = dsm;
      xsm = xsm;
      ltp1sm = ltp1sm;
      ltp2sm = ltp2sm;
    }

-- deserializeBlock: `none` for a buffer of `len` bytes that is too small.
unfoldable pub deserialize_block : (ℕ → ℕ) → ℕ → Payload → Option Payload
unfolding read_block
deserialize_block bytes len p = if ltb len payload_bytes then none else some (read_block bytes p)
