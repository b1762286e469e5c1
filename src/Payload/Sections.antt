-- ===== src/Payload/Sections.antt =====
-- The loops over one sum vector: what they write, where they end, and what they read back.
use crsce.Prelude.{
  ℕ, zero, suc, ◌+◌, ◌*◌, ◌/◌, ◌^◌, ◌≤◌, ◌<◌, ◌≡◌, refl, ap, ◌∙◌, inl, inr, arith, if◌then◌else◌,
  update, ltb, leb, ◌&&◌,
}
use crsce.Payload.{bit_at, pack_bits, pack_sums, unpack_sums}
use crsce.Payload.Bitstream.{
  Spells, Clear, pack_bits-offset, pack_bits_outside, pack_bits-Spells, unpack_bits-Spells,
  pack_bits_byte, pack_bits_beyond,
}

module _ (width : ℕ → ℕ) where
  -- The offset after the sums k, …, k + n - 1.
  abbrev pub ends : ℕ → ℕ → ℕ → ℕ
  ends offset k zero = offset
  ends offset k (suc n) = ends (offset + width k) (k + 1) n

  pub ends_le : (offset k n : ℕ) → offset ≤ ends offset k n
  ends_le offset k zero = omega arith
  ends_le offset k (suc n) = omega (arith, ends_le (offset + width k) (k + 1) n)

  -- The stream has these sums from `offset` on.
  abbrev pub Holds : (ℕ → ℕ) → (ℕ → ℕ) → ℕ → ℕ → ℕ → Type 0
  Holds bytes sums offset k zero = Unit {0}
  Holds bytes sums offset k (suc n) =
      Spells bytes offset (width k) (sums k) × Holds bytes sums (offset + width k) (k + 1) n

  module _ (sums : ℕ → ℕ) where
    pub pack_sums-offset :
        (at : (ℕ → ℕ) × ℕ) (k n : ℕ) → (pack_sums width sums at k n).1 ≡ ends at.1 k n
    unfolding pack_sums
    pack_sums-offset at k zero = refl
    pack_sums-offset at k (suc n) =
        pack_sums-offset (pack_bits at.0 at.1 (sums k) (width k)) (k + 1) n
        ∙ ap (λ (o : ℕ). ends o (k + 1) n) (pack_bits-offset at.0 at.1 (sums k) (width k))

    pub pack_sums_before :
        (at : (ℕ → ℕ) × ℕ) (k n j : ℕ)
        → j < at.1
        → bit_at (pack_sums width sums at k n).0 j ≡ bit_at at.0 j
    unfolding pack_sums
    pack_sums_before at k zero j h = refl
    pack_sums_before at k (suc n) j h =
        pack_sums_before (pack_bits at.0 at.1 (sums k) (width k)) (k + 1) n j
          (omega (arith, pack_bits-offset at.0 at.1 (sums k) (width k)))
        ∙ pack_bits_outside at.0 at.1 (sums k) (width k) j (inl h)

    pub pack_sums_byte :
        (at : (ℕ → ℕ) × ℕ) (k n i : ℕ) → i < at.1 / 8 → (pack_sums width sums at k n).0 i ≡ at.0 i
    unfolding pack_sums
    pack_sums_byte at k zero i h = refl
    pack_sums_byte at k (suc n) i h =
        pack_sums_byte (pack_bits at.0 at.1 (sums k) (width k)) (k + 1) n i
          (omega (arith, pack_bits-offset at.0 at.1 (sums k) (width k)))
        ∙ pack_bits_byte at.0 at.1 (sums k) (width k) i h

    -- The bytes behind the end stay.
    pub pack_sums_beyond :
        (at : (ℕ → ℕ) × ℕ) (k n i : ℕ)
        → (pack_sums width sums at k n).1 ≤ 8 * i
        → (pack_sums width sums at k n).0 i ≡ at.0 i
    unfolding pack_sums
    pack_sums_beyond at k zero i h = refl
    pack_sums_beyond at k (suc n) i h =
        let next = pack_bits at.0 at.1 (sums k) (width k) in
        pack_sums_beyond next (k + 1) n i h
        ∙ pack_bits_beyond at.0 at.1 (sums k) (width k) i (
            omega (
              arith,
              pack_bits-offset at.0 at.1 (sums k) (width k),
              pack_sums-offset next (k + 1) n,
              ends_le next.1 (k + 1) n,
            ))

    pack_bits-Clear :
        (at : (ℕ → ℕ) × ℕ) (k : ℕ)
        → Clear at.0 at.1
        → Clear
            (pack_bits at.0 at.1 (sums k) (width k)).0
            (pack_bits at.0 at.1 (sums k) (width k)).1
    pack_bits-Clear at k c j h =
        let e = pack_bits-offset at.0 at.1 (sums k) (width k) in
        pack_bits_outside at.0 at.1 (sums k) (width k) j (inr (omega arith)) ∙ c j (omega arith)

    pub pack_sums-Clear :
        (at : (ℕ → ℕ) × ℕ) (k n : ℕ)
        → Clear at.0 at.1
        → Clear (pack_sums width sums at k n).0 (pack_sums width sums at k n).1
    unfolding pack_sums
    pack_sums-Clear at k zero c = c
    pack_sums-Clear at k (suc n) c =
        pack_sums-Clear (pack_bits at.0 at.1 (sums k) (width k)) (k + 1) n (pack_bits-Clear at k c)

    -- On clear bits the loop leaves a stream that has the sums.
    pub pack_sums-Holds :
        (at : (ℕ → ℕ) × ℕ) (k n : ℕ)
        → Clear at.0 at.1
        → Holds (pack_sums width sums at k n).0 sums at.1 k n
    unfolding pack_sums
    pack_sums-Holds at k zero c = tt
    pack_sums-Holds at k (suc n) c =
        let next = pack_bits at.0 at.1 (sums k) (width k) in
        let e = pack_bits-offset at.0 at.1 (sums k) (width k) in
        (
          λ j h.
              pack_sums_before next (k + 1) n (at.1 + j) (omega arith)
              ∙ pack_bits-Spells at.0 at.1 (sums k) (width k) c j h,
          rw e at (pack_sums-Holds next (k + 1) n (pack_bits-Clear at k c)),
        )

    -- Two streams that agree before the end of the sums have the same.
    pub Holds-same :
        (bytes bytes' : ℕ → ℕ) (offset k n : ℕ)
        → ((j : ℕ) → j < ends offset k n → bit_at bytes' j ≡ bit_at bytes j)
        → Holds bytes sums offset k n
        → Holds bytes' sums offset k n
    Holds-same bytes bytes' offset k zero same h = tt
    Holds-same bytes bytes' offset k (suc n) same h = (
      λ j hj. same (offset + j) (omega (arith, ends_le (offset + width k) (k + 1) n)) ∙ h.0 j hj,
      Holds-same bytes bytes' (offset + width k) (k + 1) n same h.1,
    )

    -- Reading such a stream gives the sums back, and ends where writing ended.
    pub unpack_sums-Holds :
        (bytes dst : ℕ → ℕ) (offset k n : ℕ)
        → ((i : ℕ) → width i ≤ 16)
        → ((i : ℕ) → k ≤ i → i < k + n → sums i < 2 ^ width i)
        → Holds bytes sums offset k n
        → ((unpack_sums width bytes (dst, offset) k n).1 ≡ ends offset k n)
          × ((i : ℕ)
              → (unpack_sums width bytes (dst, offset) k n).0 i
                ≡ (if leb k i && ltb i (k + n) then sums i else dst i))
    unfolding unpack_sums
    unpack_sums-Holds bytes dst offset k zero short small h = (refl, λ i. ground arith)
    unpack_sums-Holds bytes dst offset k (suc n) short small h =
        let e =
          unpack_bits-Spells bytes offset (width k) (sums k) (short k)
            (small k (omega arith) (omega arith)) h.0 in
        let rest =
          unpack_sums-Holds bytes (update dst k (sums k)) (offset + width k) (k + 1) n short
            (λ i a b. small i (omega arith) (omega arith)) h.1 in
        rw e ((rest.0, λ i. rest.1 i ∙ ground arith))
