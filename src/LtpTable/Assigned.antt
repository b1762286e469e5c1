-- ===== src/LtpTable/Assigned.antt =====
-- What the loop over an assignment writes: each line's entries hold the cells that are assigned to
-- it.
use mathlib.Core.Path.{subst}
use mathlib.Core.List.{map-append}
use native.Mathlib.Decide.{dec_lt}
use crsce.Prelude.{
  ℕ, zero, suc, ◌+◌, ◌-◌, ◌*◌, ◌/◌, ◌%◌, ◌≤◌, ◌<◌, ◌≡◌, ◌≢◌, ◌⊎◌, inl, inr, refl, sym, ap, ◌∙◌,
  arith, ◌&&◌, List, [], ◌∷◌, ◌++◌, map, range, length, count, All, ltb, ◌==◌, if◌then◌else◌,
  to_bit, update, Bool-cases, ==_iff, get_or,
}
use crsce.Lines.{Cell, InMatrix, s, count_cell}
use crsce.LtpTable.{LtpData, joined, write_entry, fill_assigned}

map-update_outside :
    (entries : ℕ → Cell) (slot : ℕ) (p : Cell) (lo n : ℕ)
    → (slot < lo) ⊎ (lo + n ≤ slot)
    → map (update entries slot p) (range lo n) ≡ map entries (range lo n)
unfolding range
map-update_outside entries slot p lo zero h = refl
map-update_outside entries slot p lo (suc n) h =
    ground (arith, map-update_outside entries slot p (lo + 1) n)

range-suc : (lo n : ℕ) → range lo (suc n) ≡ range lo n ++ ((lo + n) ∷ [])
unfolding range
range-suc lo zero = ground arith
range-suc lo (suc n) =
    rw (range-suc (lo + 1) n) (
      ap (λ x. lo ∷ (range (lo + 1) n ++ (x ∷ []))) {x = lo + 1 + n} {y = lo + suc n} (omega arith))

count_cell-append :
    (p : Cell) (xs ys : List Cell) → count_cell p (xs ++ ys) ≡ count_cell p xs + count_cell p ys
count_cell-append p [] ys = omega arith
count_cell-append p (x ∷ xs) ys = omega (arith, count_cell-append p xs ys)

-- The entries of line k that are written when `write_pos` is the next free one of each line.
abbrev pub chunk : (ℕ → Cell) → (ℕ → ℕ) → ℕ → List Cell
chunk entries write_pos k = map entries (range (k * 127) (write_pos k - k * 127))

module _ (entries : ℕ → Cell) (write_pos : ℕ → ℕ) (l : ℕ) (p : Cell) where
  abbrev entries' : ℕ → Cell
  entries' = update entries (write_pos l) p

  abbrev write_pos' : ℕ → ℕ
  write_pos' = update write_pos l (write_pos l + 1)

  chunk_grown :
      (k : ℕ)
      → l ≡ k
      → k * 127 ≤ write_pos k
      → chunk entries' write_pos' k ≡ chunk entries write_pos k ++ (p ∷ [])
  chunk_grown k e h =
      let lo = k * 127 in
      let m = write_pos k - k * 127 in
      let longer : write_pos' k - k * 127 ≡ suc m = ground arith in
      let last : entries' (lo + m) ≡ p = ground (arith, ap write_pos e) in
      ap (λ n. map entries' (range lo n)) longer
      ∙ ap (map entries') (range-suc lo m)
      ∙ map-append entries' (range lo m) ((lo + m) ∷ [])
      ∙ ap (λ q. map entries' (range lo m) ++ (q ∷ [])) last
      ∙ ap (λ xs. xs ++ (p ∷ []))
          (map-update_outside entries (write_pos l) p lo m (inr (omega (arith, ap write_pos e))))

  chunk_kept :
      (k : ℕ)
      → l ≢ k
      → l * 127 ≤ write_pos l
      → write_pos l < l * 127 + 127
      → k * 127 ≤ write_pos k
      → write_pos k ≤ k * 127 + 127
      → chunk entries' write_pos' k ≡ chunk entries write_pos k
  chunk_kept k ne h h' hk hk' =
      let same : write_pos' k ≡ write_pos k = ground arith in
      ap (λ w. map entries' (range (k * 127) (w - k * 127))) same
      ∙ map-update_outside entries (write_pos l) p (k * 127) (write_pos k - k * 127)
          (apart (dec_lt l k))
    where
      apart :
          Dec (l < k) → (write_pos l < k * 127) ⊎ (k * 127 + (write_pos k - k * 127) ≤ write_pos l)
      apart (yes lt) = inl (omega arith)
      apart (no ge) = inr (omega (arith, ne))

-- The cells below n are written, each to its line.
pub record Written (sub base : ℕ) (line_of : ℕ → ℕ) (before : LtpData) (n : ℕ) (write_pos : ℕ → ℕ)
    (d : LtpData) : Type 0 where
  pub started : (k : ℕ) → k < 127 → k * 127 ≤ write_pos k
  pub holds :
      (r c k : ℕ)
      → r < s
      → c < s
      → k < 127
      → count_cell (r, c) (chunk (d.csr_cells sub) write_pos k)
        ≡ to_bit (ltb (r * s + c) n && (line_of (r * s + c) == k))
  pub inside : (k : ℕ) → k < 127 → All InMatrix (chunk (d.csr_cells sub) write_pos k)
  pub forward :
      (f : ℕ)
      → d.fwd f ≡ (if ltb f n then joined (before.fwd f) sub (base + line_of f) else before.fwd f)
  pub others : (j x : ℕ) → j ≢ sub → d.csr_cells j x ≡ before.csr_cells j x
  pub offsets : d.csr_offsets ≡ before.csr_offsets

All-append_one :
    (xs : List Cell) (p : Cell) → All InMatrix xs → InMatrix p → All InMatrix (xs ++ (p ∷ []))
All-append_one [] p a h = (h, tt)
All-append_one (x ∷ xs) p a h = (a.0, All-append_one xs p a.1 h)

module _ (sub base : ℕ) (line_of : ℕ → ℕ) (before : LtpData) where
  module _ (n : ℕ) (write_pos : ℕ → ℕ) (d : LtpData)
      (w : Written sub base line_of before n write_pos d) (l : ℕ) (e : line_of n ≡ l) (hl : l < 127)
      (hn : n < 16129) (room : (k : ℕ) → k < 127 → write_pos k ≤ k * 127 + 127)
      (free : write_pos l < l * 127 + 127) where
    abbrev next : LtpData
    next = write_entry sub (base + l) (write_pos l) n d

    next-csr_cells : next.csr_cells sub ≡ update (d.csr_cells sub) (write_pos l) (n / s, n % s)
    unfolding write_entry
    next-csr_cells = ground arith

    next-chunk :
        (k : ℕ)
        → k < 127
        → chunk (next.csr_cells sub) (update write_pos l (write_pos l + 1)) k ≡ (
            if l == k
            then chunk (d.csr_cells sub) write_pos k ++ ((n / s, n % s) ∷ [])
            else chunk (d.csr_cells sub) write_pos k)
    next-chunk k hk =
        let old = chunk (d.csr_cells sub) write_pos k in
        let p : Cell = (n / s, n % s) in
        ap (λ f. chunk f (update write_pos l (write_pos l + 1)) k) next-csr_cells
        ∙ (elim (Bool-cases (l == k)) [
          | inl t ↦
              chunk_grown (d.csr_cells sub) write_pos l p k ((==_iff l k).0 t) (w.started k hk)
              ∙ ap (λ b. if b then old ++ (p ∷ []) else old) (sym t)
          | inr t ↦
              chunk_kept (d.csr_cells sub) write_pos l p k (ground arith) (w.started l hl) free
                (w.started k hk) (room k hk)
              ∙ ap (λ b. if b then old ++ (p ∷ []) else old) (sym t)
        ])

    next-Written :
        Written sub base line_of before (n + 1) (update write_pos l (write_pos l + 1)) next
    next-Written = record {
      started = λ k hk. ground (arith, w.started k hk);
      holds = λ r c k hr hc hk. rw (next-chunk k hk) (
          ground (
            arith,
            w.holds r c k hr hc hk,
            count_cell-append (r, c) (chunk (d.csr_cells sub) write_pos k) ((n / s, n % s) ∷ []),
          ));
      inside = λ k hk. rw (next-chunk k hk) (elim (Bool-cases (l == k)) [
        | inl t ↦ rw t (
            All-append_one (chunk (d.csr_cells sub) write_pos k) (n / s, n % s) (w.inside k hk)
              (omega arith))
        | inr t ↦ rw t (w.inside k hk)
      ]);
      forward = λ f. unfold write_entry in ground (arith, w.forward f);
      others = λ j x h. unfold write_entry in ground (arith, w.others j x h);
      offsets = unfold write_entry in w.offsets;
    }

  -- The rest of the loop, when every line has room for the cells that are still to come.
  pub fill_assigned-Written :
      (n : ℕ) (ls : List ℕ) (write_pos : ℕ → ℕ) (d : LtpData)
      → n + length ls ≡ 16129
      → ((i : ℕ) → i < length ls → get_or ls i 0 ≡ line_of (n + i))
      → All (λ l. l < 127) ls
      → ((k : ℕ) → k < 127 → write_pos k + count k ls ≡ k * 127 + 127)
      → Written sub base line_of before n write_pos d
      → (last : ℕ → ℕ) × ((k : ℕ) → k < 127 → last k ≡ k * 127 + 127)
        × Written sub base line_of before 16129 last (fill_assigned sub base n ls write_pos d)
  unfolding fill_assigned
  fill_assigned-Written n [] write_pos d size same lt room w = (
    write_pos,
    λ k hk. omega (arith, room k hk),
    subst (λ m. Written sub base line_of before m write_pos d) (omega arith) w,
  )
  fill_assigned-Written n (l ∷ ls) write_pos d size same lt room w =
      fill_assigned-Written (n + 1) ls (update write_pos l (write_pos l + 1))
        (write_entry sub (base + l) (write_pos l) n d) (omega arith)
        (λ i h.
          same (suc i) (omega arith) ∙ ap line_of {x = n + suc i} {y = n + 1 + i} (omega arith))
        lt.1 (λ k hk. ground (arith, room k hk))
        (next-Written n write_pos d w l
          (ap line_of {x = n} {y = n + 0} (omega arith) ∙ sym (same 0 (omega arith))) lt.0
          (omega arith) (λ k hk. omega (arith, room k hk)) (ground (arith, room l lt.0)))
