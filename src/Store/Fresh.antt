-- ===== src/Store/Fresh.antt =====
-- The store that the constructor makes (ConstraintStore_ctor.cpp).
use crsce.Prelude.{ℕ, get_or, ◌<◌, ◌≡◌, refl, arith, List, [], ◌∷◌, ◌∙◌, sym, length}
use crsce.Bits.{get_bit-zero_word}
use crsce.Lines.{
  Ltp, IsLtp, Cell, total_lines, line_len, flat_index_to_line_id, LineType, row, column, diagonal,
  anti_diagonal, ltp1, ltp2, LineId, line_index, IsLine,
}
use crsce.Lines.Flat.{line_index-flat_index_to_line_id}
use crsce.Lines.Extent.{length-cells_on_line}
use crsce.Store.{unassigned, new_store}
use crsce.Store.Tally.{tally, unknown_on, ones_on}
use crsce.Store.Consistent.{Consistent, line_cells}

unknown_on_fresh : (ps : List Cell) → unknown_on (λ i. unassigned) ps ≡ length ps
unfolding tally
unknown_on_fresh [] = refl
unknown_on_fresh ((r, c) ∷ ps) = omega (arith, unknown_on_fresh ps)

ones_on_fresh : (ps : List Cell) → ones_on (λ i. unassigned) ps ≡ 0
unfolding tally
ones_on_fresh [] = refl
ones_on_fresh ((r, c) ∷ ps) = omega (arith, ones_on_fresh ps)

module _ (rows cols diags antis ltp1s ltp2s : List ℕ) where
  fresh_unknown :
      (i : ℕ)
      → i < total_lines
      → ((new_store rows cols diags antis ltp1s ltp2s).stats i).unknown
        ≡ line_len (flat_index_to_line_id i)
  unfolding new_store line_len flat_index_to_line_id
  fresh_unknown i h = ground arith

  -- A fresh store is consistent.
  pub new_store-Consistent :
      (t : Ltp) → IsLtp t → Consistent t (new_store rows cols diags antis ltp1s ltp2s)
  new_store-Consistent t ok = record {
    unknown_right = λ i h.
        fresh_unknown i h
        ∙ sym (length-cells_on_line t ok _ (line_index-flat_index_to_line_id i h).0)
        ∙ sym (unfold new_store in unknown_on_fresh (line_cells t i));
    assigned_right = λ i h. unfold new_store in ground (arith, ones_on_fresh (line_cells t i));
    row_bit = λ r c h. unfold new_store in get_bit-zero_word _;
    assigned_bit = λ r c h. unfold new_store in get_bit-zero_word _;
    row_word = λ r w. unfold new_store in omega arith;
    assigned_word = λ r w. unfold new_store in omega arith;
  }

  -- The sums that the constructor is given for a family of lines.
  abbrev pub sums_of : LineType → List ℕ
  sums_of row = rows
  sums_of column = cols
  sums_of diagonal = diags
  sums_of anti_diagonal = antis
  sums_of ltp1 = ltp1s
  sums_of ltp2 = ltp2s
  sums_of _ = []

  -- A store that is fresh from the constructor is consistent and has no cell assigned, and the
  -- statistics of each line of the system are the entry of the line's own vector of sums as its target
  -- (0 where the vector is too short), the line's length as its unknown cells, and no assigned ones.
  pub new_store_lem :
      (t : Ltp)
      → IsLtp t
      → Consistent t (new_store rows cols diags antis ltp1s ltp2s)
        × ((i : ℕ) → (new_store rows cols diags antis ltp1s ltp2s).cells i ≡ unassigned)
        × ((l : LineId)
            → IsLine l
            → (new_store rows cols diags antis ltp1s ltp2s).stats (line_index l) ≡ record {
              target = get_or (sums_of l.type) l.index 0;
              unknown = line_len l;
              assigned = 0;
            })
  unfolding new_store line_index line_len
  new_store_lem t ok = (new_store-Consistent t ok, λ i. refl, λ l h. by_type l.type l.index h)
    where
      by_type :
          (ty : LineType) (k : ℕ)
          → IsLine (record { type = ty; index = k })
          → (new_store rows cols diags antis ltp1s ltp2s).stats
              (line_index (record { type = ty; index = k }))
            ≡ record {
              target = get_or (sums_of ty) k 0;
              unknown = line_len (record { type = ty; index = k });
              assigned = 0;
            }
      by_type row k h = ground arith
      by_type column k h = ground arith
      by_type diagonal k h = ground arith
      by_type anti_diagonal k h = ground arith
      by_type ltp1 k h = ground arith
      by_type ltp2 k h = ground arith
      by_type _ k h = absurd (omega arith)
