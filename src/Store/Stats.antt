-- ===== src/Store/Stats.antt =====
-- What a step over the lines of a cell does to the statistics of one line.
use crsce.Prelude.{ℕ, ◌+◌, ◌-◌, ◌≤◌, ◌<◌, ◌≡◌, arith, List, [], ◌∷◌, count, update}
use crsce.Store.{LineStat, for_lines, dec_unknown, inc_unknown, dec_assigned, inc_assigned}

pub for_lines-dec_unknown :
    (is : List ℕ) (stats : ℕ → LineStat) (i : ℕ)
    → count i is ≤ (stats i).unknown
    → (stats i).unknown < 65536
    → for_lines dec_unknown is stats i
      ≡ record (stats i) { unknown = (stats i).unknown - count i is }
unfolding for_lines
for_lines-dec_unknown [] stats i h w = ground arith
for_lines-dec_unknown (j ∷ is) stats i h w =
    ground (arith, for_lines-dec_unknown is (update stats j (dec_unknown (stats j))) i)

pub for_lines-inc_unknown :
    (is : List ℕ) (stats : ℕ → LineStat) (i : ℕ)
    → (stats i).unknown + count i is < 65536
    → for_lines inc_unknown is stats i
      ≡ record (stats i) { unknown = (stats i).unknown + count i is }
unfolding for_lines
for_lines-inc_unknown [] stats i h = ground arith
for_lines-inc_unknown (j ∷ is) stats i h =
    ground (arith, for_lines-inc_unknown is (update stats j (inc_unknown (stats j))) i)

pub for_lines-dec_assigned :
    (is : List ℕ) (stats : ℕ → LineStat) (i : ℕ)
    → count i is ≤ (stats i).assigned
    → (stats i).assigned < 65536
    → for_lines dec_assigned is stats i
      ≡ record (stats i) { assigned = (stats i).assigned - count i is }
unfolding for_lines
for_lines-dec_assigned [] stats i h w = ground arith
for_lines-dec_assigned (j ∷ is) stats i h w =
    ground (arith, for_lines-dec_assigned is (update stats j (dec_assigned (stats j))) i)

pub for_lines-inc_assigned :
    (is : List ℕ) (stats : ℕ → LineStat) (i : ℕ)
    → (stats i).assigned + count i is < 65536
    → for_lines inc_assigned is stats i
      ≡ record (stats i) { assigned = (stats i).assigned + count i is }
unfolding for_lines
for_lines-inc_assigned [] stats i h = ground arith
for_lines-inc_assigned (j ∷ is) stats i h =
    ground (arith, for_lines-inc_assigned is (update stats j (inc_assigned (stats j))) i)
