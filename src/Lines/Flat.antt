-- ===== src/Lines/Flat.antt =====
-- The flat numbering of the lines and its inverse.
use crsce.Prelude.{ℕ, ◌<◌, ◌≡◌, arith}
use crsce.Lines.{LineId, total_lines, line_index, flat_index_to_line_id, IsLine}

-- A line's flat number lies in the statistics array, and `flatIndexToLineID` gives the line back.
pub flat_index_to_line_id-line_index :
    (l : LineId)
    → IsLine l
    → (line_index l < total_lines) × (flat_index_to_line_id (line_index l) ≡ l)
unfolding line_index flat_index_to_line_id
flat_index_to_line_id-line_index l h = ground arith

-- Every flat number below kTotalLines is the number of a line of the system.
pub line_index-flat_index_to_line_id :
    (i : ℕ)
    → i < total_lines
    → IsLine (flat_index_to_line_id i) × (line_index (flat_index_to_line_id i) ≡ i)
unfolding line_index flat_index_to_line_id
line_index-flat_index_to_line_id i h = ground arith
