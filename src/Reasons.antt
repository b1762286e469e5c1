-- ===== src/Reasons.antt =====
-- ReasonGraph (include/decompress/Solvers/ReasonGraph.h, CellAntecedent.h and
-- src/Decompress/Solvers/ReasonGraph_*.cpp): why each cell has its value. The table is row-major.
pub mod Table
use crsce.Prelude.{ℕ, ◌+◌, ◌*◌, Bool, true, false, update}
use crsce.Store.{flat}

abbrev pub no_antecedent : ℕ
no_antecedent = 4294967295

pub record CellAntecedent : Type 0 where
  pub stack_depth : ℕ
  pub antecedent_line : ℕ
  pub is_decision : Bool
  pub is_assigned : Bool

abbrev pub no_reason : CellAntecedent
no_reason = record {
  stack_depth = 0;
  antecedent_line = no_antecedent;
  is_decision = false;
  is_assigned = false;
}

pub record ReasonGraph : Type 0 where
  pub table : ℕ → CellAntecedent

unfoldable pub new_reason_graph : ReasonGraph
new_reason_graph = record { table = λ i. no_reason }

unfoldable pub record_decision : ℕ → ℕ → ℕ → ReasonGraph → ReasonGraph
record_decision r c stack_depth g = record {
  table = update g.table (flat r c) (record {
    stack_depth = stack_depth;
    antecedent_line = no_antecedent;
    is_decision = true;
    is_assigned = true;
  });
}

unfoldable pub record_propagated : ℕ → ℕ → ℕ → ℕ → ReasonGraph → ReasonGraph
record_propagated r c stack_depth flat_line_idx g = record {
  table = update g.table (flat r c) (record {
    stack_depth = stack_depth;
    antecedent_line = flat_line_idx;
    is_decision = false;
    is_assigned = true;
  });
}

unfoldable pub unrecord : ℕ → ℕ → ReasonGraph → ReasonGraph
unrecord r c g = record { table = update g.table (flat r c) no_reason }

unfoldable pub get_antecedent : ReasonGraph → ℕ → ℕ → CellAntecedent
get_antecedent g r c = g.table (flat r c)
