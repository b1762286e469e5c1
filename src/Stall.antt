-- ===== src/Stall.antt =====
-- StallDetector (include/decompress/Solvers/StallDetector.h and
-- src/Decompress/Solvers/StallDetector_update.cpp): the probe depth k, moved by the progress of the
-- search at checkpoints every 2^20 iterations.
pub mod Depth
use crsce.Prelude.{
  ℕ, ◌+◌, ◌-◌, ◌%◌, ◌^◌, max, Bool, true, false, ◌&&◌, List, [], ◌∷◌, ltb, leb, ◌==◌, if◌then◌else◌,
  bit_and,
}

abbrev pub checkpoint_interval : ℕ
checkpoint_interval = 1048576

abbrev pub stall_threshold : ℕ
stall_threshold = 3

abbrev pub recovery_threshold : ℕ
recovery_threshold = 6

abbrev pub min_k : ℕ
min_k = 0

abbrev pub max_k : ℕ
max_k = 4

pub record Detector : Type 0 where
  pub iteration_count : ℕ
  pub window_max_depth : ℕ
  pub prev_window_max_depth : ℕ
  pub stall_count : ℕ
  pub recovery_count : ℕ
  pub current_k : ℕ
  pub escalations : ℕ
  pub deescalations : ℕ

unfoldable pub new_detector : Detector
new_detector = record {
  iteration_count = 0;
  window_max_depth = 0;
  prev_window_max_depth = 0;
  stall_count = 0;
  recovery_count = 0;
  current_k = 1;
  escalations = 0;
  deescalations = 0;
}

-- A window without progress; the counts are uint8, the events uint64.
unfoldable pub stall : Detector → Detector
stall d =
    let count = (d.stall_count + 1) % 256 in
    if leb stall_threshold count && ltb d.current_k max_k
    then record d {
      current_k = (d.current_k + 1) % 256;
      escalations = (d.escalations + 1) % 2 ^ 64;
      stall_count = 0;
      recovery_count = 0;
    }
    else record d { stall_count = count; recovery_count = 0 }

-- A window with progress.
unfoldable pub recover : Detector → Detector
recover d =
    let count = (d.recovery_count + 1) % 256 in
    if leb recovery_threshold count && ltb min_k d.current_k
    then record d {
      current_k = (d.current_k + 255) % 256;
      deescalations = (d.deescalations + 1) % 2 ^ 64;
      stall_count = 0;
      recovery_count = 0;
    }
    else record d { recovery_count = count; stall_count = 0 }

unfoldable pub checkpoint : Detector → Detector
unfolding stall recover
checkpoint d =
    let d' = if leb d.window_max_depth d.prev_window_max_depth then stall d else recover d in
    record d' { prev_window_max_depth = d'.window_max_depth; window_max_depth = 0 }

unfoldable pub update_depth : ℕ → Detector → Detector
unfolding checkpoint
update_depth depth d =
    let d' : Detector = record d {
      window_max_depth = max d.window_max_depth depth;
      iteration_count = (d.iteration_count + 1) % 2 ^ 64;
    } in
    let after = checkpoint d' in
    if bit_and d'.iteration_count (checkpoint_interval - 1) == 0 then after else d'

-- The updates of a search, in order.
unfoldable pub updates : List ℕ → Detector → Detector
unfolding update_depth
updates [] d = d
updates (depth ∷ depths) d = updates depths (update_depth depth d)
