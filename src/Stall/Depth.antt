-- ===== src/Stall/Depth.antt =====
-- The probe depth stays in its range and is what the events say.
use crsce.Prelude.{
  ℕ, ◌+◌, ◌-◌, ◌%◌, ◌^◌, ◌≤◌, ◌<◌, ◌≡◌, refl, arith, max, List, [], ◌∷◌, leb, ◌==◌, length, bit_and,
  Bool-cases, inl, inr,
}
use crsce.Stall.{
  Detector, new_detector, min_k, max_k, stall, recover, checkpoint, update_depth, updates,
  checkpoint_interval,
}

-- After n updates: the depth is in range, the escalations less the de-escalations are its distance
-- from 1, and there was at most one event for each update.
pub record InRange (n : ℕ) (d : Detector) : Type 0 where
  pub low : min_k ≤ d.current_k
  pub high : d.current_k ≤ max_k
  pub balance : d.current_k + d.deescalations ≡ 1 + d.escalations
  pub events : d.escalations + d.deescalations ≤ n

stall-InRange : (n : ℕ) (d : Detector) → n < 2 ^ 64 - 1 → InRange n d → InRange (n + 1) (stall d)
unfolding stall
stall-InRange n d h k = record {
  low = omega arith;
  high = ground (arith, k.high);
  balance = ground (arith, k.high, k.balance, k.events);
  events = ground (arith, k.events);
}

recover-InRange :
    (n : ℕ) (d : Detector) → n < 2 ^ 64 - 1 → InRange n d → InRange (n + 1) (recover d)
unfolding recover
recover-InRange n d h k = record {
  low = omega arith;
  high = ground (arith, k.high);
  balance = ground (arith, k.high, k.balance, k.events);
  events = ground (arith, k.events);
}

InRange-later : (n : ℕ) (d : Detector) → InRange n d → InRange (n + 1) d
InRange-later n d k = record {
  low = k.low;
  high = k.high;
  balance = k.balance;
  events = omega (arith, k.events);
}

-- The depth and the events are all that matters.
InRange-same :
    (n : ℕ) (d d' : Detector)
    → d'.current_k ≡ d.current_k
    → d'.escalations ≡ d.escalations
    → d'.deescalations ≡ d.deescalations
    → InRange n d
    → InRange n d'
InRange-same n d d' e e' e'' k = record {
  low = omega arith;
  high = omega (arith, k.high);
  balance = omega (arith, k.balance);
  events = omega (arith, k.events);
}

checkpoint-InRange :
    (n : ℕ) (d : Detector) → n < 2 ^ 64 - 1 → InRange n d → InRange (n + 1) (checkpoint d)
unfolding checkpoint
checkpoint-InRange n d h k = elim (Bool-cases (leb d.window_max_depth d.prev_window_max_depth)) [
  | inl e ↦ rw e (InRange-same (n + 1) (stall d) _ refl refl refl (stall-InRange n d h k))
  | inr e ↦ rw e (InRange-same (n + 1) (recover d) _ refl refl refl (recover-InRange n d h k))
]

update_depth-InRange :
    (n depth : ℕ) (d : Detector)
    → n < 2 ^ 64 - 1
    → InRange n d
    → InRange (n + 1) (update_depth depth d)
unfolding update_depth
update_depth-InRange n depth d h k =
    let d' : Detector = record d {
      window_max_depth = max d.window_max_depth depth;
      iteration_count = (d.iteration_count + 1) % 2 ^ 64;
    } in
    let k' : InRange n d' = InRange-same n d d' refl refl refl k in
    elim (Bool-cases (bit_and d'.iteration_count (checkpoint_interval - 1) == 0)) [
      | inl e ↦ rw e (checkpoint-InRange n d' h k')
      | inr e ↦ rw e (InRange-later n d' k')
    ]

updates_from :
    (depths : List ℕ) (n : ℕ) (d : Detector)
    → n + length depths < 2 ^ 64
    → InRange n d
    → InRange (n + length depths) (updates depths d)
unfolding updates
updates_from [] n d h k = ap_range n (n + 0) d (omega arith) k
  where
    ap_range : (n m : ℕ) (d : Detector) → n ≤ m → InRange n d → InRange m d
    ap_range n m d le k = record {
      low = k.low;
      high = k.high;
      balance = k.balance;
      events = omega (arith, k.events);
    }
updates_from (depth ∷ depths) n d h k =
    let rest =
      updates_from depths (n + 1) (update_depth depth d) (omega arith)
        (update_depth-InRange n depth d (omega arith) k) in
    record {
      low = rest.low;
      high = rest.high;
      balance = rest.balance;
      events = omega (arith, rest.events);
    }

-- After any fewer than 2^64 updates of a new detector, the probe depth is at most 4, the escalations
-- less the de-escalations are its distance from 1, and there was at most one of them for each update.
pub updates-InRange :
    (depths : List ℕ)
    → length depths < 2 ^ 64
    → InRange (length depths) (updates depths new_detector)
unfolding new_detector
updates-InRange depths h =
    let k =
      updates_from depths 0 new_detector (omega arith)
        (record { low = omega arith; high = omega arith; balance = refl; events = omega arith }) in
    record { low = k.low; high = k.high; balance = k.balance; events = omega (arith, k.events) }
