-- ===== src/Tests/Threads.antt =====
-- Witnesses for Pipeline: a run of the two threads.
use crsce.Prelude.{ℕ, ◌≡◌, refl, arith, Bool, true, ltb, [], ◌∷◌}
use crsce.Csm.{Csm}
use crsce.Pipeline.{
  testing, falling_asleep, ended, State, start, all_match, rows_match, notified, Reach,
  take_pending, accept, leave, end, submit, next_verified, shutdown, notify, here, verifies, calls,
}
use crsce.Pipeline.Order.{matching, delivered-submitted}
use crsce.Pipeline.Finish.{IsFinished, finish-pending}

-- A verifier that accepts a row whose first word is 0.
abbrev zero_word : ℕ → (ℕ → ℕ) → Bool
zero_word r row = ltb (row 0) 1

abbrev zeros : Csm
zeros = record { rows = λ r w. 0 }

-- One matrix is submitted, and the search has notified.
abbrev one_pending : State
one_pending = record start { pending = zeros ∷ []; submitted = zeros ∷ [] }

one_pending-Reach : Reach zero_word 8 start one_pending
unfolding start notified
one_pending-Reach =
    calls (calls here (submit _ zeros refl refl (omega arith) awake)) (notify _ refl)
  where
    awake : ¬ (testing ≡ falling_asleep)
    awake e = ground (arith, e)

-- It is verified and delivered, and the verifier ends after shutdown.
abbrev all_done : State
all_done = record start {
  done = true;
  verifier_done = true;
  thread = ended;
  submitted = zeros ∷ [];
  delivered = zeros ∷ [];
}

-- It is verified and delivered.
abbrev one_delivered : State
one_delivered = record start { submitted = zeros ∷ []; delivered = zeros ∷ [] }

one_delivered-Reach : Reach zero_word 8 start one_delivered
unfolding start notified all_match rows_match
one_delivered-Reach =
    calls
      (verifies (verifies one_pending-Reach (take_pending _ zeros [] refl refl))
        (accept _ zeros refl refl))
      (next_verified _ zeros [] refl refl)

all_done-Reach : Reach zero_word 8 start all_done
unfolding start notified all_match rows_match
all_done-Reach =
    verifies
      (verifies (calls (calls one_delivered-Reach (shutdown _ refl)) (notify _ refl))
        (leave _ refl refl refl))
      (end _ refl)

delivered-submitted_example : zeros ∷ [] ≡ matching zero_word (zeros ∷ [])
unfolding start
delivered-submitted_example = delivered-submitted zero_word 8 all_done-Reach refl refl

abbrev after_shutdown : State
after_shutdown = record one_pending { done = true }

finish-pending_example : (st' : State) × IsFinished zero_word 8 after_shutdown st'
unfolding start
finish-pending_example = finish-pending zero_word 8 after_shutdown refl refl
