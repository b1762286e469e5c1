-- ===== src/Pipeline.antt =====
-- AsyncHashPipeline (include/decompress/Solvers/AsyncHashPipeline.h and
-- src/Decompress/Solvers/AsyncHashPipeline_*.cpp) as a step relation: the search submits matrices
-- and takes verified ones, and one thread verifies. A step is what happens under one lock, one
-- store of the atomic flag or one notification. The search submits nothing after shutdown, as in
-- EnumerationController_enumerateSolutionsLex.cpp.
pub mod Order
pub mod Finish
pub mod Hang
use crsce.Prelude.{
  ℕ, zero, suc, ◌+◌, ◌<◌, ◌≡◌, Bool, true, false, ◌&&◌, List, [], ◌∷◌, ◌++◌, length,
}
use crsce.Csm.{Csm}
use crsce.Lines.{s}

-- Where the verifier's thread is: before the test of its wait, between the test and the sleep (it
-- holds the lock of the pending queue), asleep, with a candidate, out of the loop, or ended.
pub data Thread : Type 0 where
  testing falling_asleep asleep : Thread
  holding : Csm → Thread
  leaving ended : Thread

-- Where the search's thread is: it has yet to notify after a submit or a shutdown, or not.
pub data Caller : Type 0 where
  free notifying : Caller

-- `submitted` and `delivered` are not fields of the class: they record the calls of submit, and what
-- tryNextVerified and nextVerified have returned.
pub record State : Type 0 where
  pub pending : List Csm
  pub verified : List Csm
  pub done : Bool
  pub verifier_done : Bool
  pub thread : Thread
  pub caller : Caller
  pub submitted : List Csm
  pub delivered : List Csm

unfoldable pub start : State
start = record {
  pending = [];
  verified = [];
  done = false;
  verifier_done = false;
  thread = testing;
  caller = free;
  submitted = [];
  delivered = [];
}

-- The loop over the rows of a candidate, from r on for n rows.
unfoldable pub rows_match : (ℕ → (ℕ → ℕ) → Bool) → Csm → ℕ → ℕ → Bool
rows_match verify_row m r zero = true
rows_match verify_row m r (suc n) = verify_row r (m.rows r) && rows_match verify_row m (r + 1) n

unfoldable pub all_match : (ℕ → (ℕ → ℕ) → Bool) → Csm → Bool
unfolding rows_match
all_match verify_row m = rows_match verify_row m 0 s

-- notify_one on the condition that the verifier sleeps on.
unfoldable pub notified : Thread → Thread
notified asleep = testing
notified t = t

-- The push of submit, under the lock.
abbrev pub submitted_to : Csm → State → State
submitted_to m st = record st {
  pending = st.pending ++ (m ∷ []);
  caller = notifying;
  submitted = st.submitted ++ (m ∷ []);
}

-- The pop of nextVerified and tryNextVerified, which return m.
abbrev pub popped : Csm → List Csm → State → State
popped m rest st = record st { verified = rest; delivered = st.delivered ++ (m ∷ []) }

-- The store of shutdown.
abbrev pub shut : State → State
shut st = record st { done = true; caller = notifying }

module _ (verify_row : ℕ → (ℕ → ℕ) → Bool) (max_pending : ℕ) where
  -- The verifier's thread.
  pub data Verifies : State → State → Type 0 where
    test_fails :
        (st : State)
        → st.thread ≡ testing
        → st.pending ≡ []
        → st.done ≡ false
        → Verifies st (record st { thread = falling_asleep })
    sleep : (st : State) → st.thread ≡ falling_asleep → Verifies st (record st { thread = asleep })
    take_pending :
        (st : State) (m : Csm) (rest : List Csm)
        → st.thread ≡ testing
        → st.pending ≡ m ∷ rest
        → Verifies st (record st { thread = holding m; pending = rest })
    accept :
        (st : State) (m : Csm)
        → st.thread ≡ holding m
        → all_match verify_row m ≡ true
        → Verifies st (record st { thread = testing; verified = st.verified ++ (m ∷ []) })
    reject :
        (st : State) (m : Csm)
        → st.thread ≡ holding m
        → all_match verify_row m ≡ false
        → Verifies st (record st { thread = testing })
    leave :
        (st : State)
        → st.thread ≡ testing
        → st.pending ≡ []
        → st.done ≡ true
        → Verifies st (record st { thread = leaving })
    end :
        (st : State)
        → st.thread ≡ leaving
        → Verifies st (record st { thread = ended; verifier_done = true })

  -- The search. The push of submit takes the lock of the pending queue; the store of shutdown and the
  -- notifications do not. A spurious wake-up is a step of the environment.
  pub data Calls : State → State → Type 0 where
    submit :
        (st : State) (m : Csm)
        → st.caller ≡ free
        → st.done ≡ false
        → length st.pending < max_pending
        → ¬ (st.thread ≡ falling_asleep)
        → Calls st (submitted_to m st)
    next_verified :
        (st : State) (m : Csm) (rest : List Csm)
        → st.caller ≡ free
        → st.verified ≡ m ∷ rest
        → Calls st (popped m rest st)
    shutdown : (st : State) → st.caller ≡ free → Calls st (shut st)
    notify :
        (st : State)
        → st.caller ≡ notifying
        → Calls st (record st { caller = free; thread = notified st.thread })
    spurious : (st : State) → st.thread ≡ asleep → Calls st (record st { thread = testing })

  pub data Reach (first : State) : State → Type 0 where
    here : Reach first first
    verifies : {st st' : State} → Reach first st → Verifies st st' → Reach first st'
    calls : {st st' : State} → Reach first st → Calls st st' → Reach first st'
