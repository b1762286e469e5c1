-- ===== src/Pipeline/Finish.antt =====
-- The verifier's thread, awake after shutdown.
use crsce.Prelude.{
  ℕ, ◌≡◌, refl, sym, ap, ◌∙◌, Bool, true, false, List, [], ◌∷◌, ◌++◌, append-nil, append_assoc,
}
use crsce.Csm.{Csm}
use crsce.Pipeline.{
  testing, holding, leaving, ended, State, all_match, Verifies, take_pending, accept, reject, leave,
  end,
}
use crsce.Pipeline.Order.{matching, matching-append, matching-accepts, matching-rejects}

module _ (verify_row : ℕ → (ℕ → ℕ) → Bool) (max_pending : ℕ) where
  -- Steps of the verifier's thread alone.
  pub data Runs : State → State → Type 0 where
    stay : {st : State} → Runs st st
    step :
        {st st' st'' : State}
        → Verifies verify_row max_pending st st'
        → Runs st' st''
        → Runs st st''

  Runs-trans : {st st' st'' : State} → Runs st st' → Runs st' st'' → Runs st st''
  Runs-trans stay rs = rs
  Runs-trans (step v r) rs = step v (Runs-trans r rs)

  -- One candidate is taken and verified.
  record IsChecked (st : State) (m : Csm) (ms : List Csm) (st' : State) : Type 0 where
    run : Runs st st'
    thread : st'.thread ≡ testing
    pending : st'.pending ≡ ms
    done : st'.done ≡ true
    verified : st'.verified ≡ st.verified ++ matching verify_row (m ∷ [])
    delivered : st'.delivered ≡ st.delivered

  check_one :
      (st : State) (m : Csm) (ms : List Csm)
      → st.pending ≡ m ∷ ms
      → st.thread ≡ testing
      → st.done ≡ true
      → (st' : State) × IsChecked st m ms st'
  unfolding matching
  check_one st m ms p t d = decide (all_match verify_row m) refl
    where
      taken : State
      taken = record st { thread = holding m; pending = ms }

      decide : (b : Bool) → all_match verify_row m ≡ b → (st' : State) × IsChecked st m ms st'
      decide true e = (
        record taken { thread = testing; verified = st.verified ++ (m ∷ []) },
        record {
          run = step (take_pending st m ms t p) (step (accept taken m refl e) stay);
          thread = refl;
          pending = refl;
          done = d;
          verified = ap (st.verified ++◌) (sym (matching-accepts _ 0 m [] e));
          delivered = refl;
        },
      )
      decide false e = (
        record taken { thread = testing },
        record {
          run = step (take_pending st m ms t p) (step (reject taken m refl e) stay);
          thread = refl;
          pending = refl;
          done = d;
          verified =
              sym (ap (st.verified ++◌) (matching-rejects _ 0 m [] e) ∙ append-nil st.verified);
          delivered = refl;
        },
      )

  -- The verifier is done with all that was pending.
  pub record IsFinished (st st' : State) : Type 0 where
    pub run : Runs st st'
    pub over : st'.verifier_done ≡ true
    pub emptied : st'.pending ≡ []
    pub found : st'.verified ≡ st.verified ++ matching verify_row st.pending
    pub kept : st'.delivered ≡ st.delivered

  finish_from :
      (ps : List Csm) (st : State)
      → st.pending ≡ ps
      → st.thread ≡ testing
      → st.done ≡ true
      → (st' : State) × IsFinished st st'
  unfolding matching
  finish_from [] st p t d = (
    record st { thread = ended; verifier_done = true },
    record {
      run = step (leave st t p d) (step (end (record st { thread = leaving }) refl) stay);
      over = refl;
      emptied = p;
      found = sym (ap (λ ps. st.verified ++ matching verify_row ps) p ∙ append-nil st.verified);
      kept = refl;
    },
  )
  finish_from (m ∷ ms) st p t d =
      let one = check_one st m ms p t d in
      let next = finish_from ms one.0 one.1.pending one.1.thread one.1.done in
      (
        next.0,
        record {
          run = Runs-trans one.1.run next.1.run;
          over = next.1.over;
          emptied = next.1.emptied;
          found =
              next.1.found
              ∙ ap (λ ps. one.0.verified ++ matching verify_row ps) one.1.pending
              ∙ ap (◌++ matching verify_row ms) one.1.verified
              ∙ append_assoc st.verified (matching verify_row (m ∷ [])) (matching verify_row ms)
              ∙ ap (st.verified ++◌) (sym (matching-append _ 0 (m ∷ []) ms))
              ∙ ap (λ ps. st.verified ++ matching verify_row ps) (sym p);
          kept = next.1.kept ∙ one.1.delivered;
        },
      )

  -- If the thread tests its wait after shutdown, then the verifier's own steps lead to its end: it is
  -- done, nothing is pending, the queue of verified matrices is longer by the pending ones whose rows
  -- all match, in order, and nothing is delivered meanwhile.
  pub finish-pending :
      (st : State) → st.thread ≡ testing → st.done ≡ true → (st' : State) × IsFinished st st'
  finish-pending st t d = finish_from st.pending st refl t d
