-- ===== src/Pipeline/Order.antt =====
-- What the pipeline delivers: the invariant of its queues.
use crsce.Prelude.{
  ℕ, ◌≤◌, ◌≡◌, ◌↔◌, subst, refl, sym, ap, ◌∙◌, arith, Bool, true, false, List, [], ◌∷◌, ◌++◌,
  append_assoc, append-nil, length, length-append,
}
use crsce.Csm.{Csm}
use crsce.Pipeline.{
  Thread, testing, falling_asleep, asleep, holding, leaving, ended, State, start, all_match,
  notified, Verifies, Calls, Reach, test_fails, sleep, take_pending, accept, reject, leave, end,
  submit, next_verified, shutdown, notify, spurious, here, verifies, calls,
}

-- The matrices that match, in order.
unfoldable pub matching : (ℕ → (ℕ → ℕ) → Bool) → List Csm → List Csm
matching verify_row [] = []
matching verify_row (m ∷ ms) = elim (all_match verify_row m) [
  | true ↦ m ∷ matching verify_row ms
  | false ↦ matching verify_row ms
]

-- The candidate that the verifier holds.
abbrev held : Thread → List Csm
held (holding m) = m ∷ []
held t = []

-- The verifier is out of its loop.
abbrev pub Left : Thread → Type 0
Left leaving = Unit {0}
Left ended = Unit {0}
Left t = ⊥

module _ (verify_row : ℕ → (ℕ → ℕ) → Bool) (max_pending : ℕ) where
  pub matching-append :
      (xs ys : List Csm)
      → matching verify_row (xs ++ ys) ≡ matching verify_row xs ++ matching verify_row ys
  unfolding matching
  matching-append [] ys = refl
  matching-append (x ∷ xs) ys = ground (arith, matching-append xs ys)

  pub record IsOrdered (st : State) : Type 0 where
    pub right :
        matching verify_row st.submitted
        ≡ st.delivered ++ (st.verified ++ matching verify_row (held st.thread ++ st.pending))
    pub bounded : length st.pending ≤ max_pending
    pub drained : Left st.thread → (st.pending ≡ []) × (st.done ≡ true)
    pub last : st.verifier_done ≡ true → Left st.thread

  -- The thread of a state by an equation for it.
  from_thread :
      {st : State} {t : Thread}
      → st.thread ≡ t
      → IsOrdered st
      → matching verify_row st.submitted
        ≡ st.delivered ++ (st.verified ++ matching verify_row (held t ++ st.pending))
  from_thread {st} e ok =
      ok.right
      ∙ ap (λ x. st.delivered ++ (st.verified ++ matching verify_row (held x ++ st.pending))) e

  last_from :
      {st : State} {t : Thread} → st.thread ≡ t → IsOrdered st → st.verifier_done ≡ true → Left t
  last_from e ok d = subst Left e (ok.last d)

  pub matching-accepts :
      (m : Csm) (ms : List Csm)
      → all_match verify_row m ≡ true
      → matching verify_row (m ∷ ms) ≡ m ∷ matching verify_row ms
  unfolding matching
  matching-accepts m ms good = ground (arith, good)

  pub matching-rejects :
      (m : Csm) (ms : List Csm)
      → all_match verify_row m ≡ false
      → matching verify_row (m ∷ ms) ≡ matching verify_row ms
  unfolding matching
  matching-rejects m ms bad = ground (arith, bad)

  Verifies-IsOrdered :
      {st st' : State} → Verifies verify_row max_pending st st' → IsOrdered st → IsOrdered st'
  Verifies-IsOrdered (test_fails st t p d) ok = record {
    right = from_thread t ok;
    bounded = ok.bounded;
    drained = λ l. absurd l;
    last = λ e. last_from t ok e;
  }
  Verifies-IsOrdered (sleep st t) ok = record {
    right = from_thread t ok;
    bounded = ok.bounded;
    drained = λ l. absurd l;
    last = λ e. last_from t ok e;
  }
  Verifies-IsOrdered (take_pending st m rest t p) ok = record {
    right = from_thread t ok ∙ ap (λ ps. st.delivered ++ (st.verified ++ matching verify_row ps)) p;
    bounded = omega (arith, ok.bounded, ap length p);
    drained = λ l. absurd l;
    last = λ e. last_from t ok e;
  }
  Verifies-IsOrdered (accept st m t good) ok = record {
    right =
        from_thread t ok
        ∙ ap (λ ms. st.delivered ++ (st.verified ++ ms)) (matching-accepts m st.pending good)
        ∙ ap (st.delivered ++◌)
            (sym (append_assoc st.verified (m ∷ []) (matching verify_row st.pending)));
    bounded = ok.bounded;
    drained = λ l. absurd l;
    last = λ e. last_from t ok e;
  }
  Verifies-IsOrdered (reject st m t bad) ok = record {
    right =
        from_thread t ok
        ∙ ap (λ ms. st.delivered ++ (st.verified ++ ms)) (matching-rejects m st.pending bad);
    bounded = ok.bounded;
    drained = λ l. absurd l;
    last = λ e. last_from t ok e;
  }
  Verifies-IsOrdered (leave st t p d) ok = record {
    right = from_thread t ok;
    bounded = ok.bounded;
    drained = λ l. (p, d);
    last = λ e. tt;
  }
  Verifies-IsOrdered (end st t) ok = record {
    right = from_thread t ok;
    bounded = ok.bounded;
    drained = λ l. ok.drained (subst Left (sym t) tt);
    last = λ e. tt;
  }

  held-notified : (t : Thread) → held (notified t) ≡ held t
  unfolding notified
  held-notified testing = refl
  held-notified falling_asleep = refl
  held-notified asleep = refl
  held-notified (holding m) = refl
  held-notified leaving = refl
  held-notified ended = refl

  Left-notified : (t : Thread) → Left (notified t) ↔ Left t
  unfolding notified
  Left-notified testing = (λ l. l, λ l. l)
  Left-notified falling_asleep = (λ l. l, λ l. l)
  Left-notified asleep = (λ l. l, λ l. l)
  Left-notified (holding m) = (λ l. l, λ l. l)
  Left-notified leaving = (λ l. l, λ l. l)
  Left-notified ended = (λ l. l, λ l. l)

  Calls-IsOrdered :
      {st st' : State} → Calls verify_row max_pending st st' → IsOrdered st → IsOrdered st'
  Calls-IsOrdered (submit st m free_caller open_done room unlocked) ok = record {
    right = simp (
      arith,
      matching-append st.submitted (m ∷ []),
      ok.right,
      matching-append (held st.thread) st.pending,
      matching-append (held st.thread) (st.pending ++ (m ∷ [])),
      matching-append st.pending (m ∷ []),
      append_assoc,
    );
    bounded = omega (arith, room, length-append st.pending (m ∷ []));
    drained = λ l. absurd (ground (arith, (ok.drained l).1));
    last = ok.last;
  }
  Calls-IsOrdered (next_verified st m rest free_caller v) ok = record {
    right = ok.right ∙ simp (v, append_assoc);
    bounded = ok.bounded;
    drained = ok.drained;
    last = ok.last;
  }
  Calls-IsOrdered (shutdown st free_caller) ok = record {
    right = ok.right;
    bounded = ok.bounded;
    drained = λ l. ((ok.drained l).0, refl);
    last = ok.last;
  }
  Calls-IsOrdered (notify st late) ok = record {
    right =
        ok.right
        ∙ ap (λ h. st.delivered ++ (st.verified ++ matching verify_row (h ++ st.pending)))
            (sym (held-notified st.thread));
    bounded = ok.bounded;
    drained = λ l. ok.drained ((Left-notified st.thread).0 l);
    last = λ e. (Left-notified st.thread).1 (ok.last e);
  }
  Calls-IsOrdered (spurious st t) ok = record {
    right = from_thread t ok;
    bounded = ok.bounded;
    drained = λ l. absurd l;
    last = λ e. last_from t ok e;
  }

  pub Reach-IsOrdered :
      {first st : State} → IsOrdered first → Reach verify_row max_pending first st → IsOrdered st
  Reach-IsOrdered ok here = ok
  Reach-IsOrdered ok (verifies r step) = Verifies-IsOrdered step (Reach-IsOrdered ok r)
  Reach-IsOrdered ok (calls r step) = Calls-IsOrdered step (Reach-IsOrdered ok r)

  Left-held : (t : Thread) → Left t → held t ≡ []
  Left-held testing l = refl
  Left-held falling_asleep l = refl
  Left-held asleep l = refl
  Left-held (holding m) l = absurd l
  Left-held leaving l = refl
  Left-held ended l = refl

  pub start-IsOrdered : IsOrdered start
  unfolding matching start
  start-IsOrdered = record {
    right = refl;
    bounded = omega arith;
    drained = λ l. absurd l;
    last = λ e. ground (arith, e);
  }

  -- In every state that is reached from the start: once the verifier is done and no verified matrix
  -- is left, what was delivered is the submitted matrices whose rows all match, in the order in which
  -- they were submitted.
  pub delivered-submitted :
      {st : State}
      → Reach verify_row max_pending start st
      → st.verifier_done ≡ true
      → st.verified ≡ []
      → st.delivered ≡ matching verify_row st.submitted
  unfolding matching
  delivered-submitted {st} r over empty = sym (
      ok.right
      ∙ ap (λ v. st.delivered ++ (v ++ matching verify_row (held st.thread ++ st.pending))) empty
      ∙ ap (λ h. st.delivered ++ matching verify_row (h ++ st.pending)) (Left-held st.thread gone)
      ∙ ap (λ ms. st.delivered ++ matching verify_row ms) (ok.drained gone).0
      ∙ append-nil st.delivered)
    where
      ok : IsOrdered st
      ok = Reach-IsOrdered start-IsOrdered r

      gone : Left st.thread
      gone = ok.last over
