-- ===== src/Shutdown/Signals.antt =====
-- Tasks that wait for the shutdown signal of core/src/shutdown.rs.
use avail_light.Prelude.{
  ℕ, ◌≡◌, true, not, ◌||◌, some, none, List, [], ◌∷◌, ◌++◌, ◌==◌, arith, retain,
}
use avail_light.Prelude.Sets.{contains, contains-append}
use avail_light.Shutdown.{
  Waker, pending, increment_delay_tokens, decrement_delay_tokens, shutdown, is_shutdown_triggered,
  delay_token, drop_trigger_token, poll_signal, poll_completed,
}
use avail_light.Shutdown.Protocol.{
  Call, trigger, take_token, clone_token, drop_token, drop_trigger, polls_signal, polls_completed,
  System, start, step, run, Inv, start-Inv, step-Inv, run-Inv,
}

contains-reregister :
    (w a : ℕ) (xs : List ℕ)
    → contains (retain (λ v. not (v == w)) xs ++ w ∷ []) a ≡ (contains xs a || w == a)
contains-reregister w a [] = ground arith
contains-reregister w a (x ∷ xs) = ground (arith, contains-reregister w a xs)

module _ {T : Type 0} where
  abbrev Kept : Waker → System T → Type 0
  Kept w s = (contains s.inner.on_shutdown_trigger w || contains s.woken w) ≡ true

  shutdown-Kept : (w : Waker) (s : System T) (q : T) → Kept w s → Kept w (step s (trigger q))
  unfolding step shutdown
  shutdown-Kept w s q k = ground (
    arith,
    contains-append s.woken [] w,
    contains-append s.woken s.inner.on_shutdown_trigger w,
    contains-append s.woken (s.inner.on_shutdown_trigger ++ s.inner.on_shutdown_complete) w,
    contains-append s.inner.on_shutdown_trigger s.inner.on_shutdown_complete w,
  )

  step-Kept : (w : Waker) (s : System T) (c : Call T) → Kept w s → Kept w (step s c)
  unfolding step shutdown delay_token increment_delay_tokens decrement_delay_tokens
      drop_trigger_token poll_signal poll_completed
  step-Kept w s (trigger q) k = shutdown-Kept w s q k
  step-Kept w s take_token k = ground arith
  step-Kept w s clone_token k = ground arith
  step-Kept w s drop_token k =
      ground (
        arith,
        contains-append s.woken s.inner.on_shutdown_complete w,
        contains-append s.woken [] w,
      )
  step-Kept w s (drop_trigger none) k = ground (arith, contains-append s.woken [] w)
  step-Kept w s (drop_trigger (some q)) k = shutdown-Kept w s q k
  step-Kept w s (polls_signal x) k =
      ground (arith, contains-reregister x w s.inner.on_shutdown_trigger)
  step-Kept w s (polls_completed x) k = ground arith

  run-Kept : (w : Waker) (s : System T) (cs : List (Call T)) → Kept w s → Kept w (run s cs)
  unfolding run
  run-Kept w s [] k = k
  run-Kept w s (c ∷ cs) k = run-Kept w (step s c) cs (step-Kept w s c k)

  registers :
      (w : Waker) (s : System T)
      → (poll_signal w s.inner).0 ≡ pending
      → Kept w (record (step s (polls_signal w)) { woken = [] })
  unfolding step poll_signal
  registers w s p = ground (arith, contains-reregister w w s.inner.on_shutdown_trigger)

  -- The system after a poll of `Signal` by a task, with the wakeups counted from there.
  abbrev pub after_poll_signal : List (Call T) → Waker → System T
  after_poll_signal cs w = record (step (run start cs) (polls_signal w)) { woken = [] }

  -- No wakeup for the signal is lost: a task that polled the signal after any history and was told
  -- to wait has been woken, after that poll, by any time at which the shutdown is triggered.
  pub triggered_wakes :
      (cs ds : List (Call T)) (w : Waker)
      → (poll_signal w (run start cs).inner).0 ≡ pending
      → is_shutdown_triggered (run (after_poll_signal cs w) ds).inner ≡ true
      → contains (run (after_poll_signal cs w) ds).woken w ≡ true
  unfolding is_shutdown_triggered
  triggered_wakes cs ds w p h =
      let v = step-Inv (run start cs) (polls_signal w) (run-Inv start cs start-Inv) in
      let v' : Inv (after_poll_signal cs w) = record {
        counted = v.counted;
        signalled = v.signalled;
        finished = v.finished;
      } in
      let again = run-Inv (after_poll_signal cs w) ds v' in
      ground (
        arith,
        again.signalled,
        run-Kept w (after_poll_signal cs w) ds (registers w (run start cs) p),
      )
