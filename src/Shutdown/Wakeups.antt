-- ===== src/Shutdown/Wakeups.antt =====
-- What a controller of core/src/shutdown.rs promises its users, over every history of calls.
use avail_light.Prelude.{◌≡◌, ◌↔◌, true, ◌||◌, some, none, List, [], ◌∷◌, ◌++◌, err, arith}
use avail_light.Prelude.Sets.{contains, contains-append}
use avail_light.Shutdown.{
  Waker, ready, pending, increment_delay_tokens, decrement_delay_tokens, shutdown,
  is_shutdown_triggered, is_shutdown_completed, delay_token, drop_trigger_token, poll_signal,
  poll_completed,
}
use avail_light.Shutdown.Protocol.{
  Call, trigger, take_token, clone_token, drop_token, drop_trigger, polls_signal, polls_completed,
  System, start, step, run, Inv, start-Inv, step-Inv, run-Inv, step-reason,
}

module _ {T : Type 0} where
  run-reason :
      (s : System T) (cs : List (Call T)) (r : T)
      → s.inner.reason ≡ some r
      → (run s cs).inner.reason ≡ some r
  unfolding run
  run-reason s [] r h = h
  run-reason s (c ∷ cs) r h = run-reason (step s c) cs r (step-reason s c r h)

  -- The first reason stands: after it, whatever is called, each further trigger is refused with the
  -- first reason and changes nothing, and each waiting task is told the first reason.
  pub shutdown_once :
      (s : System T) (cs : List (Call T)) (r q : T) (w : Waker)
      → s.inner.reason ≡ some r
      → (shutdown q (run s cs).inner
          ≡ (err (record { started_reason = r; ignored = q }), (run s cs).inner, []))
        × (poll_signal w (run s cs).inner ≡ (ready r, (run s cs).inner))
  unfolding shutdown poll_signal
  shutdown_once s cs r q w h =
      (ground (arith, run-reason s cs r h), ground (arith, run-reason s cs r h))

  -- After any history the shutdown is complete exactly if it was triggered and no token lives.
  pub is_shutdown_completed_iff :
      (cs : List (Call T))
      → (is_shutdown_completed (run start cs).inner ≡ true)
        ↔ ((is_shutdown_triggered (run start cs).inner ≡ true) × ((run start cs).live ≡ 0))
  unfolding is_shutdown_completed is_shutdown_triggered
  is_shutdown_completed_iff cs =
      let v = run-Inv start cs start-Inv in
      ((λ h. ground (arith, v.counted)), (λ h. ground (arith, v.counted)))

  step_of_completed :
      (s : System T) (c : Call T)
      → Inv s
      → is_shutdown_completed s.inner ≡ true
      → is_shutdown_completed (step s c).inner ≡ true
  unfolding is_shutdown_completed step shutdown delay_token increment_delay_tokens
      decrement_delay_tokens drop_trigger_token poll_signal poll_completed
  step_of_completed s (trigger q) v h = ground arith
  step_of_completed s take_token v h = ground arith
  step_of_completed s clone_token v h = ground arith
  step_of_completed s drop_token v h = ground arith
  step_of_completed s (drop_trigger none) v h = ground arith
  step_of_completed s (drop_trigger (some q)) v h = ground arith
  step_of_completed s (polls_signal w) v h = ground arith
  step_of_completed s (polls_completed w) v h = ground arith

  run_of_completed :
      (s : System T) (cs : List (Call T))
      → Inv s
      → is_shutdown_completed s.inner ≡ true
      → is_shutdown_completed (run s cs).inner ≡ true
  unfolding run
  run_of_completed s [] v h = h
  run_of_completed s (c ∷ cs) v h =
      run_of_completed (step s c) cs (step-Inv s c v) (step_of_completed s c v h)

  -- A completed shutdown stays complete: after any further calls no delay token can be had, the
  -- error names the reason, and no token lives.
  pub completed_forever :
      (cs ds : List (Call T)) (r : T)
      → (run start cs).inner.reason ≡ some r
      → (run start cs).live ≡ 0
      → let s = run (run start cs) ds in
        (is_shutdown_completed s.inner ≡ true)
        × (s.live ≡ 0)
        × (delay_token s.inner ≡ (err (record { completed_reason = r }), s.inner))
  unfolding delay_token is_shutdown_completed
  completed_forever cs ds r h l =
      let v = run-Inv start cs start-Inv in
      let done = run_of_completed (run start cs) ds v (ground (arith, v.counted)) in
      let again = run-Inv (run start cs) ds v in
      let kept = run-reason (run start cs) ds r h in
      (done, ground (arith, done, again.counted), ground (arith, done, kept))

  abbrev Kept : Waker → System T → Type 0
  Kept w s = (contains s.inner.on_shutdown_complete w || contains s.woken w) ≡ true

  shutdown-Kept : (w : Waker) (s : System T) (q : T) → Kept w s → Kept w (step s (trigger q))
  unfolding step shutdown
  shutdown-Kept w s q k = ground (
    arith,
    contains-append s.woken [] w,
    contains-append s.woken s.inner.on_shutdown_trigger w,
    contains-append s.woken (s.inner.on_shutdown_trigger ++ s.inner.on_shutdown_complete) w,
    contains-append s.inner.on_shutdown_trigger s.inner.on_shutdown_complete w,
  )

  step-Kept : (w : Waker) (s : System T) (c : Call T) → Kept w s → Kept w (step s c)
  unfolding step shutdown delay_token increment_delay_tokens decrement_delay_tokens
      drop_trigger_token poll_signal poll_completed
  step-Kept w s (trigger q) k = shutdown-Kept w s q k
  step-Kept w s take_token k = ground arith
  step-Kept w s clone_token k = ground arith
  step-Kept w s drop_token k =
      ground (
        arith,
        contains-append s.woken s.inner.on_shutdown_complete w,
        contains-append s.woken [] w,
      )
  step-Kept w s (drop_trigger none) k = ground (arith, contains-append s.woken [] w)
  step-Kept w s (drop_trigger (some q)) k = shutdown-Kept w s q k
  step-Kept w s (polls_signal x) k = ground arith
  step-Kept w s (polls_completed x) k =
      ground (arith, contains-append s.inner.on_shutdown_complete (x ∷ []) w)

  run-Kept : (w : Waker) (s : System T) (cs : List (Call T)) → Kept w s → Kept w (run s cs)
  unfolding run
  run-Kept w s [] k = k
  run-Kept w s (c ∷ cs) k = run-Kept w (step s c) cs (step-Kept w s c k)

  -- The same system, with the wakeups counted from here on.
  abbrev pub from_now : System T → System T
  from_now s = record s { woken = [] }

  registers :
      (w : Waker) (s : System T)
      → (poll_completed w s.inner).0 ≡ pending
      → Kept w (from_now (step s (polls_completed w)))
  unfolding step poll_completed
  registers w s p = ground (arith, contains-append s.inner.on_shutdown_complete (w ∷ []) w)

  -- The system after a poll of `Completed` by a task, with the wakeups counted from there.
  abbrev pub after_poll_completed : List (Call T) → Waker → System T
  after_poll_completed cs w = from_now (step (run start cs) (polls_completed w))

  -- No wakeup for completion is lost: a task that polled for completion after any history and was
  -- told to wait has been woken, after that poll, by any time at which the shutdown is complete.
  pub completed_wakes :
      (cs ds : List (Call T)) (w : Waker)
      → (poll_completed w (run start cs).inner).0 ≡ pending
      → is_shutdown_completed (run (after_poll_completed cs w) ds).inner ≡ true
      → contains (run (after_poll_completed cs w) ds).woken w ≡ true
  unfolding is_shutdown_completed
  completed_wakes cs ds w p h =
      let v = step-Inv (run start cs) (polls_completed w) (run-Inv start cs start-Inv) in
      let v' : Inv (after_poll_completed cs w) = record {
        counted = v.counted;
        signalled = v.signalled;
        finished = v.finished;
      } in
      let again = run-Inv (after_poll_completed cs w) ds v' in
      ground (
        arith,
        again.finished,
        run-Kept w (after_poll_completed cs w) ds (registers w (run start cs) p),
      )
