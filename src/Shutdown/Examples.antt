-- ===== src/Shutdown/Examples.antt =====
-- Concrete histories of a controller of core/src/shutdown.rs; reasons are numbers.
use avail_light.Prelude.{ℕ, zero, suc, ◌≡◌, refl, true, Option, List, [], ◌∷◌, err}
use avail_light.Prelude.Sets.{contains}
use avail_light.Shutdown.{
  Waker, Poll, ready, pending, ControllerInner, is_shutdown_completed, delay_token,
  decrement_delay_tokens, shutdown, poll_signal, poll_completed,
}
use avail_light.Shutdown.Protocol.{
  Call, trigger, take_token, drop_token, polls_signal, polls_completed, start, step, run,
}
use avail_light.Shutdown.Wakeups.{
  shutdown_once, completed_forever, completed_wakes, after_poll_completed,
}

-- A token is out when the shutdown is triggered for reason 7; then the token is dropped.
abbrev draining : List (Call ℕ)
draining = take_token ∷ polls_signal 2 ∷ trigger 7 ∷ []

abbrev drained : List (Call ℕ)
drained = take_token ∷ trigger 7 ∷ drop_token ∷ []

abbrev taken : List (Call ℕ)
taken = take_token ∷ []

abbrev triggered : List (Call ℕ)
triggered = trigger 7 ∷ []

abbrev late : List (Call ℕ)
late = trigger 8 ∷ take_token ∷ polls_completed 4 ∷ []

shutdown_once_example :
    (shutdown 9 (run (run start draining) late).inner ≡ (
      err (record { started_reason = 7; ignored = 9 }),
      (run (run start draining) late).inner,
      [],
    ))
    × (poll_signal 5 (run (run start draining) late).inner
        ≡ (ready 7, (run (run start draining) late).inner))
unfolding run step start shutdown delay_token poll_signal
shutdown_once_example = shutdown_once (run start draining) late 7 9 5 refl

completed_forever_example :
    (is_shutdown_completed (run (run start drained) late).inner ≡ true)
    × ((run (run start drained) late).live ≡ 0)
    × (delay_token (run (run start drained) late).inner
        ≡ (err (record { completed_reason = 7 }), (run (run start drained) late).inner))
unfolding run step start shutdown delay_token decrement_delay_tokens
completed_forever_example = completed_forever drained late 7 refl refl

completed_wakes_example :
    contains (run (after_poll_completed draining 3) (drop_token ∷ [])).woken 3 ≡ true
unfolding run step start shutdown delay_token decrement_delay_tokens poll_completed poll_signal
    is_shutdown_completed
completed_wakes_example = completed_wakes draining (drop_token ∷ []) 3 refl refl

-- A future that counts down, and is ready at zero.
abbrev countdown : ℕ → Waker → Poll ℕ × ℕ
countdown zero w = (ready 42, 0)
countdown (suc n) w = (pending, n)

abbrev controller : Option ℕ → ControllerInner ℕ
controller r = record {
  reason = r;
  delay_tokens = 2;
  on_shutdown_trigger = 6 ∷ [];
  on_shutdown_complete = [];
}
