-- ===== src/Shutdown/Protocol.antt =====
-- The life of a controller of core/src/shutdown.rs: any sequence of calls by its owners. A token is
-- cloned or dropped only while one lives, as only its holder can do so.
use avail_light.Prelude.{
  ℕ, ◌+◌, ◌-◌, ◌≡◌, true, Option, some, none, List, [], ◌∷◌, ◌++◌, ◌==◌, if◌then◌else◌, ok, err,
  arith,
}
use avail_light.Shutdown.{
  Waker, ControllerInner, is_some, new, increment_delay_tokens, decrement_delay_tokens, shutdown,
  delay_token, drop_trigger_token, poll_signal, poll_completed,
}

pub data Call (T : Type 0) : Type 0 where
  trigger : T → Call T
  take_token clone_token drop_token : Call T
  drop_trigger : Option T → Call T
  polls_signal polls_completed : Waker → Call T

-- The controller, the delay tokens that live, and all the wakers woken so far.
pub record System (T : Type 0) : Type 0 where
  pub inner : ControllerInner T
  pub live : ℕ
  pub woken : List Waker

module _ {T : Type 0} where
  unfoldable pub start : System T
  unfolding new
  start = record { inner = new; live = 0; woken = [] }

  unfoldable pub step : System T → Call T → System T
  step s (trigger r) =
      let (_, c, w) = shutdown r s.inner in record s { inner = c; woken = s.woken ++ w }
  step s take_token =
      let (result, c) = delay_token s.inner in
      elim result [
        | ok _ ↦ record s { inner = c; live = s.live + 1 }
        | err _ ↦ record s { inner = c }
      ]
  step s clone_token =
      if s.live == 0
      then s
      else record s { inner = increment_delay_tokens s.inner; live = s.live + 1 }
  step s drop_token =
      let (c, w) = decrement_delay_tokens s.inner in
      if s.live == 0 then s else record s { inner = c; live = s.live - 1; woken = s.woken ++ w }
  step s (drop_trigger cell) =
      let (_, c, w) = drop_trigger_token cell s.inner in
      record s { inner = c; woken = s.woken ++ w }
  step s (polls_signal w) = record s { inner = (poll_signal w s.inner).1 }
  step s (polls_completed w) = record s { inner = (poll_completed w s.inner).1 }

  unfoldable pub run : System T → List (Call T) → System T
  run s [] = s
  run s (c ∷ cs) = run (step s c) cs

  pub record Inv (s : System T) : Type 0 where
    pub counted : s.inner.delay_tokens ≡ s.live
    pub signalled : is_some s.inner.reason ≡ true → s.inner.on_shutdown_trigger ≡ []
    pub finished :
        is_some s.inner.reason ≡ true → s.inner.delay_tokens ≡ 0 → s.inner.on_shutdown_complete ≡ []

  pub start-Inv : Inv start
  unfolding start
  start-Inv = ground arith

  pub step-Inv : (s : System T) (c : Call T) → Inv s → Inv (step s c)
  unfolding step shutdown delay_token increment_delay_tokens decrement_delay_tokens
      drop_trigger_token poll_signal poll_completed
  step-Inv s (trigger r) v = ground arith
  step-Inv s take_token v = ground arith
  step-Inv s clone_token v = ground arith
  step-Inv s drop_token v = ground arith
  step-Inv s (drop_trigger none) v = ground arith
  step-Inv s (drop_trigger (some r)) v = ground arith
  step-Inv s (polls_signal w) v = ground arith
  step-Inv s (polls_completed w) v = ground arith

  pub run-Inv : (s : System T) (cs : List (Call T)) → Inv s → Inv (run s cs)
  unfolding run
  run-Inv s [] v = v
  run-Inv s (c ∷ cs) v = run-Inv (step s c) cs (step-Inv s c v)

  pub step-reason :
      (s : System T) (c : Call T) (r : T)
      → s.inner.reason ≡ some r
      → (step s c).inner.reason ≡ some r
  unfolding step shutdown delay_token increment_delay_tokens decrement_delay_tokens
      drop_trigger_token poll_signal poll_completed
  step-reason s (trigger q) r h = ground arith
  step-reason s take_token r h = ground arith
  step-reason s clone_token r h = ground arith
  step-reason s drop_token r h = ground arith
  step-reason s (drop_trigger none) r h = ground arith
  step-reason s (drop_trigger (some q)) r h = ground arith
  step-reason s (polls_signal w) r h = ground arith
  step-reason s (polls_completed w) r h = ground arith
