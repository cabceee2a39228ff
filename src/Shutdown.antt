-- ===== src/Shutdown.antt =====
-- core/src/shutdown.rs and the futures below core/src/shutdown/. The `Arc<Mutex<..>>` round the state
-- makes each operation one step; a waker is the number of its task, and an operation that wakes
-- tasks returns them in order. The wrapped futures are parameters.
pub mod Protocol
pub mod Wakeups
pub mod Signals
pub mod Futures
mod Examples
use avail_light.Prelude.{
  ℕ, zero, suc, ◌+◌, ◌-◌, Bool, true, false, ◌&&◌, not, Option, some, none, List, [], ◌∷◌, ◌++◌,
  ◌==◌, if◌then◌else◌, retain, Result, ok, err,
}

abbrev pub Waker : Type 0
Waker = ℕ

pub data Poll (A : Type 0) : Type 0 where
  ready : A → Poll A
  pending : Poll A

pub record ControllerInner (T : Type 0) : Type 0 where
  pub reason : Option T
  pub delay_tokens : ℕ
  pub on_shutdown_trigger : List Waker
  pub on_shutdown_complete : List Waker

pub record ShutdownHasStarted (T : Type 0) : Type 0 where
  pub started_reason : T
  pub ignored : T

pub record ShutdownHasCompleted (T : Type 0) : Type 0 where
  pub completed_reason : T

module _ {T : Type 0} where
  unfoldable pub new : ControllerInner T
  new = record {
    reason = none;
    delay_tokens = 0;
    on_shutdown_trigger = [];
    on_shutdown_complete = [];
  }

  unfoldable pub increment_delay_tokens : ControllerInner T → ControllerInner T
  increment_delay_tokens c = record c { delay_tokens = c.delay_tokens + 1 }

  unfoldable pub notify_shutdown_complete : ControllerInner T → ControllerInner T × List Waker
  notify_shutdown_complete c = (record c { on_shutdown_complete = [] }, c.on_shutdown_complete)

  unfoldable pub decrement_delay_tokens : ControllerInner T → ControllerInner T × List Waker
  unfolding notify_shutdown_complete
  decrement_delay_tokens c =
      let c' = record c { delay_tokens = c.delay_tokens - 1 } in
      if c'.delay_tokens == 0 then notify_shutdown_complete c' else (c', [])

  -- The error case of `shutdown` leaves the state alone.
  unfoldable pub shutdown :
      T
      → ControllerInner T
      → Result (ShutdownHasStarted T) (Unit {0}) × ControllerInner T × List Waker
  unfolding notify_shutdown_complete
  shutdown reason c = elim c.reason [
    | some original ↦ (err (record { started_reason = original; ignored = reason }), c, [])
    | none ↦
        let c' = record c { reason = some reason; on_shutdown_trigger = [] } in
        let (c'', woken) = notify_shutdown_complete c' in
        if c.delay_tokens == 0
        then (ok tt, c'', c.on_shutdown_trigger ++ woken)
        else (ok tt, c', c.on_shutdown_trigger)
  ]

  abbrev pub is_some : Option T → Bool
  is_some none = false
  is_some (some r) = true

  unfoldable pub is_shutdown_triggered : ControllerInner T → Bool
  is_shutdown_triggered c = is_some c.reason

  unfoldable pub is_shutdown_completed : ControllerInner T → Bool
  is_shutdown_completed c = is_some c.reason && c.delay_tokens == 0

  -- A token is represented by the step that makes it; `ok` counts it.
  unfoldable pub delay_token :
      ControllerInner T → Result (ShutdownHasCompleted T) (Unit {0}) × ControllerInner T
  unfolding increment_delay_tokens
  delay_token c =
      let taken : Result (ShutdownHasCompleted T) (Unit {0}) × ControllerInner T =
        (ok tt, increment_delay_tokens c) in
      if c.delay_tokens == 0
      then elim c.reason [
        | some reason ↦ (err (record { completed_reason = reason }), c)
        | none ↦ taken
      ]
      else taken

  -- The reason stands in a cell that all clones of a `TriggerToken` share; the first drop takes it.
  unfoldable pub drop_trigger_token :
      Option T → ControllerInner T → Option T × ControllerInner T × List Waker
  unfolding shutdown
  drop_trigger_token none c = (none, c, [])
  drop_trigger_token (some reason) c = let (_, c', woken) = shutdown reason c in (none, c', woken)

  -- `Signal::poll`
  unfoldable pub poll_signal : Waker → ControllerInner T → Poll T × ControllerInner T
  poll_signal w c = elim c.reason [
    | some reason ↦ (ready reason, c)
    | none ↦ (
      pending,
      record c { on_shutdown_trigger = retain (λ v. not (v == w)) c.on_shutdown_trigger ++ w ∷ [] },
    )
  ]

  -- `Completed::poll`
  unfoldable pub poll_completed : Waker → ControllerInner T → Poll T × ControllerInner T
  poll_completed w c =
      let wait : Poll T × ControllerInner T =
        (pending, record c { on_shutdown_complete = c.on_shutdown_complete ++ w ∷ [] }) in
      if c.delay_tokens == 0
      then elim c.reason [ some reason ↦ (ready reason, c) | none ↦ wait ]
      else wait
