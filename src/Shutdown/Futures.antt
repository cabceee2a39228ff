-- ===== src/Shutdown/Futures.antt =====
-- The wrappers of futures below core/src/shutdown/: with_cancel.rs, with_delay.rs, with_trigger.rs.
-- The wrapped future is a parameter: its poll gives the outcome and the future after it, and does not
-- itself call the controller.
use avail_light.Prelude.{
  ◌-◌, ◌≡◌, Bool, true, false, Option, some, none, List, [], ◌∷◌, Result, ok, err, arith, ◌==◌, not,
  retain,
}
use avail_light.Prelude.Sets.{contains, contains-append}
use avail_light.Shutdown.{
  Waker, Poll, ready, pending, ControllerInner, decrement_delay_tokens, shutdown,
  drop_trigger_token, poll_signal,
}

abbrev pub first_reason : {T : Type 0} → Option T → T → T
first_reason none r = r
first_reason (some q) r = q

module _ {T F V : Type 0} (poll_future : F → Waker → Poll V × F) where
  -- The field `future` of `WithCancel` is the future, or the reason for which it was dropped.
  after_pending :
      F → Poll T × ControllerInner T → Poll (Result T V) × Result T F × ControllerInner T
  after_pending f (ready reason, c) = (ready (err reason), err reason, c)
  after_pending f (pending, c) = (pending, ok f, c)

  poll_wrapped :
      Waker → Poll V × F → ControllerInner T → Poll (Result T V) × Result T F × ControllerInner T
  unfolding after_pending
  poll_wrapped w (ready value, f) c = (ready (ok value), ok f, c)
  poll_wrapped w (pending, f) c = after_pending f (poll_signal w c)

  unfoldable pub poll_with_cancel :
      Waker → Result T F → ControllerInner T → Poll (Result T V) × Result T F × ControllerInner T
  unfolding poll_wrapped
  poll_with_cancel w (err reason) c = (ready (err reason), err reason, c)
  poll_with_cancel w (ok f) c = poll_wrapped w (poll_future f w) c

  -- `WithDelay` holds its token until the future is ready; dropping a token that is gone does
  -- nothing.
  drop_delay : Bool → ControllerInner T → ControllerInner T × List Waker
  drop_delay true c = decrement_delay_tokens c
  drop_delay false c = (c, [])

  after_delayed :
      Bool → Poll V × F → ControllerInner T → Poll V × Bool × F × ControllerInner T × List Waker
  unfolding drop_delay
  after_delayed held (ready value, f) c =
      let (c', woken) = drop_delay held c in (ready value, false, f, c', woken)
  after_delayed held (pending, f) c = (pending, held, f, c, [])

  unfoldable pub poll_with_delay :
      Waker → Bool → F → ControllerInner T → Poll V × Bool × F × ControllerInner T × List Waker
  unfolding after_delayed
  poll_with_delay w held f c = after_delayed held (poll_future f w) c

  -- `WithTrigger` drops its token, if it still has it, when the future is ready. The cell of the
  -- token is shared by its clones.
  drop_trigger : Bool → Option T → ControllerInner T → Option T × ControllerInner T × List Waker
  drop_trigger true cell c = drop_trigger_token cell c
  drop_trigger false cell c = (cell, c, [])

  after_triggering :
      Bool
      → Option T
      → Poll V × F
      → ControllerInner T
      → Poll V × Bool × F × Option T × ControllerInner T × List Waker
  unfolding drop_trigger
  after_triggering held cell (ready value, f) c =
      let (cell', c', woken) = drop_trigger held cell c in (ready value, false, f, cell', c', woken)
  after_triggering held cell (pending, f) c = (pending, held, f, cell, c, [])

  unfoldable pub poll_with_trigger :
      Waker
      → Bool
      → Option T
      → F
      → ControllerInner T
      → Poll V × Bool × F × Option T × ControllerInner T × List Waker
  unfolding after_triggering
  poll_with_trigger w held cell f c = after_triggering held cell (poll_future f w) c

  -- A future that is not ready is cancelled as soon as the shutdown has a reason, and from then on
  -- every poll, whatever the state of the controller, gives that reason and leaves all as it is.
  pub with_cancel_cancels :
      (w w' : Waker) (f f' : F) (c c' : ControllerInner T) (r : T)
      → poll_future f w ≡ (pending, f')
      → c.reason ≡ some r
      → (poll_with_cancel w (ok f) c ≡ (ready (err r), err r, c))
        × (poll_with_cancel w' (poll_with_cancel w (ok f) c).1 c' ≡ (ready (err r), err r, c'))
  unfolding poll_with_cancel poll_signal
  with_cancel_cancels w w' f f' c c' r p h = (ground arith, ground arith)

  -- While the shutdown has no reason, a future that is not ready is kept, and its task is
  -- registered for the signal.
  pub with_cancel_waits :
      (w : Waker) (f f' : F) (c : ControllerInner T)
      → poll_future f w ≡ (pending, f')
      → c.reason ≡ none
      → ((poll_with_cancel w (ok f) c).0 ≡ pending)
        × ((poll_with_cancel w (ok f) c).1 ≡ ok f')
        × (contains (poll_with_cancel w (ok f) c).2.on_shutdown_trigger w ≡ true)
  unfolding poll_with_cancel poll_signal
  with_cancel_waits w f f' c p h = (
    ground arith,
    ground arith,
    ground (arith, contains-append (retain (λ v. not (v == w)) c.on_shutdown_trigger) (w ∷ []) w),
  )

  -- The token of a delayed future is given back once, when the future is ready: the count falls by
  -- one then, stays as it is on every other poll, and a poll after that does not touch it.
  pub with_delay_drops_once :
      (w w' : Waker) (f f' g g' : F) (v u : V) (c c' : ControllerInner T)
      → poll_future f w ≡ (pending, f')
      → poll_future f' w' ≡ (ready v, g)
      → poll_future g w ≡ (ready u, g')
      → ((poll_with_delay w true f c).3 ≡ c)
        × ((poll_with_delay w' true f' c).3.delay_tokens ≡ c.delay_tokens - 1)
        × ((poll_with_delay w (poll_with_delay w' true f' c).1 g c').3 ≡ c')
  unfolding poll_with_delay decrement_delay_tokens
  with_delay_drops_once w w' f f' g g' v u c c' a b e = (ground arith, ground arith, ground arith)

  -- A future with a trigger that is ready leaves the shutdown triggered, with the reason that it
  -- had already or else with its own, and its token is spent.
  pub with_trigger_triggers :
      (w : Waker) (f f' : F) (v : V) (r : T) (c : ControllerInner T)
      → poll_future f w ≡ (ready v, f')
      → ((poll_with_trigger w true (some r) f c).4.reason ≡ some (first_reason c.reason r))
        × ((poll_with_trigger w true (some r) f c).1 ≡ false)
        × ((poll_with_trigger w true (some r) f c).3 ≡ none)
  unfolding poll_with_trigger drop_trigger_token shutdown
  with_trigger_triggers w f f' v r c p = (ground arith, ground arith, ground arith)
