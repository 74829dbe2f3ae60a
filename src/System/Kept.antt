-- ===== src/System/Kept.antt =====
-- What most events leave as it is: the data of the master, the counters of the periodic thread and
-- those of the frames.
use zephyr_can_converter_uni.Prelude.{
  ◌≡◌, refl, sym, ap, subst, List, some, arith, inl, inr, Option-cases,
}
use zephyr_can_converter_uni.Platform.{Platform}
use zephyr_can_converter_uni.Rs485.{Link}
use zephyr_can_converter_uni.Can.{Effect, CanState, can_state_change_cb, ccu_can_test_set}
use zephyr_can_converter_uni.Can.TxThread
use zephyr_can_converter_uni.Can.TxThread.{TxEvent}
use zephyr_can_converter_uni.Frames.Delivery.{waiting}
use zephyr_can_converter_uni.Can.TxThread.Fifo.{IsBehind, step-waiting}
use zephyr_can_converter_uni.Can.TxThread.Queue.{IsInner, step-frame_counts}
use zephyr_can_converter_uni.Board.{test_end, ccu_rs485_test_set}
use zephyr_can_converter_uni.System.{Firmware, Event, step, thread, board}
use zephyr_can_converter_uni.System.Invariant.{out}

-- The events but the rounds of the parser and the periodic thread and a press of the test button.
abbrev pub IsAside : Event → Type 0
IsAside (Event.packet p) = ⊥
IsAside (Event.tick dfu) = ⊥
IsAside Event.button = ⊥
IsAside _ = Unit

-- These but a `get` of the TX thread and a bus-off.
abbrev pub IsQuiet : Event → Type 0
IsQuiet Event.get = ⊥
IsQuiet (Event.state_change CanState.bus_off) = ⊥
IsQuiet e = IsAside e

pub quiet-IsAside : (e : Event) → IsQuiet e → IsAside e
quiet-IsAside Event.get o = absurd o
quiet-IsAside (Event.state_change CanState.bus_off) o = tt
quiet-IsAside e o = o

module _ (pf : Platform) (link : Link) where
  pub record IsKept (s s' : Firmware pf link) : Type 0 where
    pub session : s'.session ≡ s.session
    pub locals : s'.locals ≡ s.locals
    pub counts : s'.machine.can.tx.frame_counts ≡ s.machine.can.tx.frame_counts

  thread-IsKept :
      (e : TxEvent pf) (s s' : Firmware pf link) (effects : List Effect)
      → IsInner pf e
      → thread pf link e s ≡ some (s', effects)
      → IsKept s s'
  unfolding thread
  thread-IsKept e s s' effects o h = elim (Option-cases (TxThread.step pf e s.machine)) [
    | inl stuck ↦ ground arith
    | inr ((m, done), moved) ↦
        let same : s' ≡ record s { machine = m } = ground arith in
        rw same (record {
          session = refl;
          locals = refl;
          counts = step-frame_counts pf e s.machine m done o moved;
        })
  ]

  pub step-IsKept :
      (e : Event) (s s' : Firmware pf link) (effects : List Effect)
      → IsAside e
      → step pf link e s ≡ some (s', effects)
      → IsKept s s'
  unfolding step board test_end ccu_rs485_test_set ccu_can_test_set can_state_change_cb
  step-IsKept (Event.packet p) s s' effects o h = absurd o
  step-IsKept (Event.tick dfu) s s' effects o h = absurd o
  step-IsKept Event.button s s' effects o h = absurd o
  step-IsKept Event.get s s' effects o h = thread-IsKept TxEvent.get s s' effects tt h
  step-IsKept (Event.sent ret) s s' effects o h = thread-IsKept (TxEvent.sent ret) s s' effects tt h
  step-IsKept Event.take s s' effects o h = thread-IsKept TxEvent.take s s' effects tt h
  step-IsKept Event.timeout s s' effects o h = thread-IsKept TxEvent.timeout s s' effects tt h
  step-IsKept Event.finish s s' effects o h = thread-IsKept TxEvent.finish s s' effects tt h
  step-IsKept (Event.callback error) s s' effects o h =
      thread-IsKept (TxEvent.callback error) s s' effects tt h
  step-IsKept (Event.state_change CanState.bus_off) s s' effects o h =
      subst (IsKept s) (ap (λ r. (out pf link s r).0) h)
        (record { session = refl; locals = refl; counts = refl })
  step-IsKept Event.button_end s s' effects o h =
      subst (IsKept s) (ap (λ r. (out pf link s r).0) h)
        (record { session = refl; locals = refl; counts = refl })
  step-IsKept _ s s' effects o h =
      subst (IsKept s) (ap (λ r. (out pf link s r).0) h)
        (record { session = refl; locals = refl; counts = refl })

  thread-quiet :
      (e : TxEvent pf) (s s' : Firmware pf link) (effects : List Effect)
      → IsBehind pf e
      → thread pf link e s ≡ some (s', effects)
      → waiting pf s'.machine.can.tx ≡ waiting pf s.machine.can.tx
  unfolding thread
  thread-quiet e s s' effects o h = elim (Option-cases (TxThread.step pf e s.machine)) [
    | inl stuck ↦ absurd (ground arith)
    | inr ((m, done), moved) ↦
        let same : s' ≡ record s { machine = m } = ground arith in
        rw same (step-waiting pf e s.machine m done o moved)
  ]

  -- These leave the queue alone too.
  pub step-quiet :
      (e : Event) (s s' : Firmware pf link) (effects : List Effect)
      → IsQuiet e
      → step pf link e s ≡ some (s', effects)
      → waiting pf s'.machine.can.tx ≡ waiting pf s.machine.can.tx
  unfolding step board test_end ccu_rs485_test_set ccu_can_test_set can_state_change_cb
  step-quiet (Event.packet p) s s' effects o h = absurd o
  step-quiet (Event.tick dfu) s s' effects o h = absurd o
  step-quiet Event.button s s' effects o h = absurd o
  step-quiet Event.get s s' effects o h = absurd o
  step-quiet (Event.state_change CanState.bus_off) s s' effects o h = absurd o
  step-quiet (Event.sent ret) s s' effects o h = thread-quiet (TxEvent.sent ret) s s' effects tt h
  step-quiet Event.take s s' effects o h = thread-quiet TxEvent.take s s' effects tt h
  step-quiet Event.timeout s s' effects o h = thread-quiet TxEvent.timeout s s' effects tt h
  step-quiet Event.finish s s' effects o h = thread-quiet TxEvent.finish s s' effects tt h
  step-quiet (Event.callback error) s s' effects o h =
      thread-quiet (TxEvent.callback error) s s' effects tt h
  step-quiet _ s s' effects o h = ap (λ r. waiting pf (out pf link s r).0.machine.can.tx) (sym h)
