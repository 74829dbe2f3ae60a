-- ===== src/System.antt =====
-- The firmware as a whole: every thread, handler and call back as a step on the shared state, in any
-- order. A round of the parser thread, a round of the periodic thread and each half of the button's
-- handler is one step; the TX thread makes a step between two points where it can wait.
pub mod Invariant
pub mod TestMode
pub mod Forward
pub mod Arrival
pub mod Outputs
pub mod Kept
pub mod Knowledge
pub mod Silence
pub mod Rate
pub mod Gateway
pub mod Atomic
pub mod Writers
use zephyr_can_converter_uni.Prelude.{
  ℕ, Bool, true, false, List, [], ◌∷◌, ◌++◌, Option, none, some, ℤ, ◌≡◌, arith, inl, inr,
  Option-cases,
}
use zephyr_can_converter_uni.Platform.{CanFrame, Platform}
use zephyr_can_converter_uni.Rs485.{Link, Packet, Session, start, parser_round}
use zephyr_can_converter_uni.Frames.{Tx, frame_counts_zero}
use zephyr_can_converter_uni.Periodic
use zephyr_can_converter_uni.Periodic.{Locals, locals_zero, Input}
use zephyr_can_converter_uni.Can.{
  Can, Effect, CanState, tx_led_off_handler, rx_led_off_handler, bus_off_recovery_handler,
  can_state_change_cb, ccu_dfu_rx_cb,
}
use zephyr_can_converter_uni.Can.TxThread
use zephyr_can_converter_uni.Can.TxThread.{Machine, TxEvent}
use zephyr_can_converter_uni.Can.TxThread.Accounting.{boot}
use zephyr_can_converter_uni.Board.{Board, on_dfu_start, on_dfu_end, test_begin, test_end}

-- What can happen next. `packet` is a round of the parser thread and `tick` one of the periodic
-- thread, with the answer of `can_dfu_is_active`; `get` to `callback` are steps of the TX thread and
-- of the driver; `recovered` has the return code of `can_recover`; `button` and `button_end` are the
-- two halves of the button's handler.
pub data Event : Type 0 where
  packet : Option Packet → Event
  tick : (dfu_active : Bool) → Event
  get : Event
  sent : (ret : ℤ) → Event
  take : Event
  timeout : Event
  finish : Event
  callback : (error : ℤ) → Event
  state_change : CanState → Event
  recovered : (ret : ℤ) → Event
  tx_led_off : Event
  rx_led_off : Event
  dfu_frame : CanFrame → Event
  dfu_start : Event
  dfu_end : Event
  button : Event
  button_end : Event

module _ (pf : Platform) (link : Link) where
  pub record Firmware : Type 0 where
    pub session : Session link
    pub locals : Locals
    pub machine : Machine pf
    pub rs485_test_active : Bool

  abbrev with_can : Can pf → Firmware → Firmware
  with_can c s = record s { machine = record (s.machine) { can = c } }

  abbrev with_tx : Tx pf → Firmware → Firmware
  with_tx tx s = with_can (record (s.machine.can) { tx = tx }) s

  input : Bool → Firmware → Input
  input dfu s = record {
    dfu_active = dfu;
    master_data = s.session.store.master_data;
    rs485_frames_received = s.session.store.frames_received;
    can_frames_tx_ok = s.machine.can.frames_tx_ok;
  }

  abbrev with_board : Firmware → Board pf × List Effect → Firmware × List Effect
  with_board s (b, effects) =
      (record (with_can b.can s) { rs485_test_active = b.rs485_test_active }, effects)

  board : Firmware → Board pf
  board s = record { can = s.machine.can; rs485_test_active = s.rs485_test_active }

  thread : TxEvent pf → Firmware → Option (Firmware × List Effect)
  thread e s = elim (TxThread.step pf e s.machine) [
    | none ↦ none
    | some (m, effects) ↦ some (record s { machine = m }, effects)
  ]

  -- A step; `none` where the event cannot happen.
  unfoldable pub step : Event → Firmware → Option (Firmware × List Effect)
  unfolding thread board input
  step (Event.packet p) s = elim (parser_round link p s.session) [
    | none ↦ none
    | some session' ↦ some (record s { session = session' }, [])
  ]
  step (Event.tick dfu) s =
      let (l, tx, report) = Periodic.tick pf (input dfu s) s.locals s.machine.can.tx in
      some (record (with_tx tx s) { locals = l }, [])
  step Event.get s = thread TxEvent.get s
  step (Event.sent ret) s = thread (TxEvent.sent ret) s
  step Event.take s = thread TxEvent.take s
  step Event.timeout s = thread TxEvent.timeout s
  step Event.finish s = thread TxEvent.finish s
  step (Event.callback error) s = thread (TxEvent.callback error) s
  step (Event.state_change state) s =
      let (c, effects) = can_state_change_cb pf state s.machine.can in some (with_can c s, effects)
  step (Event.recovered ret) s = some (s, bus_off_recovery_handler pf ret)
  step Event.tx_led_off s = some (s, tx_led_off_handler pf s.machine.can)
  step Event.rx_led_off s = some (s, rx_led_off_handler pf s.machine.can)
  step (Event.dfu_frame frame) s = some (s, ccu_dfu_rx_cb pf frame)
  step Event.dfu_start s = some (s, on_dfu_start)
  step Event.dfu_end s = some (s, on_dfu_end)
  step Event.button s = some (with_board s (test_begin pf s.session.store.master_data (board s)))
  step Event.button_end s = some (with_board s (test_end pf (board s)))

  -- The state after the events and all effects in order, if each event could happen.
  unfoldable pub run : List Event → Firmware → Option (Firmware × List Effect)
  unfolding step
  run [] s = some (s, [])
  run (e ∷ es) s = elim (step e s) [
    | none ↦ none
    | some (s', effects) ↦ elim (run es s') [
      | none ↦ none
      | some (t, later) ↦ some (t, effects ++ later)
    ]
  ]

  -- A run is its first step and the run after it.
  pub run-cons :
      (e : Event) (es : List Event) (s t : Firmware) (effects : List Effect)
      → run (e ∷ es) s ≡ some (t, effects)
      → (next : Firmware) × (first later : List Effect) × (step e s ≡ some (next, first))
        × (run es next ≡ some (t, later))
        × (effects ≡ first ++ later)
  unfolding run
  run-cons e es s t effects h = elim (Option-cases (step e s)) [
    | inl stuck ↦ absurd (ground arith)
    | inr ((next, first), moved) ↦ elim (Option-cases (run es next)) [
      | inl stuck ↦ absurd (ground arith)
      | inr ((last, later), rest) ↦ (next, first, later, moved, ground arith, ground arith)
    ]
  ]

  -- The state after `main` has started the threads.
  abbrev pub booted : Firmware
  booted = record {
    session = start link;
    locals = locals_zero;
    machine = boot pf (record { queue = pf.can_tx.empty; frame_counts = frame_counts_zero });
    rs485_test_active = false;
  }
