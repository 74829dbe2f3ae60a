-- ===== src/System/TestMode.antt =====
-- The test mode of src/can_converter.c and the CAN LEDs, over steps of the whole firmware.
use zephyr_can_converter_uni.Prelude.{
  ◌≡◌, ◌≢◌, refl, true, List, [], ◌∷◌, some, arith, All, All-append, inl, inr, Option-cases,
}
use zephyr_can_converter_uni.Platform.{Platform}
use zephyr_can_converter_uni.Rs485.{Link, parser_round}
use zephyr_can_converter_uni.Can.{
  Effect, can_state_change_cb, tx_led_off_handler, rx_led_off_handler, bus_off_recovery_handler,
  ccu_dfu_rx_cb, ccu_can_test_set,
}
use zephyr_can_converter_uni.Can.TxThread
use zephyr_can_converter_uni.Can.TxThread.{Machine, TxEvent}
use zephyr_can_converter_uni.Can.TxThread.Lit.{IsLit, step-IsLit}
use zephyr_can_converter_uni.Board.{on_dfu_start, on_dfu_end, test_begin, ccu_rs485_test_set}
use zephyr_can_converter_uni.System.{Firmware, Event, step, run, run-cons, thread, board}

module _ (pf : Platform) (link : Link) where
  abbrev pub InTest : Firmware pf link → Type 0
  InTest s = s.machine.can.test_active ≡ true

  thread-IsLit :
      (e : TxEvent pf) (s s' : Firmware pf link) (effects : List Effect)
      → thread pf link e s ≡ some (s', effects)
      → InTest s
      → InTest s' × IsLit effects
  unfolding thread
  thread-IsLit e s s' effects h t = elim (Option-cases (TxThread.step pf e s.machine)) [
    | inl stuck ↦ ground arith
    | inr ((m, done), moved) ↦ ground (arith, step-IsLit pf e s.machine m done moved)
  ]

  step-IsLit_test :
      (e : Event) (s s' : Firmware pf link) (effects : List Effect)
      → e ≢ Event.button_end
      → step pf link e s ≡ some (s', effects)
      → InTest s
      → InTest s' × IsLit effects
  unfolding step board test_begin ccu_rs485_test_set ccu_can_test_set can_state_change_cb
      tx_led_off_handler rx_led_off_handler bus_off_recovery_handler ccu_dfu_rx_cb on_dfu_start
      on_dfu_end
  step-IsLit_test (Event.packet p) s s' effects n h t =
      elim (Option-cases (parser_round link p s.session)) [
        | inl stuck ↦ ground arith
        | inr (session', fed) ↦ ground arith
      ]
  step-IsLit_test Event.get s s' effects n h t = thread-IsLit TxEvent.get s s' effects h t
  step-IsLit_test (Event.sent ret) s s' effects n h t =
      thread-IsLit (TxEvent.sent ret) s s' effects h t
  step-IsLit_test Event.take s s' effects n h t = thread-IsLit TxEvent.take s s' effects h t
  step-IsLit_test Event.timeout s s' effects n h t = thread-IsLit TxEvent.timeout s s' effects h t
  step-IsLit_test Event.finish s s' effects n h t = thread-IsLit TxEvent.finish s s' effects h t
  step-IsLit_test (Event.callback error) s s' effects n h t =
      thread-IsLit (TxEvent.callback error) s s' effects h t
  step-IsLit_test Event.button_end s s' effects n h t = absurd (n refl)
  step-IsLit_test _ s s' effects n h t = ground arith

  run-IsLit :
      (es : List Event) (s s' : Firmware pf link) (effects : List Effect)
      → All (λ e. e ≢ Event.button_end) es
      → run pf link es s ≡ some (s', effects)
      → InTest s
      → InTest s' × IsLit effects
  unfolding run
  run-IsLit [] s s' effects n h t = ground arith
  run-IsLit (e ∷ es) s s' effects n h t =
      let (next, first, later, moved, rest, all) = run-cons pf link e es s s' effects h in
      let now = step-IsLit_test e s next first n.0 moved t in
      let then_lit = run-IsLit es next s' later n.1 rest now.0 in
      (then_lit.0, rw all (All-append _ first later now.1 then_lit.1))

  button-IsLit :
      (s s' : Firmware pf link) (effects : List Effect)
      → step pf link Event.button s ≡ some (s', effects)
      → InTest s' × IsLit effects
  unfolding step board test_begin ccu_rs485_test_set ccu_can_test_set
  button-IsLit s s' effects h = ground arith

  -- Between the press of the test button and the end of its handler, in any sequence of steps of the
  -- rest of the firmware, no CAN LED is turned off and the test mode stays on.
  pub run-button :
      (es : List Event) (s s' : Firmware pf link) (effects : List Effect)
      → All (λ e. e ≢ Event.button_end) es
      → run pf link (Event.button ∷ es) s ≡ some (s', effects)
      → (s'.machine.can.test_active ≡ true) × IsLit effects
  unfolding run
  run-button es s s' effects n h =
      let (next, first, later, moved, rest, all) =
        run-cons pf link Event.button es s s' effects h in
      let now = button-IsLit s next first moved in
      let then_lit = run-IsLit es next s' later n rest now.0 in
      (then_lit.0, rw all (All-append _ first later now.1 then_lit.1))
