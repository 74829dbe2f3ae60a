-- ===== src/System/Outputs/Upheld.antt =====
-- What holds of the LEDs and the work items in every run.
use zephyr_can_converter_uni.Prelude.{
  ℕ, ◌≤◌, ◌≡◌, ◌⊎◌, refl, Bool, true, false, List, [], ◌∷◌, Option, none, some, arith, inl, inr,
  Option-cases,
}
use zephyr_can_converter_uni.Platform.{Platform}
use zephyr_can_converter_uni.Rs485.{Link, parser_round}
use zephyr_can_converter_uni.Can.{
  can_state_change_cb, tx_led_off_handler, rx_led_off_handler, bus_off_recovery_handler,
  ccu_dfu_rx_cb, ccu_can_test_set,
}
use zephyr_can_converter_uni.Can.TxThread
use zephyr_can_converter_uni.Can.TxThread.{Machine, TxEvent}
use zephyr_can_converter_uni.Can.TxThread.Lit.{step-effects}
use zephyr_can_converter_uni.Board.{
  on_dfu_start, on_dfu_end, test_begin, test_end, ccu_rs485_test_set,
}
use zephyr_can_converter_uni.System
use zephyr_can_converter_uni.System.{Firmware, Event, board, thread}
use zephyr_can_converter_uni.System.Outputs.{
  Outputs, Timer, apply_effects, World, Moment, step, run, started,
}

-- The item is pending, and at most `ms` milliseconds of its delay are left.
abbrev pub IsWithin : ℕ → Timer → Type 0
IsWithin ms t = (t.pending ≡ true) × (t.left ≤ ms)

-- Each LED is off, or lit by the test mode, or about to be turned off; and a bus-off is over, or its
-- recovery is about to be tried.
pub record IsUpheld (test_active : Bool) (o : Outputs) : Type 0 where
  pub tx : (o.tx_lit ≡ false) ⊎ ((test_active ≡ true) ⊎ IsWithin 50 o.tx_off)
  pub rx : (o.rx_lit ≡ false) ⊎ ((test_active ≡ true) ⊎ IsWithin 50 o.rx_off)
  pub recovery : (o.in_bus_off ≡ false) ⊎ IsWithin 1000 o.recovery

module _ (pf : Platform) (link : Link) where
  -- The part of `step` that is the same for all events of the TX thread.
  abbrev thread_step : TxEvent pf → World pf link → Option (World pf link)
  thread_step e w = elim (thread pf link e w.firmware) [
    | none ↦ none
    | some (s, effects) ↦ some (record { firmware = s; outputs = apply_effects effects w.outputs })
  ]

  abbrev pub Upheld : World pf link → Type 0
  Upheld w = IsUpheld w.firmware.machine.can.test_active w.outputs

  -- A step of the TX thread or of the driver, as an event of the whole.
  thread-Upheld :
      (e : TxEvent pf) (w w' : World pf link) → thread_step e w ≡ some w' → Upheld w → Upheld w'
  unfolding thread
  thread-Upheld e w w' h v = elim (Option-cases (TxThread.step pf e w.firmware.machine)) [
    | inl stuck ↦ ground arith
    | inr ((m, effects), moved) ↦ elim (step-effects pf e w.firmware.machine m effects moved).1 [
      | inl none_made ↦ ground (arith, (step-effects pf e w.firmware.machine m effects moved).0)
      | inr flashed ↦ ground (arith, (step-effects pf e w.firmware.machine m effects moved).0)
    ]
  ]

  step-Upheld :
      (e : Moment pf link) (w w' : World pf link)
      → step pf link e w ≡ some w'
      → Upheld w
      → Upheld w'
  unfolding step System.step board can_state_change_cb tx_led_off_handler rx_led_off_handler
      bus_off_recovery_handler ccu_dfu_rx_cb on_dfu_start on_dfu_end test_begin test_end
      ccu_rs485_test_set ccu_can_test_set
  step-Upheld (Moment.happen Event.tx_led_off) w w' h v = ground arith
  step-Upheld (Moment.happen (Event.recovered ret)) w w' h v = ground arith
  step-Upheld (Moment.happen (Event.state_change c)) w w' h v = ground arith
  step-Upheld (Moment.happen (Event.button)) w w' h v = ground arith
  step-Upheld (Moment.happen (Event.button_end)) w w' h v = ground arith
  step-Upheld (Moment.happen (Event.tick dfu)) w w' h v = ground arith
  step-Upheld (Moment.happen (Event.packet p)) w w' h v =
      elim (Option-cases (parser_round link p w.firmware.session)) [
        | inl stuck ↦ ground arith
        | inr (session', fed) ↦ ground arith
      ]
  step-Upheld (Moment.happen Event.get) w w' h v = thread-Upheld TxEvent.get w w' h v
  step-Upheld (Moment.happen (Event.sent ret)) w w' h v = thread-Upheld (TxEvent.sent ret) w w' h v
  step-Upheld (Moment.happen Event.take) w w' h v = thread-Upheld TxEvent.take w w' h v
  step-Upheld (Moment.happen Event.timeout) w w' h v = thread-Upheld TxEvent.timeout w w' h v
  step-Upheld (Moment.happen Event.finish) w w' h v = thread-Upheld TxEvent.finish w w' h v
  step-Upheld (Moment.happen (Event.callback error)) w w' h v =
      thread-Upheld (TxEvent.callback error) w w' h v
  step-Upheld (Moment.pass ms) w w' h v = ground arith
  step-Upheld _ w w' h v = ground arith

  run-Upheld :
      (es : List (Moment pf link)) (w w' : World pf link)
      → run pf link es w ≡ some w'
      → Upheld w
      → Upheld w'
  unfolding run
  run-Upheld [] w w' h v = ground arith
  run-Upheld (e ∷ es) w w' h v = elim (Option-cases (step pf link e w)) [
    | inl stuck ↦ ground arith
    | inr (next, moved) ↦ run-Upheld es next w' (ground arith) (step-Upheld e w next moved v)
  ]

  -- From the start, after any sequence of events with any times between them, in which a handler runs
  -- only when its work item's delay is over: each CAN LED is off, or the test mode is on, or the LED
  -- is due to be turned off in at most 50 ms; and after a report of bus-off the recovery has
  -- succeeded or reported that the driver recovers by itself, or is due to be tried in at most one
  -- second.
  pub run-started :
      (es : List (Moment pf link)) (w : World pf link)
      → run pf link es (started pf link) ≡ some w
      → ((w.outputs.tx_lit ≡ false)
          ⊎ ((w.firmware.machine.can.test_active ≡ true) ⊎ IsWithin 50 w.outputs.tx_off))
        × ((w.outputs.rx_lit ≡ false)
            ⊎ ((w.firmware.machine.can.test_active ≡ true) ⊎ IsWithin 50 w.outputs.rx_off))
        × ((w.outputs.in_bus_off ≡ false) ⊎ IsWithin 1000 w.outputs.recovery)
  run-started es w h = let v = run-Upheld es (started pf link) w h start in (v.tx, v.rx, v.recovery)
    where
      start : Upheld (started pf link)
      start = record { tx = inl refl; rx = inl refl; recovery = inl refl }
