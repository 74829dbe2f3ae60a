-- ===== src/Board.antt =====
-- src/can_converter.c (the test button), src/can_converter_dfu.c, the test mode of
-- src/can_converter_rs485.c and the start in src/main.c. The handler of the button sleeps for two
-- seconds between its two halves, while the other threads go on.
use zephyr_can_converter_uni.Prelude.{Bool, true, false, List, [], ◌∷◌, ◌++◌, if◌then◌else◌}
use zephyr_can_converter_uni.Platform.{Platform}
use zephyr_can_converter_uni.Rs485.{MasterData}
use zephyr_can_converter_uni.Can.{
  Can, Led, StatusLed, Effect, ccu_can_test_set, ccu_can_test_send_all,
}

unfoldable pub on_dfu_start : List Effect
on_dfu_start = Effect.status_led_set StatusLed.dfu ∷ []

unfoldable pub on_dfu_end : List Effect
on_dfu_end = Effect.status_led_set StatusLed.operational ∷ []

module _ (pf : Platform) where
  -- What the test mode changes: the globals of the CAN side, and `test_active` of the RS485 side,
  -- which is written and never read.
  pub record Board : Type 0 where
    pub can : Can pf
    pub rs485_test_active : Bool

  unfoldable pub ccu_rs485_test_set : Bool → Board → Board × List Effect
  ccu_rs485_test_set active b = (
    record b { rs485_test_active = active },
    if active
        then Effect.gpio_set Led.rs485_rx ∷ Effect.gpio_set Led.rs485_tx ∷ []
        else Effect.gpio_reset Led.rs485_rx ∷ Effect.gpio_reset Led.rs485_tx ∷ [],
  )

  -- `on_test_button` up to its sleep
  unfoldable pub test_begin : MasterData → Board → Board × List Effect
  unfolding ccu_rs485_test_set
  test_begin d b =
      let (c1, can_leds) = ccu_can_test_set pf true b.can in
      let (b1, rs485_leds) = ccu_rs485_test_set true (record b { can = c1 }) in
      let c2 = record (b1.can) { tx = ccu_can_test_send_all pf d b1.can.tx } in
      (
        record b1 { can = c2 },
        Effect.status_led_set_override true ∷ (can_leds ++ (rs485_leds ++ Effect.sleep 2000 ∷ [])),
      )

  -- `on_test_button` after its sleep
  unfoldable pub test_end : Board → Board × List Effect
  unfolding ccu_rs485_test_set
  test_end b =
      let (c1, can_leds) = ccu_can_test_set pf false b.can in
      let (b1, rs485_leds) = ccu_rs485_test_set false (record b { can = c1 }) in
      (b1, can_leds ++ (rs485_leds ++ Effect.status_led_set_override false ∷ []))
