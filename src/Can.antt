-- ===== src/Can.antt =====
-- src/can_converter_can.c without its periodic thread: the handlers that Zephyr calls back, the
-- parts of the TX thread between two points where it can wait, and the test mode. A call into
-- another module that gives nothing back is an effect, in the order of the calls; log output is not
-- modelled.
pub mod TxThread
pub mod TestFrames
pub mod Recovery
pub mod DfuFilter
use zephyr_can_converter_uni.Prelude.{
  ℕ, ◌+◌, Bool, true, false, not, ◌&&◌, List, [], ◌∷◌, Option, none, some, if◌then◌else◌, u32, ℤ,
  is_zero, same_int,
}
use zephyr_can_converter_uni.Platform.{CanFrame, Platform}
use zephyr_can_converter_uni.Rs485.{MasterData}
use zephyr_can_converter_uni.Frames.{Tx}
use zephyr_can_converter_uni.Frames.Mcu
use zephyr_can_converter_uni.Frames.Protium

pub data Led : Type 0 where
  can_tx can_rx rs485_tx rs485_rx : Led

pub data Work : Type 0 where
  tx_led_off rx_led_off bus_off_recovery : Work

-- The states of status_led.h that the firmware asks for.
pub data StatusLed : Type 0 where
  operational warning bus_off dfu : StatusLed

pub data Effect : Type 0 where
  gpio_set : Led → Effect
  gpio_reset : Led → Effect
  reschedule : Work → (ms : ℕ) → Effect
  status_led_set : StatusLed → Effect
  status_led_set_override : Bool → Effect
  can_dfu_on_frame : CanFrame → Effect
  sleep : (ms : ℕ) → Effect

-- enum can_state; `other` is any state that the `switch` leaves to its default
pub data CanState : Type 0 where
  error_active error_warning error_passive bus_off other : CanState

module _ (pf : Platform) where
  open pf use {can_tx as can_tx_msgq, tx_done, minus_enotsup}

  -- The globals of the file; `frames_tx_ok` is a uint32_t.
  pub record Can : Type 0 where
    pub tx : Tx pf
    pub done_sem : tx_done.Sem
    pub tx_result : ℤ
    pub test_active : Bool
    pub frames_tx_ok : ℕ

  unfoldable pub tx_led_off_handler : Can → List Effect
  tx_led_off_handler c = if not c.test_active then Effect.gpio_reset Led.can_tx ∷ [] else []

  unfoldable pub rx_led_off_handler : Can → List Effect
  rx_led_off_handler c = if not c.test_active then Effect.gpio_reset Led.can_rx ∷ [] else []

  -- `ret` is what `can_recover` returned.
  unfoldable pub bus_off_recovery_handler : ℤ → List Effect
  bus_off_recovery_handler ret =
      if not (is_zero ret) && not (same_int ret minus_enotsup)
      then Effect.reschedule Work.bus_off_recovery 1000 ∷ []
      else Effect.status_led_set StatusLed.operational ∷ []

  unfoldable pub can_state_change_cb : CanState → Can → Can × List Effect
  can_state_change_cb CanState.error_active c =
      (c, Effect.status_led_set StatusLed.operational ∷ [])
  can_state_change_cb CanState.error_warning c = (c, Effect.status_led_set StatusLed.warning ∷ [])
  can_state_change_cb CanState.error_passive c = (c, Effect.status_led_set StatusLed.warning ∷ [])
  can_state_change_cb CanState.bus_off c = (
    record c { tx = record (c.tx) { queue = can_tx_msgq.purge c.tx.queue } },
    Effect.status_led_set StatusLed.bus_off ∷ Effect.reschedule Work.bus_off_recovery 100 ∷ [],
  )
  can_state_change_cb CanState.other c = (c, [])

  -- `k_msgq_get(…, K_FOREVER)` of the TX thread, `none` while it waits
  unfoldable pub tx_get : Can → Option (CanFrame × Can)
  tx_get c = elim (can_tx_msgq.get c.tx.queue) [
    | none ↦ none
    | some (f, q) ↦ some (f, record c { tx = record (c.tx) { queue = q } })
  ]

  -- `k_sem_take(&can_tx_done_sem, …)`, `none` while it waits
  unfoldable pub tx_take : Can → Option Can
  tx_take c = elim (tx_done.take c.done_sem) [
    | none ↦ none
    | some s ↦ some (record c { done_sem = s })
  ]

  -- the rest of the loop, after the semaphore was taken
  unfoldable pub tx_finish : Can → Can × List Effect
  tx_finish c =
      if is_zero c.tx_result
      then (
        record c { frames_tx_ok = u32 (c.frames_tx_ok + 1) },
        Effect.gpio_set Led.can_tx ∷ Effect.reschedule Work.tx_led_off 50 ∷ [],
      )
      else (c, [])

  unfoldable pub ccu_can_tx_callback : ℤ → Can → Can
  ccu_can_tx_callback error c = record c { tx_result = error; done_sem = tx_done.give c.done_sem }

  unfoldable pub ccu_dfu_rx_cb : CanFrame → List Effect
  ccu_dfu_rx_cb frame =
      Effect.gpio_set Led.can_rx
      ∷ Effect.reschedule Work.rx_led_off 50
      ∷ Effect.can_dfu_on_frame frame
      ∷ []

  unfoldable pub ccu_can_test_set : Bool → Can → Can × List Effect
  ccu_can_test_set active c = (
    record c { test_active = active },
    if active
        then Effect.gpio_set Led.can_rx ∷ Effect.gpio_set Led.can_tx ∷ []
        else Effect.gpio_reset Led.can_rx ∷ Effect.gpio_reset Led.can_tx ∷ [],
  )

  -- `d` is the copy of `data` taken under the mutex.
  unfoldable pub ccu_can_test_send_all : MasterData → Tx pf → Tx pf
  ccu_can_test_send_all d tx0 =
      let m = d.master_measurements in
      let tx1 = Mcu.send_mcu_analog_speed pf m tx0 in
      let tx2 = Mcu.send_mcu_analog_pedals pf m tx1 in
      let tx3 = Mcu.send_mcu_analog_powertrain pf m tx2 in
      let tx4 = Mcu.send_mcu_analog_fuel_cell pf m tx3 in
      let tx5 = Mcu.send_mcu_analog_accessory pf m tx4 in
      let tx6 = Mcu.send_mcu_analog_unassigned pf m tx5 in
      let tx7 = Mcu.send_mcu_inputs pf m tx6 in
      let tx8 = Mcu.send_mcu_state pf d.master_status tx7 in
      let tx9 = Mcu.send_mcu_faults pf d.master_faults tx8 in
      if d.protium_operating_state_valid
      then Protium.send_protium_state pf d.protium_operating_state tx9
      else tx9
