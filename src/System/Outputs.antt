-- ===== src/System/Outputs.antt =====
-- The firmware with what its effects act on: the CAN LEDs and the delayable work items of
-- src/can_converter_can.c, and with the time that passes. `k_work_reschedule` makes an item pending
-- (again) with its delay. The handler of an item runs only when the item is pending and its delay is
-- over, and may run later than that; an item that has run is no longer pending.
pub mod Upheld
use zephyr_can_converter_uni.Prelude.{
  ℕ, ◌-◌, ◌&&◌, ◌==◌, Bool, true, false, ◌||◌, List, [], ◌∷◌, Option, none, some, if◌then◌else◌, ℤ,
  is_zero, same_int,
}
use zephyr_can_converter_uni.Platform.{Platform}
use zephyr_can_converter_uni.Rs485.{Link}
use zephyr_can_converter_uni.Can.{Led, Work, Effect, CanState}
use zephyr_can_converter_uni.System
use zephyr_can_converter_uni.System.{Firmware, Event, booted}

-- A delayable work item: whether it is pending, and the milliseconds of its delay that are left.
pub record Timer : Type 0 where
  pub pending : Bool
  pub left : ℕ

abbrev pub idle : Timer
idle = record { pending = false; left = 0 }

abbrev pub scheduled : ℕ → Timer
scheduled ms = record { pending = true; left = ms }

abbrev pub elapse : ℕ → Timer → Timer
elapse ms t = record t { left = t.left - ms }

abbrev pub is_over : Timer → Bool
is_over t = t.pending && (t.left == 0)

-- `in_bus_off` holds from a report of bus-off to the recovery that ends it; the code does not keep
-- it.
pub record Outputs : Type 0 where
  pub tx_lit : Bool
  pub rx_lit : Bool
  pub tx_off : Timer
  pub rx_off : Timer
  pub recovery : Timer
  pub in_bus_off : Bool

abbrev pub outputs_off : Outputs
outputs_off = record {
  tx_lit = false;
  rx_lit = false;
  tx_off = idle;
  rx_off = idle;
  recovery = idle;
  in_bus_off = false;
}

abbrev pub apply_effect : Effect → Outputs → Outputs
apply_effect (Effect.gpio_set Led.can_tx) o = record o { tx_lit = true }
apply_effect (Effect.gpio_set Led.can_rx) o = record o { rx_lit = true }
apply_effect (Effect.gpio_reset Led.can_tx) o = record o { tx_lit = false }
apply_effect (Effect.gpio_reset Led.can_rx) o = record o { rx_lit = false }
apply_effect (Effect.reschedule Work.tx_led_off ms) o = record o { tx_off = scheduled ms }
apply_effect (Effect.reschedule Work.rx_led_off ms) o = record o { rx_off = scheduled ms }
apply_effect (Effect.reschedule Work.bus_off_recovery ms) o = record o { recovery = scheduled ms }
apply_effect _ o = o

abbrev pub apply_effects : List Effect → Outputs → Outputs
apply_effects [] o = o
apply_effects (e ∷ es) o = apply_effects es (apply_effect e o)

module _ (pf : Platform) (link : Link) where
  open pf use {minus_enotsup}

  -- What the event itself does to the outputs, before the firmware's part; `none` where it is not
  -- the time of a handler's work item.
  abbrev pub fire : Event → Outputs → Option Outputs
  fire Event.tx_led_off o = if is_over o.tx_off then some (record o { tx_off = idle }) else none
  fire Event.rx_led_off o = if is_over o.rx_off then some (record o { rx_off = idle }) else none
  fire (Event.recovered ret) o =
      if is_over o.recovery
      then some (record o {
        recovery = idle;
        in_bus_off = if is_zero ret || same_int ret minus_enotsup then false else o.in_bus_off;
      })
      else none
  fire (Event.state_change CanState.bus_off) o = some (record o { in_bus_off = true })
  fire _ o = some o

  pub record World : Type 0 where
    pub firmware : Firmware pf link
    pub outputs : Outputs

  -- An event of the firmware, or the passing of some milliseconds.
  pub data Moment : Type 0 where
    happen : Event → Moment
    pass : (ms : ℕ) → Moment

  abbrev pub later : ℕ → Outputs → Outputs
  later ms o = record o {
    tx_off = elapse ms o.tx_off;
    rx_off = elapse ms o.rx_off;
    recovery = elapse ms o.recovery;
  }

  unfoldable pub step : Moment → World → Option World
  step (Moment.happen e) w = elim (fire e w.outputs) [
    | none ↦ none
    | some o ↦ elim (System.step pf link e w.firmware) [
      | none ↦ none
      | some (s, effects) ↦ some (record { firmware = s; outputs = apply_effects effects o })
    ]
  ]
  step (Moment.pass ms) w = some (record w { outputs = later ms w.outputs })

  unfoldable pub run : List Moment → World → Option World
  unfolding step
  run [] w = some w
  run (e ∷ es) w = elim (step e w) [ none ↦ none | some w' ↦ run es w' ]

  abbrev pub started : World
  started = record { firmware = booted pf link; outputs = outputs_off }
