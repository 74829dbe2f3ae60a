-- ===== src/Periodic/Phase.antt =====
-- When the periodic thread sends what. `a` counts the ticks since the last firmware update, `b` all
-- ticks outside of one.
use zephyr_can_converter_uni.Prelude.{
  none, leb, u8, ◌+◌, ◌&&◌, ℕ, suc, ◌/◌, ◌%◌, ◌≡◌, refl, ap, ◌∙◌, Bool, true, false, List, [], ◌∷◌,
  ◌++◌, ◌==◌, if◌then◌else◌, arith,
}
use zephyr_can_converter_uni.Platform.{Platform}
use zephyr_can_converter_uni.Rs485.{MasterData}
use zephyr_can_converter_uni.Frames.{Tx}
use zephyr_can_converter_uni.Frames.Messages.{Message, send, send_all}
use zephyr_can_converter_uni.Periodic.{
  tick_100ms, tick_1000ms, tick_1s, Locals, locals_zero, Input, send_10ms, send_100ms, send_1000ms,
  send_10s, tick,
}

abbrev pub when : Bool → List Message → List Message
when b ms = if b then ms else []

-- What the store offers to each rate.
abbrev pub every_10ms : MasterData → List Message
every_10ms d =
    when d.master_status_valid (Message.send_mcu_state d.master_status ∷ [])
    ++ when d.master_faults_valid (Message.send_mcu_faults d.master_faults ∷ [])

abbrev pub every_100ms : MasterData → List Message
every_100ms d = when d.master_measurements_valid (
    Message.send_mcu_analog_speed d.master_measurements
    ∷ Message.send_mcu_analog_powertrain d.master_measurements
    ∷ Message.send_mcu_analog_fuel_cell d.master_measurements
    ∷ Message.send_mcu_analog_accessory d.master_measurements
    ∷ [])

abbrev pub every_1s : MasterData → List Message
every_1s d =
    when d.master_measurements_valid (
      Message.send_mcu_analog_pedals d.master_measurements
      ∷ Message.send_mcu_inputs d.master_measurements
      ∷ [])
    ++ (when d.protium_operating_state_valid
          (Message.send_protium_state d.protium_operating_state ∷ [])
        ++ when d.protium_values_valid (
            Message.send_protium_power d.protium_values
            ∷ Message.send_protium_thermal d.protium_values
            ∷ Message.send_protium_hydrogen d.protium_values
            ∷ Message.send_protium_setpoints d.protium_values
            ∷ Message.send_protium_stasis d.protium_values
            ∷ Message.send_protium_misc d.protium_values
            ∷ []))

abbrev pub every_10s : MasterData → List Message
every_10s d =
    when d.master_measurements_valid (Message.send_mcu_analog_unassigned d.master_measurements ∷ [])

-- What comes after the fastest rate.
abbrev pub slower : ℕ → ℕ → MasterData → List Message
slower a b d =
    when (a % 10 == 0) (every_100ms d)
    ++ (when (a % 100 == 0) (every_1s d) ++ when (b % 1000 == 0) (every_10s d))

-- The schedule: what tick number `a`, counted from 1 after the last update, and number `b` in all
-- has to send.
abbrev pub due : ℕ → ℕ → MasterData → List Message
due a b d = every_10ms d ++ slower a b d

-- The counters of the thread after `a` ticks since the last update and `b` ticks in all.
pub record InPhase (a b : ℕ) (l : Locals) : Type 0 where
  pub tenths : l.cnt_100ms ≡ a % 10
  pub seconds : l.cnt_1000ms ≡ a % 100
  pub reports : l.cnt_1s ≡ b % 100
  pub tens : l.cnt_unassign ≡ b / 100 % 10

pub locals_zero-InPhase : InPhase 0 0 locals_zero
locals_zero-InPhase = omega arith

module _ (pf : Platform) where
  send_all-append :
      (xs ys : List Message) (tx : Tx pf)
      → send_all pf (xs ++ ys) tx ≡ send_all pf ys (send_all pf xs tx)
  unfolding send_all
  send_all-append [] ys tx = refl
  send_all-append (x ∷ xs) ys tx = send_all-append xs ys (send pf x tx)

  send_10ms_lem : (d : MasterData) (tx : Tx pf) → send_10ms pf d tx ≡ send_all pf (every_10ms d) tx
  unfolding send_10ms send_all
  send_10ms_lem d tx = ground arith

  send_100ms_lem :
      (d : MasterData) (tx : Tx pf) → send_100ms pf d tx ≡ send_all pf (every_100ms d) tx
  unfolding send_100ms send_all
  send_100ms_lem d tx = ground arith

  send_1000ms_lem :
      (d : MasterData) (tx : Tx pf) → send_1000ms pf d tx ≡ send_all pf (every_1s d) tx
  unfolding send_1000ms send_all
  send_1000ms_lem d tx = ground arith

  send_10s_lem : (d : MasterData) (tx : Tx pf) → send_10s pf d tx ≡ send_all pf (every_10s d) tx
  unfolding send_10s send_all
  send_10s_lem d tx = ground arith

  -- A tick outside of an update moves the counters from their place in the schedule to the next one.
  pub tick-InPhase :
      (inp : Input) (a b : ℕ) (l : Locals) (tx : Tx pf)
      → inp.dfu_active ≡ false
      → InPhase a b l
      → InPhase (suc a) (suc b) (tick pf inp l tx).0
  unfolding tick
  tick-InPhase inp a b l tx run p = ground arith

  -- A tick within an update restarts the faster rates.
  pub tick-InPhase_dfu :
      (inp : Input) (a b : ℕ) (l : Locals) (tx : Tx pf)
      → inp.dfu_active ≡ true
      → InPhase a b l
      → InPhase 0 b (tick pf inp l tx).0
  unfolding tick
  tick-InPhase_dfu inp a b l tx run p = ground arith

  queue_100ms :
      (d : MasterData) (l : Locals) (tx : Tx pf) (b : Bool)
      → leb 10 l.cnt_100ms ≡ b
      → (tick_100ms pf d l tx).1 ≡ send_all pf (when b (every_100ms d)) tx
  unfolding tick_100ms send_all
  queue_100ms d l tx true e = rw (e, tick_100ms) (send_100ms_lem d tx)
  queue_100ms d l tx false e = rw (e, tick_100ms)

  queue_1000ms :
      (d : MasterData) (l : Locals) (tx : Tx pf) (b : Bool)
      → leb 100 l.cnt_1000ms ≡ b
      → (tick_1000ms pf d l tx).1 ≡ send_all pf (when b (every_1s d)) tx
  unfolding tick_1000ms send_all
  queue_1000ms d l tx true e = rw (e, tick_1000ms) (send_1000ms_lem d tx)
  queue_1000ms d l tx false e = rw (e, tick_1000ms)

  queue_1s :
      (inp : Input) (l : Locals) (tx : Tx pf) (b : Bool)
      → (leb 100 (u8 (l.cnt_1s + 1)) && leb 10 (u8 (l.cnt_unassign + 1))) ≡ b
      → (tick_1s pf inp l tx).1 ≡ send_all pf (when b (every_10s inp.master_data)) tx
  unfolding tick_1s send_all
  queue_1s inp l tx true e = ground (arith, send_10s_lem inp.master_data tx)
  queue_1s inp l tx false e = ground arith

  -- A tick outside of an update sends what the schedule says, in that order, and nothing else.
  pub tick-due :
      (inp : Input) (a b : ℕ) (l : Locals) (tx : Tx pf)
      → inp.dfu_active ≡ false
      → InPhase a b l
      → (tick pf inp l tx).1 ≡ send_all pf (due (suc a) (suc b) inp.master_data) tx
  unfolding tick
  tick-due inp a b l tx run p =
      rw (run, tick)
        (queue_1s inp after_1s.0 after_1s.1 (suc b % 1000 == 0) tens_due
          ∙ (ap tens (queue_1000ms d after_100ms.0 after_100ms.1 (suc a % 100 == 0) second_due)
              ∙ (ap (λ t. tens (send_all pf (when (suc a % 100 == 0) (every_1s d)) t))
                    (queue_100ms d counted (send_10ms pf d tx) (suc a % 10 == 0) tenth_due)
                  ∙ simp (send_10ms_lem, send_all-append))))
    where
      d : MasterData
      d = inp.master_data

      tens : Tx pf → Tx pf
      tens = send_all pf (when (suc b % 1000 == 0) (every_10s d))

      counted : Locals
      counted = record l { cnt_100ms = u8 (l.cnt_100ms + 1); cnt_1000ms = u8 (l.cnt_1000ms + 1) }

      after_100ms : Locals × Tx pf
      after_100ms = tick_100ms pf d counted (send_10ms pf d tx)

      after_1s : Locals × Tx pf
      after_1s = tick_1000ms pf d after_100ms.0 after_100ms.1

      tenth_due : leb 10 counted.cnt_100ms ≡ (suc a % 10 == 0)
      tenth_due = ground arith

      second_due : leb 100 after_100ms.0.cnt_1000ms ≡ (suc a % 100 == 0)
      second_due = ground arith

      tens_due :
          (leb 100 (u8 (after_1s.0.cnt_1s + 1)) && leb 10 (u8 (after_1s.0.cnt_unassign + 1)))
          ≡ (suc b % 1000 == 0)
      tens_due = ground arith

  -- While an update runs a tick sends and reports nothing.
  pub tick_dfu :
      (inp : Input) (l : Locals) (tx : Tx pf)
      → inp.dfu_active ≡ true
      → ((tick pf inp l tx).1 ≡ tx) × ((tick pf inp l tx).2 ≡ none)
  unfolding tick
  tick_dfu inp l tx run = (rw (run, tick), rw (run, tick))
