-- ===== src/Periodic/Sources.antt =====
-- Where the periodic thread's messages come from: the valid parts of the store.
use zephyr_can_converter_uni.Prelude.{
  ℕ, suc, ◌+◌, ◌%◌, ◌≡◌, refl, true, false, Bool, List, [], ◌∷◌, Option, none, some, arith, ◌&&◌,
  u32, ◌==◌, if◌then◌else◌, All, All-append,
}
use mathlib.Core.Option
use zephyr_can_converter_uni.Platform.{Platform}
use zephyr_can_converter_uni.Rs485.{MasterData}
use zephyr_can_converter_uni.Rs485.Latest.{Part, Held, held}
use zephyr_can_converter_uni.Frames.{Tx}
use zephyr_can_converter_uni.Frames.Messages.{FrameKind, Message, kind, counter}
use zephyr_can_converter_uni.Periodic.{Locals, Input, tick}
use zephyr_can_converter_uni.Periodic.Rates.{occurrences, counter-send_all}
use zephyr_can_converter_uni.Periodic.Phase.{
  InPhase, tick-due, when, due, every_10ms, every_100ms, every_1s, slower,
}

-- The message of a kind that the content of its part of the store leads to, if there is one; none for
-- the time synchronisation.
abbrev pub message_by : FrameKind → ((p : Part) → Option (Held p)) → Option Message
message_by FrameKind.mcu_time_sync part = none
message_by FrameKind.mcu_state part = Option.map Message.send_mcu_state (part Part.status)
message_by FrameKind.mcu_faults part = Option.map Message.send_mcu_faults (part Part.faults)
message_by FrameKind.protium_state part =
    Option.map Message.send_protium_state (part Part.operating_state)
message_by FrameKind.mcu_inputs part = Option.map Message.send_mcu_inputs (part Part.measurements)
message_by FrameKind.mcu_analog_speed part =
    Option.map Message.send_mcu_analog_speed (part Part.measurements)
message_by FrameKind.mcu_analog_pedals part =
    Option.map Message.send_mcu_analog_pedals (part Part.measurements)
message_by FrameKind.mcu_analog_powertrain part =
    Option.map Message.send_mcu_analog_powertrain (part Part.measurements)
message_by FrameKind.mcu_analog_fuel_cell part =
    Option.map Message.send_mcu_analog_fuel_cell (part Part.measurements)
message_by FrameKind.mcu_analog_accessory part =
    Option.map Message.send_mcu_analog_accessory (part Part.measurements)
message_by FrameKind.mcu_analog_unassigned part =
    Option.map Message.send_mcu_analog_unassigned (part Part.measurements)
message_by FrameKind.protium_power part = Option.map Message.send_protium_power (part Part.values)
message_by FrameKind.protium_thermal part =
    Option.map Message.send_protium_thermal (part Part.values)
message_by FrameKind.protium_hydrogen part =
    Option.map Message.send_protium_hydrogen (part Part.values)
message_by FrameKind.protium_setpoints part =
    Option.map Message.send_protium_setpoints (part Part.values)
message_by FrameKind.protium_stasis part = Option.map Message.send_protium_stasis (part Part.values)
message_by FrameKind.protium_misc part = Option.map Message.send_protium_misc (part Part.values)

-- The message that the store leads to; none for a part that is not valid.
abbrev pub message_of : FrameKind → MasterData → Option Message
message_of k d = message_by k (λ p. held p d)

-- A message that the store backs: its part is valid and holds its argument.
abbrev pub IsBackedBy : MasterData → Message → Type 0
IsBackedBy d m = message_of (kind m) d ≡ some m

-- Whether the rate of a kind comes round at tick `a` since the last update and `b` in all.
abbrev pub is_round : FrameKind → ℕ → ℕ → Bool
is_round FrameKind.mcu_time_sync a b = false
is_round FrameKind.mcu_state a b = true
is_round FrameKind.mcu_faults a b = true
is_round FrameKind.mcu_analog_speed a b = a % 10 == 0
is_round FrameKind.mcu_analog_powertrain a b = a % 10 == 0
is_round FrameKind.mcu_analog_fuel_cell a b = a % 10 == 0
is_round FrameKind.mcu_analog_accessory a b = a % 10 == 0
is_round FrameKind.mcu_analog_unassigned a b = b % 1000 == 0
is_round _ a b = a % 100 == 0

when-All :
    (P : Message → Type 0) (b : Bool) (ms : List Message)
    → (b ≡ true → All P ms)
    → All P (when b ms)
when-All P true ms h = h refl
when-All P false ms h = tt

-- A message that is backed and whose rate comes round.
abbrev pub IsDue : ℕ → ℕ → MasterData → Message → Type 0
IsDue a b d m = IsBackedBy d m × (is_round (kind m) a b ≡ true)

module _ (a b : ℕ) (d : MasterData) where
  every_10ms-IsDue : All (IsDue a b d) (every_10ms d)
  every_10ms-IsDue =
      All-append (IsDue a b d)
        (when d.master_status_valid (Message.send_mcu_state d.master_status ∷ [])) _
        (when-All (IsDue a b d) d.master_status_valid _ (λ v. ((rw v, refl), tt)))
        (when-All (IsDue a b d) d.master_faults_valid _ (λ v. ((rw v, refl), tt)))

  every_100ms-IsDue : (a % 10 == 0) ≡ true → All (IsDue a b d) (every_100ms d)
  every_100ms-IsDue r =
      when-All (IsDue a b d) d.master_measurements_valid _
        (λ v. ((rw v, r), ((rw v, r), ((rw v, r), ((rw v, r), tt)))))

  every_1s-IsDue : (a % 100 == 0) ≡ true → All (IsDue a b d) (every_1s d)
  every_1s-IsDue r =
      All-append (IsDue a b d)
        (when d.master_measurements_valid (
          Message.send_mcu_analog_pedals d.master_measurements
          ∷ Message.send_mcu_inputs d.master_measurements
          ∷ []))
        _ (when-All (IsDue a b d) d.master_measurements_valid _ (λ v. ((rw v, r), ((rw v, r), tt))))
        (All-append (IsDue a b d)
          (when d.protium_operating_state_valid
            (Message.send_protium_state d.protium_operating_state ∷ []))
          _ (when-All (IsDue a b d) d.protium_operating_state_valid _ (λ v. ((rw v, r), tt)))
          (when-All (IsDue a b d) d.protium_values_valid _ (λ v.
            ((rw v, r), ((rw v, r), ((rw v, r), ((rw v, r), ((rw v, r), ((rw v, r), tt)))))))))

  -- All that is due comes from a valid part of the store, at its rate.
  pub due-IsDue : All (IsDue a b d) (due a b d)
  due-IsDue = All-append (IsDue a b d) (every_10ms d) (slower a b d) every_10ms-IsDue (
      All-append (IsDue a b d) (when (a % 10 == 0) (every_100ms d)) _
        (when-All (IsDue a b d) (a % 10 == 0) _ every_100ms-IsDue)
        (All-append (IsDue a b d) (when (a % 100 == 0) (every_1s d)) _
          (when-All (IsDue a b d) (a % 100 == 0) _ every_1s-IsDue)
          (when-All (IsDue a b d) (b % 1000 == 0) _
            (λ r. when-All (IsDue a b d) d.master_measurements_valid _ (λ v. ((rw v, r), tt))))))

abbrev pub is_some {ℓ} : {A : Type ℓ} → Option A → Bool
is_some none = false
is_some (some a) = true

-- A kind is due once or not at all: at its rate, if its part of the store is valid.
pub occurrences-due :
    (k : FrameKind) (a b : ℕ) (d : MasterData)
    → occurrences k (due a b d) ≡ (if is_round k a b && is_some (message_of k d) then 1 else 0)
unfolding occurrences
occurrences-due FrameKind.mcu_state a b d = ground arith
occurrences-due k a b d = ground arith

module _ (pf : Platform) where
  -- A tick outside of an update counts one frame of a kind, modulo 2^32, if the rate of the kind comes
  -- round at this tick and its part of the store is valid, and none otherwise.
  pub counter-tick :
      (k : FrameKind) (inp : Input) (a b : ℕ) (l : Locals) (tx : Tx pf)
      → inp.dfu_active ≡ false
      → InPhase a b l
      → u32 (counter k (tick pf inp l tx).1.frame_counts)
        ≡ u32 (
            counter k tx.frame_counts
            + (if is_round k (suc a) (suc b) && is_some (message_of k inp.master_data)
                then 1
                else 0))
  counter-tick k inp a b l tx normal p =
      rw (tick-due pf inp a b l tx normal p, ← occurrences-due k (suc a) (suc b) inp.master_data)
        (counter-send_all pf k (due (suc a) (suc b) inp.master_data) tx)
