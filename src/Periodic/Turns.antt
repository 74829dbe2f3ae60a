-- ===== src/Periodic/Turns.antt =====
-- How often the rate of a kind of frame comes round, and its nominal period.
use zephyr_can_converter_uni.Prelude.{
  ℕ, suc, ◌+◌, ◌*◌, ◌/◌, ◌≡◌, ◌≢◌, refl, true, false, arith, if◌then◌else◌, ◌&&◌,
}
use zephyr_can_converter_uni.Rs485.{MasterData}
use zephyr_can_converter_uni.Frames.Messages.{FrameKind}
use zephyr_can_converter_uni.Periodic.Sources.{message_of, is_some, is_round}

-- The nominal period of a kind in ticks of 10 ms.
abbrev pub period : FrameKind → ℕ
period FrameKind.mcu_time_sync = 1
period FrameKind.mcu_state = 1
period FrameKind.mcu_faults = 1
period FrameKind.mcu_analog_speed = 10
period FrameKind.mcu_analog_powertrain = 10
period FrameKind.mcu_analog_fuel_cell = 10
period FrameKind.mcu_analog_accessory = 10
period FrameKind.mcu_analog_unassigned = 1000
period _ = 100

-- How often the rate of a kind came round by tick `a` since the last update and `b` in all.
abbrev pub turns : FrameKind → ℕ → ℕ → ℕ
turns FrameKind.mcu_time_sync a b = 0
turns FrameKind.mcu_state a b = a
turns FrameKind.mcu_faults a b = a
turns FrameKind.mcu_analog_speed a b = a / 10
turns FrameKind.mcu_analog_powertrain a b = a / 10
turns FrameKind.mcu_analog_fuel_cell a b = a / 10
turns FrameKind.mcu_analog_accessory a b = a / 10
turns FrameKind.mcu_analog_unassigned a b = b / 1000
turns _ a b = a / 100

pub is_round-turns :
    (k : FrameKind) (a b : ℕ)
    → (if is_round k (suc a) (suc b) && true then 1 else 0) + turns k a b ≡ turns k (suc a) (suc b)
is_round-turns FrameKind.mcu_state a b = omega arith
is_round-turns k a b = ground arith

pub turns-period :
    (k : FrameKind) (a b m : ℕ)
    → k ≢ FrameKind.mcu_time_sync
    → turns k (m * period k + a) (m * period k + b) ≡ turns k a b + m
turns-period FrameKind.mcu_time_sync a b m h = absurd (h refl)
turns-period FrameKind.mcu_state a b m h = omega arith
turns-period k a b m h = omega arith

pub known-ne_sync :
    (k : FrameKind) (d : MasterData) → is_some (message_of k d) ≡ true → k ≢ FrameKind.mcu_time_sync
known-ne_sync k d h = λ same. not_here (rw same at h)
  where
    not_here : false ≡ true → ⊥
    not_here wrong = cc
