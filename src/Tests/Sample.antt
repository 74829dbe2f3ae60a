-- ===== src/Tests/Sample.antt =====
-- A concrete platform, on which the tests run: queues as lists, a semaphore as a number, and a CAN
-- library with the flags of the state, the faults and the inputs packed bit by bit and a byte for
-- every other signal.
mod Zephyr
mod Faults
mod Inputs
pub use Zephyr.*
pub use Faults.*
pub use Inputs.*
use zephyr_can_converter_uni.Prelude.{
  ℕ, zero, suc, ◌+◌, ◌*◌, ◌/◌, ◌%◌, ◌≤◌, ◌<◌, ◌≡◌, refl, true, false, List, [], ◌∷◌, ◌++◌, Option,
  none, some, min, length, replicate, arith, ltb, if◌then◌else◌, ℤ, pos, negsuc, is_zero, lt→ltb,
  le→ltb_false,
}
use zephyr_can_converter_uni.Candef.{
  Candef, IsClassic, numbers_mcu_time_sync, numbers_mcu_analog_drive, numbers_mcu_analog_pedals,
  numbers_mcu_analog_powertrain, numbers_mcu_analog_fuel_cell, numbers_mcu_analog_accessory,
  numbers_mcu_analog_unassigned, numbers_protium_state, numbers_protium_power,
  numbers_protium_thermal, numbers_protium_hydrogen, numbers_protium_setpoints,
  numbers_protium_stasis, numbers_protium_misc, McuFaults, McuInputs, McuState, Signal,
}
use zephyr_can_converter_uni.Frames.Receive.{IsFlags}
use zephyr_can_converter_uni.Frames.States.{Decoding, IsStateWord}
use zephyr_can_converter_uni.Frames.Inputs.{IsSwitches}
use zephyr_can_converter_uni.Platform.{CanFrame, Msgq, Semaphore, Platform, can_tx_depth}

-- A byte for each signal.
abbrev pub bytes : List (Signal × ℕ) → List ℕ
bytes [] = []
bytes ((g, n) ∷ ns) = n ∷ bytes ns

-- The states take a byte each and the three flags their own bits.
abbrev pub pack_state : McuState → List ℕ
pack_state r =
    r.status
    ∷ r.vehicle_type
    ∷ (r.vehicle_allowed_to_move + r.motor_controller_enabled * 2 + r.main_valve_enabled * 4)
    ∷ []

abbrev state_of : ℕ → ℕ → ℕ → McuState
state_of a b c = record {
  status = a;
  vehicle_type = b;
  vehicle_allowed_to_move = c % 2;
  motor_controller_enabled = c / 2 % 2;
  main_valve_enabled = c / 4 % 2;
}

abbrev pub unpack_state : List ℕ → McuState
unpack_state (a ∷ b ∷ c ∷ rest) = state_of a b c
unpack_state _ = state_of 0 0 0

abbrev pub sample_candef : Candef
sample_candef = record {
  widen = λ x. x;
  from_uint = λ x. x;
  encode = λ signal x. x % 256;
  mcu_time_sync = record {
    frame_id = 0;
    len = 2;
    pack = λ r. bytes (numbers_mcu_time_sync r);
    length-pack = λ r. refl;
  };
  mcu_state = record { frame_id = 1; len = 3; pack = pack_state; length-pack = λ s. refl };
  mcu_inputs = record { frame_id = 2; len = 1; pack = pack_inputs; length-pack = λ s. refl };
  mcu_faults = record { frame_id = 3; len = 3; pack = pack_faults; length-pack = λ s. refl };
  mcu_analog_drive = record {
    frame_id = 4;
    len = 2;
    pack = λ r. bytes (numbers_mcu_analog_drive r);
    length-pack = λ r. refl;
  };
  mcu_analog_pedals = record {
    frame_id = 5;
    len = 2;
    pack = λ r. bytes (numbers_mcu_analog_pedals r);
    length-pack = λ r. refl;
  };
  mcu_analog_powertrain = record {
    frame_id = 6;
    len = 4;
    pack = λ r. bytes (numbers_mcu_analog_powertrain r);
    length-pack = λ r. refl;
  };
  mcu_analog_fuel_cell = record {
    frame_id = 7;
    len = 4;
    pack = λ r. bytes (numbers_mcu_analog_fuel_cell r);
    length-pack = λ r. refl;
  };
  mcu_analog_accessory = record {
    frame_id = 8;
    len = 2;
    pack = λ r. bytes (numbers_mcu_analog_accessory r);
    length-pack = λ r. refl;
  };
  mcu_analog_unassigned = record {
    frame_id = 9;
    len = 4;
    pack = λ r. bytes (numbers_mcu_analog_unassigned r);
    length-pack = λ r. refl;
  };
  protium_state = record {
    frame_id = 10;
    len = 1;
    pack = λ r. bytes (numbers_protium_state r);
    length-pack = λ r. refl;
  };
  protium_power = record {
    frame_id = 11;
    len = 4;
    pack = λ r. bytes (numbers_protium_power r);
    length-pack = λ r. refl;
  };
  protium_thermal = record {
    frame_id = 12;
    len = 4;
    pack = λ r. bytes (numbers_protium_thermal r);
    length-pack = λ r. refl;
  };
  protium_hydrogen = record {
    frame_id = 13;
    len = 4;
    pack = λ r. bytes (numbers_protium_hydrogen r);
    length-pack = λ r. refl;
  };
  protium_setpoints = record {
    frame_id = 14;
    len = 4;
    pack = λ r. bytes (numbers_protium_setpoints r);
    length-pack = λ r. refl;
  };
  protium_stasis = record {
    frame_id = 15;
    len = 4;
    pack = λ r. bytes (numbers_protium_stasis r);
    length-pack = λ r. refl;
  };
  protium_misc = record {
    frame_id = 16;
    len = 2;
    pack = λ r. bytes (numbers_protium_misc r);
    length-pack = λ r. refl;
  };
}

pub sample_candef-IsClassic : IsClassic sample_candef
sample_candef-IsClassic = omega arith

abbrev pub sample : Platform
sample = record {
  candef = sample_candef;
  can_frame_ide = 1;
  minus_enotsup = negsuc 133;
  can_tx = list_msgq CanFrame can_tx_depth;
  tx_done = counting_sem;
}

-- The three flags have two values, and every other signal 256.
abbrev pub sample_values : Signal → ℕ
sample_values Signal.mcu_state_vehicle_allowed_to_move = 2
sample_values Signal.mcu_state_motor_controller_enabled = 2
sample_values Signal.mcu_state_main_valve_enabled = 2
sample_values _ = 256

pub encode-lt_lem : (g : Signal) (n : ℕ) → n < sample_values g → n % 256 < sample_values g
encode-lt_lem Signal.mcu_state_vehicle_allowed_to_move n h = omega arith
encode-lt_lem g n h = omega arith

pub decode-encode_lem : (g : Signal) (n : ℕ) → n < sample_values g → n % 256 ≡ n
decode-encode_lem Signal.mcu_state_vehicle_allowed_to_move n h = omega arith
decode-encode_lem g n h = omega arith

abbrev pub sample_decoding : Decoding sample_candef
sample_decoding = record {
  values = sample_values;
  raw_values = sample_values;
  decode = λ g n. n;
  encode-lt = encode-lt_lem;
  decode-encode = decode-encode_lem;
}

pub unpack-pack_state :
    (r : McuState) → IsStateWord sample sample_decoding r → unpack_state (pack_state r) ≡ r
unpack-pack_state r w = λ i. record {
  status = r.status;
  vehicle_type = r.vehicle_type;
  vehicle_allowed_to_move = move i;
  motor_controller_enabled = mc i;
  main_valve_enabled = valve i;
}
  where
    move : (unpack_state (pack_state r)).vehicle_allowed_to_move ≡ r.vehicle_allowed_to_move
    move = omega arith

    mc : (unpack_state (pack_state r)).motor_controller_enabled ≡ r.motor_controller_enabled
    mc = omega arith

    valve : (unpack_state (pack_state r)).main_valve_enabled ≡ r.main_valve_enabled
    valve = omega arith
