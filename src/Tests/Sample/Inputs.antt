-- ===== src/Tests/Sample/Inputs.antt =====
-- The frame of the inputs packed bit by bit.
use zephyr_can_converter_uni.Prelude.{ℕ, ◌+◌, ◌*◌, ◌/◌, ◌%◌, ◌≡◌, List, [], ◌∷◌, arith}
use zephyr_can_converter_uni.Candef.{McuInputs}
use zephyr_can_converter_uni.Frames.Inputs.{IsSwitches}

abbrev pub pack_inputs : McuInputs → List ℕ
pack_inputs r =
    (r.emergency_switch
      + r.dead_mans_switch * 2
      + r.leakage_detected * 4
      + r.shell_relay * 8
      + r.start_button * 16
      + r.reset_button * 32
      + r.calibration_button * 64
      + r.gas_pedal * 128)
    ∷ []

abbrev inputs_of : ℕ → McuInputs
inputs_of a = record {
  emergency_switch = a / 1 % 2;
  dead_mans_switch = a / 2 % 2;
  leakage_detected = a / 4 % 2;
  shell_relay = a / 8 % 2;
  start_button = a / 16 % 2;
  reset_button = a / 32 % 2;
  calibration_button = a / 64 % 2;
  gas_pedal = a / 128 % 2;
}

abbrev pub unpack_inputs : List ℕ → McuInputs
unpack_inputs [] = inputs_of 0
unpack_inputs (a ∷ rest) = inputs_of a

pub unpack-pack_inputs : (r : McuInputs) → IsSwitches r → unpack_inputs (pack_inputs r) ≡ r
unpack-pack_inputs r f = λ i. record {
  emergency_switch = same_emergency_switch i;
  dead_mans_switch = same_dead_mans_switch i;
  leakage_detected = same_leakage_detected i;
  shell_relay = same_shell_relay i;
  start_button = same_start_button i;
  reset_button = same_reset_button i;
  calibration_button = same_calibration_button i;
  gas_pedal = same_gas_pedal i;
}
  where
    same_emergency_switch : (unpack_inputs (pack_inputs r)).emergency_switch ≡ r.emergency_switch
    same_emergency_switch = omega arith

    same_dead_mans_switch : (unpack_inputs (pack_inputs r)).dead_mans_switch ≡ r.dead_mans_switch
    same_dead_mans_switch = omega arith

    same_leakage_detected : (unpack_inputs (pack_inputs r)).leakage_detected ≡ r.leakage_detected
    same_leakage_detected = omega arith

    same_shell_relay : (unpack_inputs (pack_inputs r)).shell_relay ≡ r.shell_relay
    same_shell_relay = omega arith

    same_start_button : (unpack_inputs (pack_inputs r)).start_button ≡ r.start_button
    same_start_button = omega arith

    same_reset_button : (unpack_inputs (pack_inputs r)).reset_button ≡ r.reset_button
    same_reset_button = omega arith

    same_calibration_button :
        (unpack_inputs (pack_inputs r)).calibration_button ≡ r.calibration_button
    same_calibration_button = omega arith

    same_gas_pedal : (unpack_inputs (pack_inputs r)).gas_pedal ≡ r.gas_pedal
    same_gas_pedal = omega arith
