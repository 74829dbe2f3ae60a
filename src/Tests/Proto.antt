-- ===== src/Tests/Proto.antt =====
-- Tests of the module Proto.
use zephyr_can_converter_uni.Prelude.{◌%◌, ◌≡◌, refl, true}
use zephyr_can_converter_uni.Proto.{digital_inputs_zero}
use zephyr_can_converter_uni.Proto.Helpers.{
  digital_inputs_from_raw, raw_of_inputs, raw_of_inputs-digital_inputs_from_raw,
  digital_inputs_from_raw-raw_of_inputs,
}

-- 0x148: the emergency switch, the leakage sensor, and one bit that is no input
from_raw :
    digital_inputs_from_raw 328
    ≡ record digital_inputs_zero { emergency_switch = true; leakage_detected = true }
unfolding digital_inputs_from_raw
from_raw = refl

raw_of_inputs-digital_inputs_from_raw_example :
    raw_of_inputs (digital_inputs_from_raw 328) ≡ 328 % 256
raw_of_inputs-digital_inputs_from_raw_example = raw_of_inputs-digital_inputs_from_raw 328

start_button-read_back :
    digital_inputs_from_raw (raw_of_inputs (record digital_inputs_zero { start_button = true }))
    ≡ record digital_inputs_zero { start_button = true }
start_button-read_back =
    digital_inputs_from_raw-raw_of_inputs (record digital_inputs_zero { start_button = true })
