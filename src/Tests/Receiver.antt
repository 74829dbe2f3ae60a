-- ===== src/Tests/Receiver.antt =====
-- A receiver for the sample platform: it reads a byte for each signal, and the state bit by bit.
use zephyr_can_converter_uni.Prelude.{
  ℕ, ◌<◌, ◌%◌, ◌≡◌, refl, ap, true, Bool, List, [], ◌∷◌, arith, ltb, All,
}
use zephyr_can_converter_uni.Candef.{Signal, McuState, numbers_mcu_state}
use zephyr_can_converter_uni.Frames.Messages.{FrameKind}
use zephyr_can_converter_uni.Frames.Receiver.{Receiver}
use zephyr_can_converter_uni.Tests.Sample.{
  sample_candef, sample_values, pack_state, unpack_state, unpack-pack_state, encode-lt_lem,
  decode-encode_lem,
}

-- The signals of each frame that has a byte for each.
abbrev signals : FrameKind → List Signal
signals FrameKind.mcu_time_sync =
    Signal.mcu_time_sync_time_ms ∷ Signal.mcu_time_sync_clock_cycles ∷ []
signals FrameKind.mcu_analog_speed =
    Signal.mcu_analog_drive_rpm ∷ Signal.mcu_analog_drive_speed ∷ []
signals FrameKind.mcu_analog_pedals =
    Signal.mcu_analog_pedals_acceleration_pedal_voltage
    ∷ Signal.mcu_analog_pedals_brake_pedal_voltage ∷ []
signals FrameKind.mcu_analog_powertrain =
    Signal.mcu_analog_powertrain_supercapacitor_voltage
    ∷ Signal.mcu_analog_powertrain_supercapacitor_current
    ∷ Signal.mcu_analog_powertrain_motor_controller_supply_current
    ∷ Signal.mcu_analog_powertrain_motor_controller_supply_voltage ∷ []
signals FrameKind.mcu_analog_fuel_cell =
    Signal.mcu_analog_fuel_cell_fuel_cell_output_current
    ∷ Signal.mcu_analog_fuel_cell_fuel_cell_output_voltage
    ∷ Signal.mcu_analog_fuel_cell_hydrogen_high_pressure
    ∷ Signal.mcu_analog_fuel_cell_hydrogen_leakage_sensor_voltage ∷ []
signals FrameKind.mcu_analog_accessory =
    Signal.mcu_analog_accessory_accessory_battery_current
    ∷ Signal.mcu_analog_accessory_accessory_battery_voltage ∷ []
signals FrameKind.mcu_analog_unassigned =
    Signal.mcu_analog_unassigned_ai1 ∷ Signal.mcu_analog_unassigned_ai3
    ∷ Signal.mcu_analog_unassigned_ai4 ∷ Signal.mcu_analog_unassigned_ai5 ∷ []
signals FrameKind.protium_state = Signal.protium_state_operating_state ∷ []
signals FrameKind.protium_power =
    Signal.protium_power_fc_v ∷ Signal.protium_power_fc_a ∷ Signal.protium_power_fc_w
    ∷ Signal.protium_power_energy ∷ []
signals FrameKind.protium_thermal =
    Signal.protium_thermal_fct1 ∷ Signal.protium_thermal_fct2 ∷ Signal.protium_thermal_fan
    ∷ Signal.protium_thermal_blw ∷ []
signals FrameKind.protium_hydrogen =
    Signal.protium_hydrogen_h2_p1 ∷ Signal.protium_hydrogen_h2_p2 ∷ Signal.protium_hydrogen_tank_p
    ∷ Signal.protium_hydrogen_tank_t ∷ []
signals FrameKind.protium_setpoints =
    Signal.protium_setpoints_v_set ∷ Signal.protium_setpoints_i_set ∷ Signal.protium_setpoints_ucb_v
    ∷ Signal.protium_setpoints_number_of_cells ∷ []
signals FrameKind.protium_stasis =
    Signal.protium_stasis_stasis_selector ∷ Signal.protium_stasis_stasis_v1
    ∷ Signal.protium_stasis_stasis_v2 ∷ Signal.protium_stasis_batt_v ∷ []
signals FrameKind.protium_misc = Signal.protium_misc_ip ∷ Signal.protium_misc_tp ∷ []
signals _ = []

abbrev labelled : List Signal → List ℕ → List (Signal × ℕ)
labelled (g ∷ gs) (b ∷ bs) = (g, b) ∷ labelled gs bs
labelled _ _ = []

abbrev pub read_sample : FrameKind → List ℕ → List (Signal × ℕ)
read_sample FrameKind.mcu_state bs = numbers_mcu_state (unpack_state bs)
read_sample k bs = labelled (signals k) bs

abbrev pub carries : Signal → ℕ → Bool
carries g x = ltb x (sample_values g)

pub encode-lt : (g : Signal) (x : ℕ) → carries g x ≡ true → x % 256 < sample_values g
encode-lt g x h = encode-lt_lem g x (ground arith)

pub decode-encode : (g : Signal) (x : ℕ) → carries g x ≡ true → x % 256 ≡ x
decode-encode g x h = decode-encode_lem g x (ground arith)

pub read_state_lem :
    (r : McuState)
    → All (λ n. n.1 < sample_values n.0) (numbers_mcu_state r)
    → numbers_mcu_state (unpack_state (pack_state r)) ≡ numbers_mcu_state r
read_state_lem r w = ap numbers_mcu_state (
    unpack-pack_state r (record {
      status = w.0;
      vehicle_type = w.1.0;
      vehicle_allowed_to_move = w.1.1.0;
      motor_controller_enabled = w.1.1.1.0;
      main_valve_enabled = w.1.1.1.1.0;
    }))

abbrev pub receiver : Receiver sample_candef
receiver = record {
  carries = carries;
  raw_values = sample_values;
  decode = λ g n. n;
  encode-lt = encode-lt;
  decode-encode = decode-encode;
  read = read_sample;
  read-mcu_time_sync = λ r w. refl;
  read-mcu_state = read_state_lem;
  read-mcu_analog_drive = λ r w. refl;
  read-mcu_analog_pedals = λ r w. refl;
  read-mcu_analog_powertrain = λ r w. refl;
  read-mcu_analog_fuel_cell = λ r w. refl;
  read-mcu_analog_accessory = λ r w. refl;
  read-mcu_analog_unassigned = λ r w. refl;
  read-protium_state = λ r w. refl;
  read-protium_power = λ r w. refl;
  read-protium_thermal = λ r w. refl;
  read-protium_hydrogen = λ r w. refl;
  read-protium_setpoints = λ r w. refl;
  read-protium_stasis = λ r w. refl;
  read-protium_misc = λ r w. refl;
}
