-- ===== src/Proto.antt =====
-- The messages of proto/master.proto, as the structs that NanoPB makes of them.
-- The firmware copies a `float` and widens it, and never computes with one: a float is its bit
-- pattern, so that the pattern 0 is 0.0f. An enum is the number that was decoded, since NanoPB lets
-- a number through that is no enumerator. Uint32 fields are plain numbers.
pub mod Helpers
use zephyr_can_converter_uni.Prelude.{ℕ, Bool, false, List, []}

abbrev pub Float : Type 0
Float = ℕ

pub record DigitalInputs : Type 0 where
  pub gas_pedal : Bool
  pub start_button : Bool
  pub dead_mans_switch : Bool
  pub emergency_switch : Bool
  pub reset_button : Bool
  pub calibration_button : Bool
  pub leakage_detected : Bool
  pub shell_relay : Bool

pub record MasterMeasurements : Type 0 where
  pub ai1 : Float
  pub supercapacitor_current : Float
  pub ai3 : Float
  pub ai4 : Float
  pub ai5 : Float
  pub accel_pedal_voltage : Float
  pub brake_pedal_voltage : Float
  pub accessory_battery_current : Float
  pub hydrogen_high_pressure : Float
  pub hydrogen_leakage_sensor_voltage : Float
  pub fuel_cell_output_current : Float
  pub motor_controller_supply_current : Float
  pub accessory_battery_voltage : Float
  pub fuel_cell_output_voltage : Float
  pub supercapacitor_voltage : Float
  pub motor_controller_supply_voltage : Float
  pub din : DigitalInputs
  pub rpm : Float
  pub speed : Float

pub record MasterStatus : Type 0 where
  pub serial_number : ℕ
  pub state : ℕ  -- enum State
  pub vehicle_type : ℕ  -- enum VehicleType
  pub vehicle_allowed_to_move : Bool
  pub main_valve_enabled : Bool
  pub motor_controller_enabled : Bool
  pub accel_output_voltage : Float
  pub brake_output_voltage : Float

pub record MasterFaults : Type 0 where
  pub emg_emergency_switch : Bool
  pub emg_dead_mans_switch : Bool
  pub emg_leakage_sensor_switch : Bool
  pub emg_hydrogen_leakage_voltage : Bool
  pub err_fuel_cell_output_voltage : Bool
  pub err_fuel_cell_output_current : Bool
  pub err_supercapacitor_voltage : Bool
  pub err_supercapacitor_current : Bool
  pub err_motor_controller_supply_voltage : Bool
  pub err_motor_controller_supply_current : Bool
  pub err_accessory_battery_voltage : Bool
  pub err_accessory_battery_current : Bool
  pub err_accel_pedal_voltage : Bool
  pub err_brake_pedal_voltage : Bool
  pub err_hydrogen_high_pressure : Bool
  pub err_speed : Bool

pub record ProtiumValues : Type 0 where
  pub fc_v : Float
  pub fc_a : Float
  pub fc_w : Float
  pub energy : Float
  pub fct1 : Float
  pub fan : Float
  pub h2p1 : Float
  pub h2p2 : Float
  pub tank_p : Float
  pub tank_t : Float
  pub v_set : Float
  pub i_set : Float
  pub ucb_v : Float
  pub stasis_selector : Float
  pub stasis_v1 : Float
  pub stasis_v2 : Float
  pub number_of_cell : Float
  pub fct2 : Float
  pub blw : Float
  pub batt_v : Float
  pub ip : Float
  pub tp : Float

-- enum ProtiumOperatingState
abbrev pub ProtiumOperatingState : Type 0
ProtiumOperatingState = ℕ

pub record ProtiumStateLogEntry : Type 0 where
  pub ms_clock_tick_count : ℕ
  pub state : ProtiumOperatingState

-- NanoPB keeps at most eight log entries (proto/master.options).
pub record ProtiumOperatingStateMsg : Type 0 where
  pub current_state : ProtiumOperatingState
  pub log_entries : List ProtiumStateLogEntry

-- The `oneof payload` with its tag `which_payload`; `other` is any tag that names no payload, such
-- as 0 where the message carried none.
pub data Payload : Type 0 where
  master_measurements : MasterMeasurements → Payload
  master_status : MasterStatus → Payload
  protium_values : ProtiumValues → Payload
  protium_operating_state : ProtiumOperatingStateMsg → Payload
  master_faults : MasterFaults → Payload
  other : (tag : ℕ) → Payload

pub record MasterFrame : Type 0 where
  pub ms_clock_tick_count : ℕ
  pub cycle_clock_tick_count : ℕ
  pub payload : Payload

-- The zero values, as `{0}` and `…_init_zero` give them.
abbrev pub digital_inputs_zero : DigitalInputs
digital_inputs_zero = record {
  gas_pedal = false;
  start_button = false;
  dead_mans_switch = false;
  emergency_switch = false;
  reset_button = false;
  calibration_button = false;
  leakage_detected = false;
  shell_relay = false;
}

abbrev pub master_measurements_zero : MasterMeasurements
master_measurements_zero = record {
  ai1 = 0;
  supercapacitor_current = 0;
  ai3 = 0;
  ai4 = 0;
  ai5 = 0;
  accel_pedal_voltage = 0;
  brake_pedal_voltage = 0;
  accessory_battery_current = 0;
  hydrogen_high_pressure = 0;
  hydrogen_leakage_sensor_voltage = 0;
  fuel_cell_output_current = 0;
  motor_controller_supply_current = 0;
  accessory_battery_voltage = 0;
  fuel_cell_output_voltage = 0;
  supercapacitor_voltage = 0;
  motor_controller_supply_voltage = 0;
  din = digital_inputs_zero;
  rpm = 0;
  speed = 0;
}

abbrev pub master_status_zero : MasterStatus
master_status_zero = record {
  serial_number = 0;
  state = 0;
  vehicle_type = 0;
  vehicle_allowed_to_move = false;
  main_valve_enabled = false;
  motor_controller_enabled = false;
  accel_output_voltage = 0;
  brake_output_voltage = 0;
}

abbrev pub master_faults_zero : MasterFaults
master_faults_zero = record {
  emg_emergency_switch = false;
  emg_dead_mans_switch = false;
  emg_leakage_sensor_switch = false;
  emg_hydrogen_leakage_voltage = false;
  err_fuel_cell_output_voltage = false;
  err_fuel_cell_output_current = false;
  err_supercapacitor_voltage = false;
  err_supercapacitor_current = false;
  err_motor_controller_supply_voltage = false;
  err_motor_controller_supply_current = false;
  err_accessory_battery_voltage = false;
  err_accessory_battery_current = false;
  err_accel_pedal_voltage = false;
  err_brake_pedal_voltage = false;
  err_hydrogen_high_pressure = false;
  err_speed = false;
}

abbrev pub protium_values_zero : ProtiumValues
protium_values_zero = record {
  fc_v = 0;
  fc_a = 0;
  fc_w = 0;
  energy = 0;
  fct1 = 0;
  fan = 0;
  h2p1 = 0;
  h2p2 = 0;
  tank_p = 0;
  tank_t = 0;
  v_set = 0;
  i_set = 0;
  ucb_v = 0;
  stasis_selector = 0;
  stasis_v1 = 0;
  stasis_v2 = 0;
  number_of_cell = 0;
  fct2 = 0;
  blw = 0;
  batt_v = 0;
  ip = 0;
  tp = 0;
}
