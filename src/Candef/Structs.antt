-- ===== src/Candef/Structs.antt =====
-- The structs of candef.h, generated from the CAN database (the submodule can-definitions), with
-- the fields that src/can_converter_frames.c fills; a designated initialiser leaves any other field
-- zero. A field is the raw number that goes on the bus.
use zephyr_can_converter_uni.Prelude.{ℕ}

pub record McuTimeSync : Type 0 where
  pub time_ms : ℕ
  pub clock_cycles : ℕ

pub record McuState : Type 0 where
  pub status : ℕ
  pub vehicle_type : ℕ
  pub vehicle_allowed_to_move : ℕ
  pub motor_controller_enabled : ℕ
  pub main_valve_enabled : ℕ

pub record McuInputs : Type 0 where
  pub emergency_switch : ℕ
  pub dead_mans_switch : ℕ
  pub leakage_detected : ℕ
  pub shell_relay : ℕ
  pub start_button : ℕ
  pub reset_button : ℕ
  pub calibration_button : ℕ
  pub gas_pedal : ℕ

pub record McuFaults : Type 0 where
  pub emergency_switch : ℕ
  pub emergency_dead_mans_switch : ℕ
  pub emergency_leakage_detected : ℕ
  pub error_fc_v_low : ℕ
  pub error_fc_v_high : ℕ
  pub error_fc_c_low : ℕ
  pub error_fc_c_high : ℕ
  pub error_sc_v_low : ℕ
  pub error_sc_v_high : ℕ
  pub error_sc_c_low : ℕ
  pub error_sc_c_high : ℕ
  pub error_mc_v_low : ℕ
  pub error_mc_v_high : ℕ
  pub error_mc_c_low : ℕ
  pub error_mc_c_high : ℕ
  pub error_ab_v_low : ℕ
  pub error_ab_v_high : ℕ
  pub error_ab_c_low : ℕ
  pub error_ab_c_high : ℕ

pub record McuAnalogDrive : Type 0 where
  pub rpm : ℕ
  pub speed : ℕ

pub record McuAnalogPedals : Type 0 where
  pub acceleration_pedal_voltage : ℕ
  pub brake_pedal_voltage : ℕ

pub record McuAnalogPowertrain : Type 0 where
  pub supercapacitor_voltage : ℕ
  pub supercapacitor_current : ℕ
  pub motor_controller_supply_current : ℕ
  pub motor_controller_supply_voltage : ℕ

pub record McuAnalogFuelCell : Type 0 where
  pub fuel_cell_output_current : ℕ
  pub fuel_cell_output_voltage : ℕ
  pub hydrogen_high_pressure : ℕ
  pub hydrogen_leakage_sensor_voltage : ℕ

pub record McuAnalogAccessory : Type 0 where
  pub accessory_battery_current : ℕ
  pub accessory_battery_voltage : ℕ

pub record McuAnalogUnassigned : Type 0 where
  pub ai1 : ℕ
  pub ai3 : ℕ
  pub ai4 : ℕ
  pub ai5 : ℕ

pub record ProtiumState : Type 0 where
  pub operating_state : ℕ

pub record ProtiumPower : Type 0 where
  pub fc_v : ℕ
  pub fc_a : ℕ
  pub fc_w : ℕ
  pub energy : ℕ

pub record ProtiumThermal : Type 0 where
  pub fct1 : ℕ
  pub fct2 : ℕ
  pub fan : ℕ
  pub blw : ℕ

pub record ProtiumHydrogen : Type 0 where
  pub h2_p1 : ℕ
  pub h2_p2 : ℕ
  pub tank_p : ℕ
  pub tank_t : ℕ

pub record ProtiumSetpoints : Type 0 where
  pub v_set : ℕ
  pub i_set : ℕ
  pub ucb_v : ℕ
  pub number_of_cells : ℕ

pub record ProtiumStasis : Type 0 where
  pub stasis_selector : ℕ
  pub stasis_v1 : ℕ
  pub stasis_v2 : ℕ
  pub batt_v : ℕ

pub record ProtiumMisc : Type 0 where
  pub ip : ℕ
  pub tp : ℕ

-- One constructor for each `candef_…_encode` that the firmware calls.
pub data Signal : Type 0 where
  mcu_time_sync_time_ms : Signal
  mcu_time_sync_clock_cycles : Signal
  mcu_state_status : Signal
  mcu_state_vehicle_type : Signal
  mcu_state_vehicle_allowed_to_move : Signal
  mcu_state_motor_controller_enabled : Signal
  mcu_state_main_valve_enabled : Signal
  mcu_analog_drive_rpm : Signal
  mcu_analog_drive_speed : Signal
  mcu_analog_pedals_acceleration_pedal_voltage : Signal
  mcu_analog_pedals_brake_pedal_voltage : Signal
  mcu_analog_powertrain_supercapacitor_voltage : Signal
  mcu_analog_powertrain_supercapacitor_current : Signal
  mcu_analog_powertrain_motor_controller_supply_current : Signal
  mcu_analog_powertrain_motor_controller_supply_voltage : Signal
  mcu_analog_fuel_cell_fuel_cell_output_current : Signal
  mcu_analog_fuel_cell_fuel_cell_output_voltage : Signal
  mcu_analog_fuel_cell_hydrogen_high_pressure : Signal
  mcu_analog_fuel_cell_hydrogen_leakage_sensor_voltage : Signal
  mcu_analog_accessory_accessory_battery_current : Signal
  mcu_analog_accessory_accessory_battery_voltage : Signal
  mcu_analog_unassigned_ai1 : Signal
  mcu_analog_unassigned_ai3 : Signal
  mcu_analog_unassigned_ai4 : Signal
  mcu_analog_unassigned_ai5 : Signal
  protium_state_operating_state : Signal
  protium_power_fc_v : Signal
  protium_power_fc_a : Signal
  protium_power_fc_w : Signal
  protium_power_energy : Signal
  protium_thermal_fct1 : Signal
  protium_thermal_fct2 : Signal
  protium_thermal_fan : Signal
  protium_thermal_blw : Signal
  protium_hydrogen_h2_p1 : Signal
  protium_hydrogen_h2_p2 : Signal
  protium_hydrogen_tank_p : Signal
  protium_hydrogen_tank_t : Signal
  protium_setpoints_v_set : Signal
  protium_setpoints_i_set : Signal
  protium_setpoints_ucb_v : Signal
  protium_setpoints_number_of_cells : Signal
  protium_stasis_stasis_selector : Signal
  protium_stasis_stasis_v1 : Signal
  protium_stasis_stasis_v2 : Signal
  protium_stasis_batt_v : Signal
  protium_misc_ip : Signal
  protium_misc_tp : Signal
