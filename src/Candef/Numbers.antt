-- ===== src/Candef/Numbers.antt =====
-- The raw numbers of the generated structs, each with its signal.
use zephyr_can_converter_uni.Prelude.{ℕ, List, [], ◌∷◌}
use zephyr_can_converter_uni.Candef.Structs.{
  Signal, McuTimeSync, McuState, McuAnalogDrive, McuAnalogPedals, McuAnalogPowertrain,
  McuAnalogFuelCell, McuAnalogAccessory, McuAnalogUnassigned, ProtiumState, ProtiumPower,
  ProtiumThermal, ProtiumHydrogen, ProtiumSetpoints, ProtiumStasis, ProtiumMisc,
}

abbrev pub numbers_mcu_time_sync : McuTimeSync → List (Signal × ℕ)
numbers_mcu_time_sync r =
    (Signal.mcu_time_sync_time_ms, r.time_ms)
    ∷ (Signal.mcu_time_sync_clock_cycles, r.clock_cycles)
    ∷ []

abbrev pub numbers_mcu_state : McuState → List (Signal × ℕ)
numbers_mcu_state r =
    (Signal.mcu_state_status, r.status)
    ∷ (Signal.mcu_state_vehicle_type, r.vehicle_type)
    ∷ (Signal.mcu_state_vehicle_allowed_to_move, r.vehicle_allowed_to_move)
    ∷ (Signal.mcu_state_motor_controller_enabled, r.motor_controller_enabled)
    ∷ (Signal.mcu_state_main_valve_enabled, r.main_valve_enabled)
    ∷ []

abbrev pub numbers_mcu_analog_drive : McuAnalogDrive → List (Signal × ℕ)
numbers_mcu_analog_drive r =
    (Signal.mcu_analog_drive_rpm, r.rpm) ∷ (Signal.mcu_analog_drive_speed, r.speed) ∷ []

abbrev pub numbers_mcu_analog_pedals : McuAnalogPedals → List (Signal × ℕ)
numbers_mcu_analog_pedals r =
    (Signal.mcu_analog_pedals_acceleration_pedal_voltage, r.acceleration_pedal_voltage)
    ∷ (Signal.mcu_analog_pedals_brake_pedal_voltage, r.brake_pedal_voltage)
    ∷ []

abbrev pub numbers_mcu_analog_powertrain : McuAnalogPowertrain → List (Signal × ℕ)
numbers_mcu_analog_powertrain r =
    (Signal.mcu_analog_powertrain_supercapacitor_voltage, r.supercapacitor_voltage)
    ∷ (Signal.mcu_analog_powertrain_supercapacitor_current, r.supercapacitor_current)
    ∷ (
      Signal.mcu_analog_powertrain_motor_controller_supply_current,
      r.motor_controller_supply_current,
    )
    ∷ (
      Signal.mcu_analog_powertrain_motor_controller_supply_voltage,
      r.motor_controller_supply_voltage,
    )
    ∷ []

abbrev pub numbers_mcu_analog_fuel_cell : McuAnalogFuelCell → List (Signal × ℕ)
numbers_mcu_analog_fuel_cell r =
    (Signal.mcu_analog_fuel_cell_fuel_cell_output_current, r.fuel_cell_output_current)
    ∷ (Signal.mcu_analog_fuel_cell_fuel_cell_output_voltage, r.fuel_cell_output_voltage)
    ∷ (Signal.mcu_analog_fuel_cell_hydrogen_high_pressure, r.hydrogen_high_pressure)
    ∷ (
      Signal.mcu_analog_fuel_cell_hydrogen_leakage_sensor_voltage,
      r.hydrogen_leakage_sensor_voltage,
    )
    ∷ []

abbrev pub numbers_mcu_analog_accessory : McuAnalogAccessory → List (Signal × ℕ)
numbers_mcu_analog_accessory r =
    (Signal.mcu_analog_accessory_accessory_battery_current, r.accessory_battery_current)
    ∷ (Signal.mcu_analog_accessory_accessory_battery_voltage, r.accessory_battery_voltage)
    ∷ []

abbrev pub numbers_mcu_analog_unassigned : McuAnalogUnassigned → List (Signal × ℕ)
numbers_mcu_analog_unassigned r =
    (Signal.mcu_analog_unassigned_ai1, r.ai1)
    ∷ (Signal.mcu_analog_unassigned_ai3, r.ai3)
    ∷ (Signal.mcu_analog_unassigned_ai4, r.ai4)
    ∷ (Signal.mcu_analog_unassigned_ai5, r.ai5)
    ∷ []

abbrev pub numbers_protium_state : ProtiumState → List (Signal × ℕ)
numbers_protium_state r = (Signal.protium_state_operating_state, r.operating_state) ∷ []

abbrev pub numbers_protium_power : ProtiumPower → List (Signal × ℕ)
numbers_protium_power r =
    (Signal.protium_power_fc_v, r.fc_v)
    ∷ (Signal.protium_power_fc_a, r.fc_a)
    ∷ (Signal.protium_power_fc_w, r.fc_w)
    ∷ (Signal.protium_power_energy, r.energy)
    ∷ []

abbrev pub numbers_protium_thermal : ProtiumThermal → List (Signal × ℕ)
numbers_protium_thermal r =
    (Signal.protium_thermal_fct1, r.fct1)
    ∷ (Signal.protium_thermal_fct2, r.fct2)
    ∷ (Signal.protium_thermal_fan, r.fan)
    ∷ (Signal.protium_thermal_blw, r.blw)
    ∷ []

abbrev pub numbers_protium_hydrogen : ProtiumHydrogen → List (Signal × ℕ)
numbers_protium_hydrogen r =
    (Signal.protium_hydrogen_h2_p1, r.h2_p1)
    ∷ (Signal.protium_hydrogen_h2_p2, r.h2_p2)
    ∷ (Signal.protium_hydrogen_tank_p, r.tank_p)
    ∷ (Signal.protium_hydrogen_tank_t, r.tank_t)
    ∷ []

abbrev pub numbers_protium_setpoints : ProtiumSetpoints → List (Signal × ℕ)
numbers_protium_setpoints r =
    (Signal.protium_setpoints_v_set, r.v_set)
    ∷ (Signal.protium_setpoints_i_set, r.i_set)
    ∷ (Signal.protium_setpoints_ucb_v, r.ucb_v)
    ∷ (Signal.protium_setpoints_number_of_cells, r.number_of_cells)
    ∷ []

abbrev pub numbers_protium_stasis : ProtiumStasis → List (Signal × ℕ)
numbers_protium_stasis r =
    (Signal.protium_stasis_stasis_selector, r.stasis_selector)
    ∷ (Signal.protium_stasis_stasis_v1, r.stasis_v1)
    ∷ (Signal.protium_stasis_stasis_v2, r.stasis_v2)
    ∷ (Signal.protium_stasis_batt_v, r.batt_v)
    ∷ []

abbrev pub numbers_protium_misc : ProtiumMisc → List (Signal × ℕ)
numbers_protium_misc r = (Signal.protium_misc_ip, r.ip) ∷ (Signal.protium_misc_tp, r.tp) ∷ []
