-- ===== src/Candef/Library.antt =====
-- The whole generated library as one record, and what a classical CAN bus asks of it.
use zephyr_can_converter_uni.Prelude.{ℕ, ◌≤◌, ◌≡◌, List, length}
use zephyr_can_converter_uni.Candef.Structs.{
  McuTimeSync, McuState, McuInputs, McuFaults, McuAnalogDrive, McuAnalogPedals, McuAnalogPowertrain,
  McuAnalogFuelCell, McuAnalogAccessory, McuAnalogUnassigned, ProtiumState, ProtiumPower,
  ProtiumThermal, ProtiumHydrogen, ProtiumSetpoints, ProtiumStasis, ProtiumMisc, Signal,
}

-- `CANDEF_<NAME>_FRAME_ID`, `CANDEF_<NAME>_LENGTH` and `candef_<name>_pack` of one frame. The packing
-- function fills a buffer of the frame's length.
pub record Codec (S : Type 0) : Type 0 where
  pub frame_id : ℕ
  pub len : ℕ
  pub pack : S → List ℕ
  pub length-pack : (s : S) → length (pack s) ≡ len

-- A double is known by its bit pattern. `widen` is the C conversion from float to double and
-- `from_uint` the one from an unsigned integer, an enum or a bool.
pub record Candef : Type 0 where
  pub widen : ℕ → ℕ
  pub from_uint : ℕ → ℕ
  pub encode : Signal → ℕ → ℕ
  pub mcu_time_sync : Codec McuTimeSync
  pub mcu_state : Codec McuState
  pub mcu_inputs : Codec McuInputs
  pub mcu_faults : Codec McuFaults
  pub mcu_analog_drive : Codec McuAnalogDrive
  pub mcu_analog_pedals : Codec McuAnalogPedals
  pub mcu_analog_powertrain : Codec McuAnalogPowertrain
  pub mcu_analog_fuel_cell : Codec McuAnalogFuelCell
  pub mcu_analog_accessory : Codec McuAnalogAccessory
  pub mcu_analog_unassigned : Codec McuAnalogUnassigned
  pub protium_state : Codec ProtiumState
  pub protium_power : Codec ProtiumPower
  pub protium_thermal : Codec ProtiumThermal
  pub protium_hydrogen : Codec ProtiumHydrogen
  pub protium_setpoints : Codec ProtiumSetpoints
  pub protium_stasis : Codec ProtiumStasis
  pub protium_misc : Codec ProtiumMisc

-- Every frame of the database fits into the eight data bytes of a classical CAN frame.
pub record IsClassic (cd : Candef) : Type 0 where
  pub mcu_time_sync_fits : cd.mcu_time_sync.len ≤ 8
  pub mcu_state_fits : cd.mcu_state.len ≤ 8
  pub mcu_inputs_fits : cd.mcu_inputs.len ≤ 8
  pub mcu_faults_fits : cd.mcu_faults.len ≤ 8
  pub mcu_analog_drive_fits : cd.mcu_analog_drive.len ≤ 8
  pub mcu_analog_pedals_fits : cd.mcu_analog_pedals.len ≤ 8
  pub mcu_analog_powertrain_fits : cd.mcu_analog_powertrain.len ≤ 8
  pub mcu_analog_fuel_cell_fits : cd.mcu_analog_fuel_cell.len ≤ 8
  pub mcu_analog_accessory_fits : cd.mcu_analog_accessory.len ≤ 8
  pub mcu_analog_unassigned_fits : cd.mcu_analog_unassigned.len ≤ 8
  pub protium_state_fits : cd.protium_state.len ≤ 8
  pub protium_power_fits : cd.protium_power.len ≤ 8
  pub protium_thermal_fits : cd.protium_thermal.len ≤ 8
  pub protium_hydrogen_fits : cd.protium_hydrogen.len ≤ 8
  pub protium_setpoints_fits : cd.protium_setpoints.len ≤ 8
  pub protium_stasis_fits : cd.protium_stasis.len ≤ 8
  pub protium_misc_fits : cd.protium_misc.len ≤ 8
