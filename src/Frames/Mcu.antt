-- ===== src/Frames/Mcu.antt =====
-- The MCU frame encoders of src/can_converter_frames.c.
use zephyr_can_converter_uni.Prelude.{ℕ, ◌+◌, u32}
use zephyr_can_converter_uni.Proto.{MasterMeasurements, MasterStatus, MasterFaults}
use zephyr_can_converter_uni.Candef.{Signal}
use zephyr_can_converter_uni.Platform.{Platform}
use zephyr_can_converter_uni.Frames.{Tx, pack_and_enqueue, bit}

module _ (pf : Platform) where
  open pf use {candef}
  open candef use {widen, from_uint, encode}

  unfoldable pub send_mcu_time_sync : ℕ → ℕ → Tx pf → Tx pf
  send_mcu_time_sync ms_tick cycle_tick tx = record sent {
    frame_counts = record (sent.frame_counts) {
      mcu_time_sync = u32 (sent.frame_counts.mcu_time_sync + 1);
    };
  }
    where
      sent : Tx pf
      sent =
          pack_and_enqueue pf candef.mcu_time_sync
            (record {
              time_ms = encode Signal.mcu_time_sync_time_ms (from_uint ms_tick);
              clock_cycles = encode Signal.mcu_time_sync_clock_cycles (from_uint cycle_tick);
            })
            tx

  unfoldable pub send_mcu_state : MasterStatus → Tx pf → Tx pf
  send_mcu_state s tx = record sent {
    frame_counts = record (sent.frame_counts) { mcu_state = u32 (sent.frame_counts.mcu_state + 1) };
  }
    where
      sent : Tx pf
      sent =
          pack_and_enqueue pf candef.mcu_state
            (record {
              status = encode Signal.mcu_state_status (from_uint s.state);
              vehicle_type = encode Signal.mcu_state_vehicle_type (from_uint s.vehicle_type);
              vehicle_allowed_to_move =
                  encode Signal.mcu_state_vehicle_allowed_to_move
                    (from_uint (bit s.vehicle_allowed_to_move));
              motor_controller_enabled =
                  encode Signal.mcu_state_motor_controller_enabled
                    (from_uint (bit s.motor_controller_enabled));
              main_valve_enabled =
                  encode Signal.mcu_state_main_valve_enabled (from_uint (bit s.main_valve_enabled));
            })
            tx

  unfoldable pub send_mcu_inputs : MasterMeasurements → Tx pf → Tx pf
  send_mcu_inputs m tx = record sent {
    frame_counts = record (sent.frame_counts) {
      mcu_inputs = u32 (sent.frame_counts.mcu_inputs + 1);
    };
  }
    where
      sent : Tx pf
      sent =
          pack_and_enqueue pf candef.mcu_inputs
            (record {
              emergency_switch = bit m.din.emergency_switch;
              dead_mans_switch = bit m.din.dead_mans_switch;
              leakage_detected = bit m.din.leakage_detected;
              shell_relay = bit m.din.shell_relay;
              start_button = bit m.din.start_button;
              reset_button = bit m.din.reset_button;
              calibration_button = bit m.din.calibration_button;
              gas_pedal = bit m.din.gas_pedal;
            })
            tx

  unfoldable pub send_mcu_faults : MasterFaults → Tx pf → Tx pf
  send_mcu_faults f tx = record sent {
    frame_counts = record (sent.frame_counts) {
      mcu_faults = u32 (sent.frame_counts.mcu_faults + 1);
    };
  }
    where
      sent : Tx pf
      sent =
          pack_and_enqueue pf candef.mcu_faults
            (record {
              emergency_switch = bit f.emg_emergency_switch;
              emergency_dead_mans_switch = bit f.emg_dead_mans_switch;
              emergency_leakage_detected = bit f.emg_leakage_sensor_switch;
              error_fc_v_low = bit f.err_fuel_cell_output_voltage;
              error_fc_v_high = bit f.err_fuel_cell_output_voltage;
              error_fc_c_low = bit f.err_fuel_cell_output_current;
              error_fc_c_high = bit f.err_fuel_cell_output_current;
              error_sc_v_low = bit f.err_supercapacitor_voltage;
              error_sc_v_high = bit f.err_supercapacitor_voltage;
              error_sc_c_low = bit f.err_supercapacitor_current;
              error_sc_c_high = bit f.err_supercapacitor_current;
              error_mc_v_low = bit f.err_motor_controller_supply_voltage;
              error_mc_v_high = bit f.err_motor_controller_supply_voltage;
              error_mc_c_low = bit f.err_motor_controller_supply_current;
              error_mc_c_high = bit f.err_motor_controller_supply_current;
              error_ab_v_low = bit f.err_accessory_battery_voltage;
              error_ab_v_high = bit f.err_accessory_battery_voltage;
              error_ab_c_low = bit f.err_accessory_battery_current;
              error_ab_c_high = bit f.err_accessory_battery_current;
            })
            tx

  unfoldable pub send_mcu_analog_speed : MasterMeasurements → Tx pf → Tx pf
  send_mcu_analog_speed m tx = record sent {
    frame_counts = record (sent.frame_counts) {
      mcu_analog_speed = u32 (sent.frame_counts.mcu_analog_speed + 1);
    };
  }
    where
      sent : Tx pf
      sent =
          pack_and_enqueue pf candef.mcu_analog_drive
            (record {
              rpm = encode Signal.mcu_analog_drive_rpm (widen m.rpm);
              speed = encode Signal.mcu_analog_drive_speed (widen m.speed);
            })
            tx

  unfoldable pub send_mcu_analog_pedals : MasterMeasurements → Tx pf → Tx pf
  send_mcu_analog_pedals m tx = record sent {
    frame_counts = record (sent.frame_counts) {
      mcu_analog_pedals = u32 (sent.frame_counts.mcu_analog_pedals + 1);
    };
  }
    where
      sent : Tx pf
      sent =
          pack_and_enqueue pf candef.mcu_analog_pedals
            (record {
              acceleration_pedal_voltage =
                  encode Signal.mcu_analog_pedals_acceleration_pedal_voltage
                    (widen m.accel_pedal_voltage);
              brake_pedal_voltage =
                  encode Signal.mcu_analog_pedals_brake_pedal_voltage (widen m.brake_pedal_voltage);
            })
            tx

  unfoldable pub send_mcu_analog_powertrain : MasterMeasurements → Tx pf → Tx pf
  send_mcu_analog_powertrain m tx = record sent {
    frame_counts = record (sent.frame_counts) {
      mcu_analog_powertrain = u32 (sent.frame_counts.mcu_analog_powertrain + 1);
    };
  }
    where
      sent : Tx pf
      sent =
          pack_and_enqueue pf candef.mcu_analog_powertrain
            (record {
              supercapacitor_voltage =
                  encode Signal.mcu_analog_powertrain_supercapacitor_voltage
                    (widen m.supercapacitor_voltage);
              supercapacitor_current =
                  encode Signal.mcu_analog_powertrain_supercapacitor_current
                    (widen m.supercapacitor_current);
              motor_controller_supply_current =
                  encode Signal.mcu_analog_powertrain_motor_controller_supply_current
                    (widen m.motor_controller_supply_current);
              motor_controller_supply_voltage =
                  encode Signal.mcu_analog_powertrain_motor_controller_supply_voltage
                    (widen m.motor_controller_supply_voltage);
            })
            tx

  unfoldable pub send_mcu_analog_fuel_cell : MasterMeasurements → Tx pf → Tx pf
  send_mcu_analog_fuel_cell m tx = record sent {
    frame_counts = record (sent.frame_counts) {
      mcu_analog_fuel_cell = u32 (sent.frame_counts.mcu_analog_fuel_cell + 1);
    };
  }
    where
      sent : Tx pf
      sent =
          pack_and_enqueue pf candef.mcu_analog_fuel_cell
            (record {
              fuel_cell_output_current =
                  encode Signal.mcu_analog_fuel_cell_fuel_cell_output_current
                    (widen m.fuel_cell_output_current);
              fuel_cell_output_voltage =
                  encode Signal.mcu_analog_fuel_cell_fuel_cell_output_voltage
                    (widen m.fuel_cell_output_voltage);
              hydrogen_high_pressure =
                  encode Signal.mcu_analog_fuel_cell_hydrogen_high_pressure
                    (widen m.hydrogen_high_pressure);
              hydrogen_leakage_sensor_voltage =
                  encode Signal.mcu_analog_fuel_cell_hydrogen_leakage_sensor_voltage
                    (widen m.hydrogen_leakage_sensor_voltage);
            })
            tx

  unfoldable pub send_mcu_analog_accessory : MasterMeasurements → Tx pf → Tx pf
  send_mcu_analog_accessory m tx = record sent {
    frame_counts = record (sent.frame_counts) {
      mcu_analog_accessory = u32 (sent.frame_counts.mcu_analog_accessory + 1);
    };
  }
    where
      sent : Tx pf
      sent =
          pack_and_enqueue pf candef.mcu_analog_accessory
            (record {
              accessory_battery_current =
                  encode Signal.mcu_analog_accessory_accessory_battery_current
                    (widen m.accessory_battery_current);
              accessory_battery_voltage =
                  encode Signal.mcu_analog_accessory_accessory_battery_voltage
                    (widen m.accessory_battery_voltage);
            })
            tx

  unfoldable pub send_mcu_analog_unassigned : MasterMeasurements → Tx pf → Tx pf
  send_mcu_analog_unassigned m tx = record sent {
    frame_counts = record (sent.frame_counts) {
      mcu_analog_unassigned = u32 (sent.frame_counts.mcu_analog_unassigned + 1);
    };
  }
    where
      sent : Tx pf
      sent =
          pack_and_enqueue pf candef.mcu_analog_unassigned
            (record {
              ai1 = encode Signal.mcu_analog_unassigned_ai1 (widen m.ai1);
              ai3 = encode Signal.mcu_analog_unassigned_ai3 (widen m.ai3);
              ai4 = encode Signal.mcu_analog_unassigned_ai4 (widen m.ai4);
              ai5 = encode Signal.mcu_analog_unassigned_ai5 (widen m.ai5);
            })
            tx
