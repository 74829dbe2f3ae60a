-- ===== src/Frames/Receive.antt =====
-- What a receiver on the bus finds in the queued frames.
use zephyr_can_converter_uni.Prelude.{
  ℕ, ◌-◌, ◌≤◌, ◌<◌, ◌≡◌, refl, Bool, List, [], ◌∷◌, ◌++◌, arith, length, take, length-append,
  length-replicate, take-append_left, replicate,
}
use zephyr_can_converter_uni.Proto.{MasterFaults}
use zephyr_can_converter_uni.Candef.{Codec, IsClassic, McuFaults}
use zephyr_can_converter_uni.Platform.{CanFrame, Platform, can_tx_depth}
use zephyr_can_converter_uni.Frames.{Tx, max_data, bit, pack_and_enqueue}
use zephyr_can_converter_uni.Frames.Mcu
use zephyr_can_converter_uni.Frames.Protium
use zephyr_can_converter_uni.Frames.Delivery.{waiting, packed_frame, waiting-pack_and_enqueue}
use zephyr_can_converter_uni.Frames.Messages.{FrameKind, Message, kind, send, frame_id, frame_len}

-- The raw numbers of a frame of flags are 0 or 1.
pub record IsFlags (r : McuFaults) : Type 0 where
  pub emergency_switch : r.emergency_switch < 2
  pub emergency_dead_mans_switch : r.emergency_dead_mans_switch < 2
  pub emergency_leakage_detected : r.emergency_leakage_detected < 2
  pub error_fc_v_low : r.error_fc_v_low < 2
  pub error_fc_v_high : r.error_fc_v_high < 2
  pub error_fc_c_low : r.error_fc_c_low < 2
  pub error_fc_c_high : r.error_fc_c_high < 2
  pub error_sc_v_low : r.error_sc_v_low < 2
  pub error_sc_v_high : r.error_sc_v_high < 2
  pub error_sc_c_low : r.error_sc_c_low < 2
  pub error_sc_c_high : r.error_sc_c_high < 2
  pub error_mc_v_low : r.error_mc_v_low < 2
  pub error_mc_v_high : r.error_mc_v_high < 2
  pub error_mc_c_low : r.error_mc_c_low < 2
  pub error_mc_c_high : r.error_mc_c_high < 2
  pub error_ab_v_low : r.error_ab_v_low < 2
  pub error_ab_v_high : r.error_ab_v_high < 2
  pub error_ab_c_low : r.error_ab_c_low < 2
  pub error_ab_c_high : r.error_ab_c_high < 2

-- A received MCU_FAULTS frame shows the faults of the master: the three emergency inputs, and each
-- sensor error both as "low" and as "high".
pub record Shows (r : McuFaults) (f : MasterFaults) : Type 0 where
  pub emergency_switch : r.emergency_switch ≡ bit f.emg_emergency_switch
  pub emergency_dead_mans_switch : r.emergency_dead_mans_switch ≡ bit f.emg_dead_mans_switch
  pub emergency_leakage_detected : r.emergency_leakage_detected ≡ bit f.emg_leakage_sensor_switch
  pub error_fc_v_low : r.error_fc_v_low ≡ bit f.err_fuel_cell_output_voltage
  pub error_fc_v_high : r.error_fc_v_high ≡ bit f.err_fuel_cell_output_voltage
  pub error_fc_c_low : r.error_fc_c_low ≡ bit f.err_fuel_cell_output_current
  pub error_fc_c_high : r.error_fc_c_high ≡ bit f.err_fuel_cell_output_current
  pub error_sc_v_low : r.error_sc_v_low ≡ bit f.err_supercapacitor_voltage
  pub error_sc_v_high : r.error_sc_v_high ≡ bit f.err_supercapacitor_voltage
  pub error_sc_c_low : r.error_sc_c_low ≡ bit f.err_supercapacitor_current
  pub error_sc_c_high : r.error_sc_c_high ≡ bit f.err_supercapacitor_current
  pub error_mc_v_low : r.error_mc_v_low ≡ bit f.err_motor_controller_supply_voltage
  pub error_mc_v_high : r.error_mc_v_high ≡ bit f.err_motor_controller_supply_voltage
  pub error_mc_c_low : r.error_mc_c_low ≡ bit f.err_motor_controller_supply_current
  pub error_mc_c_high : r.error_mc_c_high ≡ bit f.err_motor_controller_supply_current
  pub error_ab_v_low : r.error_ab_v_low ≡ bit f.err_accessory_battery_voltage
  pub error_ab_v_high : r.error_ab_v_high ≡ bit f.err_accessory_battery_voltage
  pub error_ab_c_low : r.error_ab_c_low ≡ bit f.err_accessory_battery_current
  pub error_ab_c_high : r.error_ab_c_high ≡ bit f.err_accessory_battery_current

pub bit-lt : (b : Bool) → bit b < 2
bit-lt b = ground arith

-- The bytes that a frame counts are the packed signals.
pub take-packed :
    {S : Type 0} (c : Codec S) (s : S) (n : ℕ) → take c.len (c.pack s ++ replicate n 0) ≡ c.pack s
take-packed c s n = rw (← c.length-pack s) (take-append_left (c.pack s) (replicate n 0))

module _ (pf : Platform) where
  open pf use {candef, can_frame_ide}

  pub frame_len-le : IsClassic candef → (k : FrameKind) → frame_len pf k ≤ max_data
  frame_len-le cl FrameKind.mcu_state = cl.mcu_state_fits
  frame_len-le cl k = omega arith

  -- One more frame waits, at the end, and it is an extended frame of eight data bytes with this
  -- identifier and this length.
  abbrev pub Appends : ℕ → ℕ → Tx pf → Tx pf → Type 0
  Appends id len tx tx' =
      (f : CanFrame) × (waiting pf tx' ≡ waiting pf tx ++ f ∷ [])
      × (f.id ≡ id)
      × (f.dlc ≡ len)
      × (f.flags ≡ can_frame_ide)
      × (length f.bytes ≡ max_data)

  pack_and_enqueue-Appends :
      {S : Type 0} (c : Codec S) (s : S) (tx : Tx pf)
      → c.len ≤ max_data
      → length (waiting pf tx) < can_tx_depth
      → Appends c.frame_id c.len tx (pack_and_enqueue pf c s tx)
  pack_and_enqueue-Appends c s tx fits room = (
    packed_frame pf c s,
    waiting-pack_and_enqueue pf c s tx fits room,
    refl,
    refl,
    refl,
    omega (
      arith,
      length-append {0} (c.pack s) (replicate (max_data - c.len) 0),
      length-replicate {0} {A = ℕ} (max_data - c.len) 0,
      c.length-pack s,
    ),
  )

  -- With room in the queue and frames that fit a classical bus every sender appends exactly one
  -- frame, with the identifier and the length of its kind, flagged as extended and with eight data bytes.
  pub send-Appends :
      (m : Message) (tx : Tx pf)
      → IsClassic candef
      → length (waiting pf tx) < can_tx_depth
      → Appends (frame_id pf (kind m)) (frame_len pf (kind m)) tx (send pf m tx)
  unfolding send Mcu.send_mcu_time_sync Mcu.send_mcu_state Mcu.send_mcu_inputs Mcu.send_mcu_faults
      Mcu.send_mcu_analog_speed Mcu.send_mcu_analog_pedals Mcu.send_mcu_analog_powertrain
      Mcu.send_mcu_analog_fuel_cell Mcu.send_mcu_analog_accessory Mcu.send_mcu_analog_unassigned
      Protium.send_protium_state Protium.send_protium_power Protium.send_protium_thermal
      Protium.send_protium_hydrogen Protium.send_protium_setpoints Protium.send_protium_stasis
      Protium.send_protium_misc
  send-Appends (Message.send_mcu_time_sync a b) tx cl room =
      pack_and_enqueue-Appends candef.mcu_time_sync _ tx cl.mcu_time_sync_fits room
  send-Appends m tx cl room = pack_and_enqueue-Appends _ _ tx (frame_len-le cl (kind m)) room

  -- With room in the queue one frame is appended, with the identifier of MCU_FAULTS, and a receiver
  -- that unpacks its data bytes with the inverse of the packing function finds the master's faults.
  pub send_mcu_faults-Shows :
      (unpack : List ℕ → McuFaults) (f : MasterFaults) (tx : Tx pf)
      → ((s : McuFaults) → IsFlags s → unpack (candef.mcu_faults.pack s) ≡ s)
      → candef.mcu_faults.len ≤ max_data
      → length (waiting pf tx) < can_tx_depth
      → (fr : CanFrame) × (waiting pf (Mcu.send_mcu_faults pf f tx) ≡ waiting pf tx ++ fr ∷ [])
        × (fr.id ≡ candef.mcu_faults.frame_id)
        × Shows (unpack (take fr.dlc fr.bytes)) f
  unfolding Mcu.send_mcu_faults
  send_mcu_faults-Shows unpack f tx round fits room = (
    packed_frame pf candef.mcu_faults shown,
    waiting-pack_and_enqueue pf candef.mcu_faults shown tx fits room,
    refl,
    rw (take-packed candef.mcu_faults shown _, round shown flags) same,
  )
    where
      shown : McuFaults
      shown = record {
        emergency_switch = bit f.emg_emergency_switch;
        emergency_dead_mans_switch = bit f.emg_dead_mans_switch;
        emergency_leakage_detected = bit f.emg_leakage_sensor_switch;
        error_fc_v_low = bit f.err_fuel_cell_output_voltage;
        error_fc_v_high = bit f.err_fuel_cell_output_voltage;
        error_fc_c_low = bit f.err_fuel_cell_output_current;
        error_fc_c_high = bit f.err_fuel_cell_output_current;
        error_sc_v_low = bit f.err_supercapacitor_voltage;
        error_sc_v_high = bit f.err_supercapacitor_voltage;
        error_sc_c_low = bit f.err_supercapacitor_current;
        error_sc_c_high = bit f.err_supercapacitor_current;
        error_mc_v_low = bit f.err_motor_controller_supply_voltage;
        error_mc_v_high = bit f.err_motor_controller_supply_voltage;
        error_mc_c_low = bit f.err_motor_controller_supply_current;
        error_mc_c_high = bit f.err_motor_controller_supply_current;
        error_ab_v_low = bit f.err_accessory_battery_voltage;
        error_ab_v_high = bit f.err_accessory_battery_voltage;
        error_ab_c_low = bit f.err_accessory_battery_current;
        error_ab_c_high = bit f.err_accessory_battery_current;
      }

      flags : IsFlags shown
      flags = record {
        emergency_switch = bit-lt f.emg_emergency_switch;
        emergency_dead_mans_switch = bit-lt f.emg_dead_mans_switch;
        emergency_leakage_detected = bit-lt f.emg_leakage_sensor_switch;
        error_fc_v_low = bit-lt f.err_fuel_cell_output_voltage;
        error_fc_v_high = bit-lt f.err_fuel_cell_output_voltage;
        error_fc_c_low = bit-lt f.err_fuel_cell_output_current;
        error_fc_c_high = bit-lt f.err_fuel_cell_output_current;
        error_sc_v_low = bit-lt f.err_supercapacitor_voltage;
        error_sc_v_high = bit-lt f.err_supercapacitor_voltage;
        error_sc_c_low = bit-lt f.err_supercapacitor_current;
        error_sc_c_high = bit-lt f.err_supercapacitor_current;
        error_mc_v_low = bit-lt f.err_motor_controller_supply_voltage;
        error_mc_v_high = bit-lt f.err_motor_controller_supply_voltage;
        error_mc_c_low = bit-lt f.err_motor_controller_supply_current;
        error_mc_c_high = bit-lt f.err_motor_controller_supply_current;
        error_ab_v_low = bit-lt f.err_accessory_battery_voltage;
        error_ab_v_high = bit-lt f.err_accessory_battery_voltage;
        error_ab_c_low = bit-lt f.err_accessory_battery_current;
        error_ab_c_high = bit-lt f.err_accessory_battery_current;
      }

      same : Shows shown f
      same = record {
        emergency_switch = refl;
        emergency_dead_mans_switch = refl;
        emergency_leakage_detected = refl;
        error_fc_v_low = refl;
        error_fc_v_high = refl;
        error_fc_c_low = refl;
        error_fc_c_high = refl;
        error_sc_v_low = refl;
        error_sc_v_high = refl;
        error_sc_c_low = refl;
        error_sc_c_high = refl;
        error_mc_v_low = refl;
        error_mc_v_high = refl;
        error_mc_c_low = refl;
        error_mc_c_high = refl;
        error_ab_v_low = refl;
        error_ab_v_high = refl;
        error_ab_c_low = refl;
        error_ab_c_high = refl;
      }
