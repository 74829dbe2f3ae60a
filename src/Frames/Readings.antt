-- ===== src/Frames/Readings.antt =====
-- What a receiver on the bus reads out of the frames whose signals are encoded, all but MCU_INPUTS and
-- MCU_FAULTS.
use zephyr_can_converter_uni.Prelude.{
  ℕ, ◌≤◌, ◌<◌, ◌≡◌, refl, ap, ◌∙◌, Bool, false, true, List, [], ◌∷◌, ◌++◌, map, arith, length, take,
  All,
}
use zephyr_can_converter_uni.Candef.{
  Candef, Codec, IsClassic, Signal, numbers_mcu_time_sync, numbers_mcu_state,
  numbers_mcu_analog_drive, numbers_mcu_analog_pedals, numbers_mcu_analog_powertrain,
  numbers_mcu_analog_fuel_cell, numbers_mcu_analog_accessory, numbers_mcu_analog_unassigned,
  numbers_protium_state, numbers_protium_power, numbers_protium_thermal, numbers_protium_hydrogen,
  numbers_protium_setpoints, numbers_protium_stasis, numbers_protium_misc,
}
use zephyr_can_converter_uni.Platform.{CanFrame, Platform, can_tx_depth}
use zephyr_can_converter_uni.Frames.{Tx, max_data, pack_and_enqueue, bit}
use zephyr_can_converter_uni.Frames.Mcu
use zephyr_can_converter_uni.Frames.Protium
use zephyr_can_converter_uni.Frames.Delivery.{waiting, packed_frame, waiting-pack_and_enqueue}
use zephyr_can_converter_uni.Frames.Messages.{FrameKind, Message, kind, send, frame_id}
use zephyr_can_converter_uni.Frames.Receive.{take-packed}
use zephyr_can_converter_uni.Frames.Receiver.{
  Receiver, encoded, decoded, IsCarried, encoded-lt, decoded-encoded,
}

-- What each frame is to tell: its signals, and the double that each of them stands for.
abbrev pub readings : Candef → Message → List (Signal × ℕ)
readings cd (Message.send_mcu_time_sync ms_tick cycle_tick) =
    (Signal.mcu_time_sync_time_ms, cd.from_uint ms_tick)
    ∷ (Signal.mcu_time_sync_clock_cycles, cd.from_uint cycle_tick)
    ∷ []
readings cd (Message.send_mcu_state s) =
    (Signal.mcu_state_status, cd.from_uint s.state)
    ∷ (Signal.mcu_state_vehicle_type, cd.from_uint s.vehicle_type)
    ∷ (Signal.mcu_state_vehicle_allowed_to_move, cd.from_uint (bit s.vehicle_allowed_to_move))
    ∷ (Signal.mcu_state_motor_controller_enabled, cd.from_uint (bit s.motor_controller_enabled))
    ∷ (Signal.mcu_state_main_valve_enabled, cd.from_uint (bit s.main_valve_enabled))
    ∷ []
readings cd (Message.send_mcu_analog_speed m) =
    (Signal.mcu_analog_drive_rpm, cd.widen m.rpm)
    ∷ (Signal.mcu_analog_drive_speed, cd.widen m.speed)
    ∷ []
readings cd (Message.send_mcu_analog_pedals m) =
    (Signal.mcu_analog_pedals_acceleration_pedal_voltage, cd.widen m.accel_pedal_voltage)
    ∷ (Signal.mcu_analog_pedals_brake_pedal_voltage, cd.widen m.brake_pedal_voltage)
    ∷ []
readings cd (Message.send_mcu_analog_powertrain m) =
    (Signal.mcu_analog_powertrain_supercapacitor_voltage, cd.widen m.supercapacitor_voltage)
    ∷ (Signal.mcu_analog_powertrain_supercapacitor_current, cd.widen m.supercapacitor_current)
    ∷ (
      Signal.mcu_analog_powertrain_motor_controller_supply_current,
      cd.widen m.motor_controller_supply_current,
    )
    ∷ (
      Signal.mcu_analog_powertrain_motor_controller_supply_voltage,
      cd.widen m.motor_controller_supply_voltage,
    )
    ∷ []
readings cd (Message.send_mcu_analog_fuel_cell m) =
    (Signal.mcu_analog_fuel_cell_fuel_cell_output_current, cd.widen m.fuel_cell_output_current)
    ∷ (Signal.mcu_analog_fuel_cell_fuel_cell_output_voltage, cd.widen m.fuel_cell_output_voltage)
    ∷ (Signal.mcu_analog_fuel_cell_hydrogen_high_pressure, cd.widen m.hydrogen_high_pressure)
    ∷ (
      Signal.mcu_analog_fuel_cell_hydrogen_leakage_sensor_voltage,
      cd.widen m.hydrogen_leakage_sensor_voltage,
    )
    ∷ []
readings cd (Message.send_mcu_analog_accessory m) =
    (Signal.mcu_analog_accessory_accessory_battery_current, cd.widen m.accessory_battery_current)
    ∷ (Signal.mcu_analog_accessory_accessory_battery_voltage, cd.widen m.accessory_battery_voltage)
    ∷ []
readings cd (Message.send_mcu_analog_unassigned m) =
    (Signal.mcu_analog_unassigned_ai1, cd.widen m.ai1)
    ∷ (Signal.mcu_analog_unassigned_ai3, cd.widen m.ai3)
    ∷ (Signal.mcu_analog_unassigned_ai4, cd.widen m.ai4)
    ∷ (Signal.mcu_analog_unassigned_ai5, cd.widen m.ai5)
    ∷ []
readings cd (Message.send_protium_state operating_state) =
    (Signal.protium_state_operating_state, cd.from_uint operating_state) ∷ []
readings cd (Message.send_protium_power v) =
    (Signal.protium_power_fc_v, cd.widen v.fc_v)
    ∷ (Signal.protium_power_fc_a, cd.widen v.fc_a)
    ∷ (Signal.protium_power_fc_w, cd.widen v.fc_w)
    ∷ (Signal.protium_power_energy, cd.widen v.energy)
    ∷ []
readings cd (Message.send_protium_thermal v) =
    (Signal.protium_thermal_fct1, cd.widen v.fct1)
    ∷ (Signal.protium_thermal_fct2, cd.widen v.fct2)
    ∷ (Signal.protium_thermal_fan, cd.widen v.fan)
    ∷ (Signal.protium_thermal_blw, cd.widen v.blw)
    ∷ []
readings cd (Message.send_protium_hydrogen v) =
    (Signal.protium_hydrogen_h2_p1, cd.widen v.h2p1)
    ∷ (Signal.protium_hydrogen_h2_p2, cd.widen v.h2p2)
    ∷ (Signal.protium_hydrogen_tank_p, cd.widen v.tank_p)
    ∷ (Signal.protium_hydrogen_tank_t, cd.widen v.tank_t)
    ∷ []
readings cd (Message.send_protium_setpoints v) =
    (Signal.protium_setpoints_v_set, cd.widen v.v_set)
    ∷ (Signal.protium_setpoints_i_set, cd.widen v.i_set)
    ∷ (Signal.protium_setpoints_ucb_v, cd.widen v.ucb_v)
    ∷ (Signal.protium_setpoints_number_of_cells, cd.widen v.number_of_cell)
    ∷ []
readings cd (Message.send_protium_stasis v) =
    (Signal.protium_stasis_stasis_selector, cd.widen v.stasis_selector)
    ∷ (Signal.protium_stasis_stasis_v1, cd.widen v.stasis_v1)
    ∷ (Signal.protium_stasis_stasis_v2, cd.widen v.stasis_v2)
    ∷ (Signal.protium_stasis_batt_v, cd.widen v.batt_v)
    ∷ []
readings cd (Message.send_protium_misc v) =
    (Signal.protium_misc_ip, cd.widen v.ip) ∷ (Signal.protium_misc_tp, cd.widen v.tp) ∷ []
readings cd _ = []

-- MCU_INPUTS and MCU_FAULTS carry plain bits, which are not encoded.
abbrev pub is_encoded : FrameKind → Bool
is_encoded FrameKind.mcu_inputs = false
is_encoded FrameKind.mcu_faults = false
is_encoded _ = true

module _ (pf : Platform) (rc : Receiver pf.candef) where
  open pf use {candef}

  -- The signals that a receiver finds in a frame of a kind, decoded.
  abbrev pub received : FrameKind → CanFrame → List (Signal × ℕ)
  received k fr = map (decoded candef rc) (rc.read k (take fr.dlc fr.bytes))

  abbrev Reads : FrameKind → List (Signal × ℕ) → Tx pf → Tx pf → Type 0
  Reads k rs tx tx' =
      (fr : CanFrame) × (waiting pf tx' ≡ waiting pf tx ++ fr ∷ [])
      × (fr.id ≡ frame_id pf k)
      × (received k fr ≡ rs)

  pack_and_enqueue-Reads :
      {S : Type 0} (k : FrameKind) (c : Codec S) (s : S) (numbers : S → List (Signal × ℕ))
      (rs : List (Signal × ℕ)) (tx : Tx pf)
      → numbers s ≡ map (encoded candef rc) rs
      → All (IsCarried candef rc) rs
      → (All (λ n. n.1 < rc.raw_values n.0) (numbers s) → rc.read k (c.pack s) ≡ numbers s)
      → c.frame_id ≡ frame_id pf k
      → c.len ≤ max_data
      → length (waiting pf tx) < can_tx_depth
      → Reads k rs tx (pack_and_enqueue pf c s tx)
  pack_and_enqueue-Reads k c s numbers rs tx same carried law id fits room =
      let word : All (λ n. n.1 < rc.raw_values n.0) (numbers s) =
        rw same (encoded-lt candef rc rs carried) in
      (
        packed_frame pf c s,
        waiting-pack_and_enqueue pf c s tx fits room,
        id,
        ap (λ bs. map (decoded candef rc) (rc.read k bs)) (take-packed c s _)
            ∙ (ap (map (decoded candef rc)) (law word ∙ same)
                ∙ decoded-encoded candef rc rs carried),
      )

  -- With room in the queue and frames that fit a classical CAN bus a sender appends one frame, with the
  -- identifier of its kind; if the signals of the frame can carry what they stand for, a receiver
  -- that reads the raw numbers out of its data bytes and decodes them finds each of the frame's
  -- signals with the value that it stands for: the measured values, the numbers of the states in
  -- proto/master.proto and the flags of the message. This is for all kinds but MCU_INPUTS and
  -- MCU_FAULTS, and not for tools/can_test.py, which reads two states of MCU_STATE the other way
  -- round.
  pub send-received :
      (m : Message) (tx : Tx pf)
      → is_encoded (kind m) ≡ true
      → All (IsCarried candef rc) (readings candef m)
      → IsClassic candef
      → length (waiting pf tx) < can_tx_depth
      → (fr : CanFrame) × (waiting pf (send pf m tx) ≡ waiting pf tx ++ fr ∷ [])
        × (fr.id ≡ frame_id pf (kind m))
        × (received (kind m) fr ≡ readings candef m)
  unfolding send Mcu.send_mcu_time_sync Mcu.send_mcu_state Mcu.send_mcu_inputs Mcu.send_mcu_faults
      Mcu.send_mcu_analog_speed Mcu.send_mcu_analog_pedals Mcu.send_mcu_analog_powertrain
      Mcu.send_mcu_analog_fuel_cell Mcu.send_mcu_analog_accessory Mcu.send_mcu_analog_unassigned
      Protium.send_protium_state Protium.send_protium_power Protium.send_protium_thermal
      Protium.send_protium_hydrogen Protium.send_protium_setpoints Protium.send_protium_stasis
      Protium.send_protium_misc
  send-received (Message.send_mcu_time_sync ms_tick cycle_tick) tx e carried cl room =
      pack_and_enqueue-Reads FrameKind.mcu_time_sync candef.mcu_time_sync _ numbers_mcu_time_sync _
        tx refl carried (rc.read-mcu_time_sync _) refl cl.mcu_time_sync_fits room
  send-received (Message.send_mcu_state s) tx e carried cl room =
      pack_and_enqueue-Reads FrameKind.mcu_state candef.mcu_state _ numbers_mcu_state _ tx refl
        carried (rc.read-mcu_state _) refl cl.mcu_state_fits room
  send-received (Message.send_mcu_analog_speed m) tx e carried cl room =
      pack_and_enqueue-Reads FrameKind.mcu_analog_speed candef.mcu_analog_drive _
        numbers_mcu_analog_drive _ tx refl carried (rc.read-mcu_analog_drive _) refl
        cl.mcu_analog_drive_fits room
  send-received (Message.send_mcu_analog_pedals m) tx e carried cl room =
      pack_and_enqueue-Reads FrameKind.mcu_analog_pedals candef.mcu_analog_pedals _
        numbers_mcu_analog_pedals _ tx refl carried (rc.read-mcu_analog_pedals _) refl
        cl.mcu_analog_pedals_fits room
  send-received (Message.send_mcu_analog_powertrain m) tx e carried cl room =
      pack_and_enqueue-Reads FrameKind.mcu_analog_powertrain candef.mcu_analog_powertrain _
        numbers_mcu_analog_powertrain _ tx refl carried (rc.read-mcu_analog_powertrain _) refl
        cl.mcu_analog_powertrain_fits room
  send-received (Message.send_mcu_analog_fuel_cell m) tx e carried cl room =
      pack_and_enqueue-Reads FrameKind.mcu_analog_fuel_cell candef.mcu_analog_fuel_cell _
        numbers_mcu_analog_fuel_cell _ tx refl carried (rc.read-mcu_analog_fuel_cell _) refl
        cl.mcu_analog_fuel_cell_fits room
  send-received (Message.send_mcu_analog_accessory m) tx e carried cl room =
      pack_and_enqueue-Reads FrameKind.mcu_analog_accessory candef.mcu_analog_accessory _
        numbers_mcu_analog_accessory _ tx refl carried (rc.read-mcu_analog_accessory _) refl
        cl.mcu_analog_accessory_fits room
  send-received (Message.send_mcu_analog_unassigned m) tx e carried cl room =
      pack_and_enqueue-Reads FrameKind.mcu_analog_unassigned candef.mcu_analog_unassigned _
        numbers_mcu_analog_unassigned _ tx refl carried (rc.read-mcu_analog_unassigned _) refl
        cl.mcu_analog_unassigned_fits room
  send-received (Message.send_protium_state operating_state) tx e carried cl room =
      pack_and_enqueue-Reads FrameKind.protium_state candef.protium_state _ numbers_protium_state _
        tx refl carried (rc.read-protium_state _) refl cl.protium_state_fits room
  send-received (Message.send_protium_power v) tx e carried cl room =
      pack_and_enqueue-Reads FrameKind.protium_power candef.protium_power _ numbers_protium_power _
        tx refl carried (rc.read-protium_power _) refl cl.protium_power_fits room
  send-received (Message.send_protium_thermal v) tx e carried cl room =
      pack_and_enqueue-Reads FrameKind.protium_thermal candef.protium_thermal _
        numbers_protium_thermal _ tx refl carried (rc.read-protium_thermal _) refl
        cl.protium_thermal_fits room
  send-received (Message.send_protium_hydrogen v) tx e carried cl room =
      pack_and_enqueue-Reads FrameKind.protium_hydrogen candef.protium_hydrogen _
        numbers_protium_hydrogen _ tx refl carried (rc.read-protium_hydrogen _) refl
        cl.protium_hydrogen_fits room
  send-received (Message.send_protium_setpoints v) tx e carried cl room =
      pack_and_enqueue-Reads FrameKind.protium_setpoints candef.protium_setpoints _
        numbers_protium_setpoints _ tx refl carried (rc.read-protium_setpoints _) refl
        cl.protium_setpoints_fits room
  send-received (Message.send_protium_stasis v) tx e carried cl room =
      pack_and_enqueue-Reads FrameKind.protium_stasis candef.protium_stasis _ numbers_protium_stasis
        _ tx refl carried (rc.read-protium_stasis _) refl cl.protium_stasis_fits room
  send-received (Message.send_protium_misc v) tx e carried cl room =
      pack_and_enqueue-Reads FrameKind.protium_misc candef.protium_misc _ numbers_protium_misc _ tx
        refl carried (rc.read-protium_misc _) refl cl.protium_misc_fits room
  send-received (Message.send_mcu_inputs m) tx e carried cl room = absurd (ground arith)
  send-received (Message.send_mcu_faults f) tx e carried cl room = absurd (ground arith)
