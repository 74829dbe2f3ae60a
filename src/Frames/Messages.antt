-- ===== src/Frames/Messages.antt =====
-- The seventeen senders of src/can_converter_frames.c as one: a message is a call of a sender with
-- its argument, and its kind is the counter that the call is accounted under.
use zephyr_can_converter_uni.Prelude.{ℕ, ◌+◌, List, [], ◌∷◌, u32}
use zephyr_can_converter_uni.Proto.{
  MasterMeasurements, MasterStatus, MasterFaults, ProtiumValues, ProtiumOperatingState,
}
use zephyr_can_converter_uni.Platform.{Platform}
use zephyr_can_converter_uni.Frames.{FrameCounts, Tx}
use zephyr_can_converter_uni.Frames.Mcu
use zephyr_can_converter_uni.Frames.Protium

pub data FrameKind : Type 0 where
  mcu_time_sync : FrameKind
  mcu_state : FrameKind
  mcu_inputs : FrameKind
  mcu_faults : FrameKind
  mcu_analog_speed : FrameKind
  mcu_analog_pedals : FrameKind
  mcu_analog_powertrain : FrameKind
  mcu_analog_fuel_cell : FrameKind
  mcu_analog_accessory : FrameKind
  mcu_analog_unassigned : FrameKind
  protium_state : FrameKind
  protium_power : FrameKind
  protium_thermal : FrameKind
  protium_hydrogen : FrameKind
  protium_setpoints : FrameKind
  protium_stasis : FrameKind
  protium_misc : FrameKind

pub data Message : Type 0 where
  send_mcu_time_sync : (ms_tick cycle_tick : ℕ) → Message
  send_mcu_state : MasterStatus → Message
  send_mcu_inputs : MasterMeasurements → Message
  send_mcu_faults : MasterFaults → Message
  send_mcu_analog_speed : MasterMeasurements → Message
  send_mcu_analog_pedals : MasterMeasurements → Message
  send_mcu_analog_powertrain : MasterMeasurements → Message
  send_mcu_analog_fuel_cell : MasterMeasurements → Message
  send_mcu_analog_accessory : MasterMeasurements → Message
  send_mcu_analog_unassigned : MasterMeasurements → Message
  send_protium_state : ProtiumOperatingState → Message
  send_protium_power : ProtiumValues → Message
  send_protium_thermal : ProtiumValues → Message
  send_protium_hydrogen : ProtiumValues → Message
  send_protium_setpoints : ProtiumValues → Message
  send_protium_stasis : ProtiumValues → Message
  send_protium_misc : ProtiumValues → Message

abbrev pub kind : Message → FrameKind
kind (send_mcu_time_sync a b) = mcu_time_sync
kind (send_mcu_state x) = mcu_state
kind (send_mcu_inputs x) = mcu_inputs
kind (send_mcu_faults x) = mcu_faults
kind (send_mcu_analog_speed x) = mcu_analog_speed
kind (send_mcu_analog_pedals x) = mcu_analog_pedals
kind (send_mcu_analog_powertrain x) = mcu_analog_powertrain
kind (send_mcu_analog_fuel_cell x) = mcu_analog_fuel_cell
kind (send_mcu_analog_accessory x) = mcu_analog_accessory
kind (send_mcu_analog_unassigned x) = mcu_analog_unassigned
kind (send_protium_state x) = protium_state
kind (send_protium_power x) = protium_power
kind (send_protium_thermal x) = protium_thermal
kind (send_protium_hydrogen x) = protium_hydrogen
kind (send_protium_setpoints x) = protium_setpoints
kind (send_protium_stasis x) = protium_stasis
kind (send_protium_misc x) = protium_misc

abbrev pub counter : FrameKind → FrameCounts → ℕ
counter mcu_time_sync c = c.mcu_time_sync
counter mcu_state c = c.mcu_state
counter mcu_inputs c = c.mcu_inputs
counter mcu_faults c = c.mcu_faults
counter mcu_analog_speed c = c.mcu_analog_speed
counter mcu_analog_pedals c = c.mcu_analog_pedals
counter mcu_analog_powertrain c = c.mcu_analog_powertrain
counter mcu_analog_fuel_cell c = c.mcu_analog_fuel_cell
counter mcu_analog_accessory c = c.mcu_analog_accessory
counter mcu_analog_unassigned c = c.mcu_analog_unassigned
counter protium_state c = c.protium_state
counter protium_power c = c.protium_power
counter protium_thermal c = c.protium_thermal
counter protium_hydrogen c = c.protium_hydrogen
counter protium_setpoints c = c.protium_setpoints
counter protium_stasis c = c.protium_stasis
counter protium_misc c = c.protium_misc

-- `frame_counts.<kind>++` on a uint32_t
abbrev pub increment : FrameKind → FrameCounts → FrameCounts
increment mcu_time_sync c = record c { mcu_time_sync = u32 (c.mcu_time_sync + 1) }
increment mcu_state c = record c { mcu_state = u32 (c.mcu_state + 1) }
increment mcu_inputs c = record c { mcu_inputs = u32 (c.mcu_inputs + 1) }
increment mcu_faults c = record c { mcu_faults = u32 (c.mcu_faults + 1) }
increment mcu_analog_speed c = record c { mcu_analog_speed = u32 (c.mcu_analog_speed + 1) }
increment mcu_analog_pedals c = record c { mcu_analog_pedals = u32 (c.mcu_analog_pedals + 1) }
increment mcu_analog_powertrain c = record c {
  mcu_analog_powertrain = u32 (c.mcu_analog_powertrain + 1);
}
increment mcu_analog_fuel_cell c = record c {
  mcu_analog_fuel_cell = u32 (c.mcu_analog_fuel_cell + 1);
}
increment mcu_analog_accessory c = record c {
  mcu_analog_accessory = u32 (c.mcu_analog_accessory + 1);
}
increment mcu_analog_unassigned c = record c {
  mcu_analog_unassigned = u32 (c.mcu_analog_unassigned + 1);
}
increment protium_state c = record c { protium_state = u32 (c.protium_state + 1) }
increment protium_power c = record c { protium_power = u32 (c.protium_power + 1) }
increment protium_thermal c = record c { protium_thermal = u32 (c.protium_thermal + 1) }
increment protium_hydrogen c = record c { protium_hydrogen = u32 (c.protium_hydrogen + 1) }
increment protium_setpoints c = record c { protium_setpoints = u32 (c.protium_setpoints + 1) }
increment protium_stasis c = record c { protium_stasis = u32 (c.protium_stasis + 1) }
increment protium_misc c = record c { protium_misc = u32 (c.protium_misc + 1) }

module _ (pf : Platform) where
  open pf use {candef}

  unfoldable pub send : Message → Tx pf → Tx pf
  send (send_mcu_time_sync a b) tx = Mcu.send_mcu_time_sync pf a b tx
  send (send_mcu_state x) tx = Mcu.send_mcu_state pf x tx
  send (send_mcu_inputs x) tx = Mcu.send_mcu_inputs pf x tx
  send (send_mcu_faults x) tx = Mcu.send_mcu_faults pf x tx
  send (send_mcu_analog_speed x) tx = Mcu.send_mcu_analog_speed pf x tx
  send (send_mcu_analog_pedals x) tx = Mcu.send_mcu_analog_pedals pf x tx
  send (send_mcu_analog_powertrain x) tx = Mcu.send_mcu_analog_powertrain pf x tx
  send (send_mcu_analog_fuel_cell x) tx = Mcu.send_mcu_analog_fuel_cell pf x tx
  send (send_mcu_analog_accessory x) tx = Mcu.send_mcu_analog_accessory pf x tx
  send (send_mcu_analog_unassigned x) tx = Mcu.send_mcu_analog_unassigned pf x tx
  send (send_protium_state x) tx = Protium.send_protium_state pf x tx
  send (send_protium_power x) tx = Protium.send_protium_power pf x tx
  send (send_protium_thermal x) tx = Protium.send_protium_thermal pf x tx
  send (send_protium_hydrogen x) tx = Protium.send_protium_hydrogen pf x tx
  send (send_protium_setpoints x) tx = Protium.send_protium_setpoints pf x tx
  send (send_protium_stasis x) tx = Protium.send_protium_stasis pf x tx
  send (send_protium_misc x) tx = Protium.send_protium_misc pf x tx

  -- the calls one after the other
  unfoldable pub send_all : List Message → Tx pf → Tx pf
  unfolding send
  send_all [] tx = tx
  send_all (m ∷ ms) tx = send_all ms (send m tx)

  -- CANDEF_<NAME>_FRAME_ID and CANDEF_<NAME>_LENGTH of the frame that a kind is sent as.
  abbrev pub frame_id : FrameKind → ℕ
  frame_id mcu_time_sync = candef.mcu_time_sync.frame_id
  frame_id mcu_state = candef.mcu_state.frame_id
  frame_id mcu_inputs = candef.mcu_inputs.frame_id
  frame_id mcu_faults = candef.mcu_faults.frame_id
  frame_id mcu_analog_speed = candef.mcu_analog_drive.frame_id
  frame_id mcu_analog_pedals = candef.mcu_analog_pedals.frame_id
  frame_id mcu_analog_powertrain = candef.mcu_analog_powertrain.frame_id
  frame_id mcu_analog_fuel_cell = candef.mcu_analog_fuel_cell.frame_id
  frame_id mcu_analog_accessory = candef.mcu_analog_accessory.frame_id
  frame_id mcu_analog_unassigned = candef.mcu_analog_unassigned.frame_id
  frame_id protium_state = candef.protium_state.frame_id
  frame_id protium_power = candef.protium_power.frame_id
  frame_id protium_thermal = candef.protium_thermal.frame_id
  frame_id protium_hydrogen = candef.protium_hydrogen.frame_id
  frame_id protium_setpoints = candef.protium_setpoints.frame_id
  frame_id protium_stasis = candef.protium_stasis.frame_id
  frame_id protium_misc = candef.protium_misc.frame_id

  abbrev pub frame_len : FrameKind → ℕ
  frame_len mcu_time_sync = candef.mcu_time_sync.len
  frame_len mcu_state = candef.mcu_state.len
  frame_len mcu_inputs = candef.mcu_inputs.len
  frame_len mcu_faults = candef.mcu_faults.len
  frame_len mcu_analog_speed = candef.mcu_analog_drive.len
  frame_len mcu_analog_pedals = candef.mcu_analog_pedals.len
  frame_len mcu_analog_powertrain = candef.mcu_analog_powertrain.len
  frame_len mcu_analog_fuel_cell = candef.mcu_analog_fuel_cell.len
  frame_len mcu_analog_accessory = candef.mcu_analog_accessory.len
  frame_len mcu_analog_unassigned = candef.mcu_analog_unassigned.len
  frame_len protium_state = candef.protium_state.len
  frame_len protium_power = candef.protium_power.len
  frame_len protium_thermal = candef.protium_thermal.len
  frame_len protium_hydrogen = candef.protium_hydrogen.len
  frame_len protium_setpoints = candef.protium_setpoints.len
  frame_len protium_stasis = candef.protium_stasis.len
  frame_len protium_misc = candef.protium_misc.len
