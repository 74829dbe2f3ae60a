-- ===== src/Tests/Frames.antt =====
-- Tests of the module Frames.
use zephyr_can_converter_uni.Prelude.{
  ℕ, some, ◌+◌, ◌<◌, ◌≤◌, ◌≡◌, refl, true, false, List, [], ◌∷◌, ◌++◌, arith, take, replicate, u32,
}
use mathlib.Core.Logic.{ite}
use zephyr_can_converter_uni.Proto.{
  MasterFaults, MasterMeasurements, master_faults_zero, master_measurements_zero,
  master_status_zero, MasterStatus,
}
use zephyr_can_converter_uni.Proto.Helpers.{digital_inputs_from_raw}
use zephyr_can_converter_uni.Frames.Inputs.{register, register-send_mcu_inputs}
use zephyr_can_converter_uni.Platform.{CanFrame}
use zephyr_can_converter_uni.Frames.{Tx, frame_counts_zero, memcpy, enqueue_frame, pack_and_enqueue}
use zephyr_can_converter_uni.Frames.Mcu
use zephyr_can_converter_uni.Frames.Delivery.{waiting}
use zephyr_can_converter_uni.Frames.Messages.{FrameKind, Message, counter, send}
use zephyr_can_converter_uni.Frames.Counts.{FrameKind-discrete, counter-send}
use zephyr_can_converter_uni.Frames.Receive.{Shows, Appends, send-Appends, send_mcu_faults-Shows}
use zephyr_can_converter_uni.Frames.Invariant.{IsQueue, enqueue_frame-IsQueue, send-IsQueue}
use zephyr_can_converter_uni.Frames.Lost.{send-full_counted, send_mcu_faults-hidden}
use zephyr_can_converter_uni.Frames.States.{IsCarried, ShowsState, send_mcu_state-ShowsState}
use zephyr_can_converter_uni.Frames.Readings.{received, send-received}
use zephyr_can_converter_uni.Candef.{Signal}
use zephyr_can_converter_uni.Tests.Receiver.{receiver}
use zephyr_can_converter_uni.Frames.Race.{
  Writer, Access, load, store, run, at_rest, increments, presses, increments-lost,
}
use zephyr_can_converter_uni.Frames.Race.Bounds.{increments-bounded}
use zephyr_can_converter_uni.Tests.Sample.{
  sample_decoding, unpack_state, unpack-pack_state, sample, sample_candef-IsClassic, unpack_faults,
  unpack-pack_faults, unpack_inputs, unpack-pack_inputs,
}

abbrev no_frames : Tx sample
no_frames = record { queue = []; frame_counts = frame_counts_zero }

abbrev some_frame : CanFrame
some_frame = record { id = 5; dlc = 2; flags = 1; bytes = 7 ∷ 7 ∷ 0 ∷ 0 ∷ 0 ∷ 0 ∷ 0 ∷ 0 ∷ [] }

abbrev one_frame : Tx sample
one_frame = record { queue = some_frame ∷ []; frame_counts = frame_counts_zero }

abbrev full : Tx sample
full = record {
  queue = replicate 32 some_frame;
  frame_counts = record frame_counts_zero { mcu_state = 4294967295 };
}

abbrev emergency : MasterFaults
emergency = record master_faults_zero {
  emg_emergency_switch = true;
  err_accessory_battery_voltage = true;
}

-- The frame of two flags: bit 0, bits 15 and 16.
sent_faults :
    waiting sample (Mcu.send_mcu_faults sample emergency one_frame)
    ≡ some_frame
      ∷ record { id = 3; dlc = 3; flags = 1; bytes = 1 ∷ 128 ∷ 1 ∷ 0 ∷ 0 ∷ 0 ∷ 0 ∷ 0 ∷ [] }
      ∷ []
unfolding Mcu.send_mcu_faults pack_and_enqueue enqueue_frame memcpy
sent_faults = refl

send_mcu_faults-Shows_example :
    (fr : CanFrame) × (waiting sample (Mcu.send_mcu_faults sample emergency one_frame)
      ≡ waiting sample one_frame ++ fr ∷ [])
    × (fr.id ≡ 3)
    × Shows (unpack_faults (take fr.dlc fr.bytes)) emergency
send_mcu_faults-Shows_example =
    send_mcu_faults-Shows sample unpack_faults emergency one_frame unpack-pack_faults (omega arith)
      (omega arith)

send-Appends_example :
    Appends sample 4 2 one_frame
      (send sample (Message.send_mcu_analog_speed master_measurements_zero) one_frame)
send-Appends_example =
    send-Appends sample (Message.send_mcu_analog_speed master_measurements_zero) one_frame
      sample_candef-IsClassic (omega arith)

counter-send_example :
    counter FrameKind.mcu_state
      (send sample (Message.send_mcu_state master_status_zero) full).frame_counts
    ≡ ite
        (FrameKind-discrete FrameKind.mcu_state FrameKind.mcu_state)
        (u32 (4294967295 + 1))
        4294967295
counter-send_example =
    counter-send sample FrameKind.mcu_state (Message.send_mcu_state master_status_zero) full

one_frame-IsQueue : IsQueue sample one_frame
one_frame-IsQueue = record {
  bounded = omega arith;
  sendable = (record { fits = omega arith; padded = refl; extended = refl }, tt);
}

send-IsQueue_example : IsQueue sample (send sample (Message.send_mcu_faults emergency) one_frame)
send-IsQueue_example =
    send-IsQueue sample (Message.send_mcu_faults emergency) one_frame one_frame-IsQueue

enqueued-IsQueue : IsQueue sample (enqueue_frame sample 9 (1 ∷ 2 ∷ 3 ∷ []) 2 one_frame)
enqueued-IsQueue =
    enqueue_frame-IsQueue sample 9 (1 ∷ 2 ∷ 3 ∷ []) 2 one_frame (omega arith) one_frame-IsQueue

send-full_counted_example :
    (waiting sample (send sample (Message.send_mcu_state master_status_zero) full)
      ≡ waiting sample full)
    × (counter FrameKind.mcu_state
          (send sample (Message.send_mcu_state master_status_zero) full).frame_counts
        ≡ 0)
send-full_counted_example =
    send-full_counted sample (Message.send_mcu_state master_status_zero) full (omega arith)

send_mcu_faults-hidden_example :
    Mcu.send_mcu_faults sample
      (record emergency {
        emg_hydrogen_leakage_voltage = true;
        err_accel_pedal_voltage = false;
        err_brake_pedal_voltage = false;
        err_hydrogen_high_pressure = true;
        err_speed = true;
      })
      no_frames
    ≡ Mcu.send_mcu_faults sample emergency no_frames
send_mcu_faults-hidden_example =
    send_mcu_faults-hidden sample emergency true false false true true no_frames

register-send_mcu_inputs_example :
    (fr : CanFrame) × (waiting sample (
        Mcu.send_mcu_inputs sample
          (record master_measurements_zero { din = digital_inputs_from_raw 328 })
          one_frame)
      ≡ some_frame ∷ fr ∷ [])
    × (register (unpack_inputs (take fr.dlc fr.bytes)) ≡ 72)
register-send_mcu_inputs_example =
    register-send_mcu_inputs sample unpack_inputs 328
      (record master_measurements_zero { din = digital_inputs_from_raw 328 }) one_frame refl
      unpack-pack_inputs (omega arith) (omega arith)

abbrev driving : MasterStatus
driving = record master_status_zero {
  state = 3;
  vehicle_type = 1;
  vehicle_allowed_to_move = true;
  main_valve_enabled = true;
}

driving-IsCarried : IsCarried sample sample_decoding driving
driving-IsCarried = omega arith

driving-IsShown :
    (fr : CanFrame) × (waiting sample (Mcu.send_mcu_state sample driving one_frame)
      ≡ waiting sample one_frame ++ fr ∷ [])
    × (fr.id ≡ 1)
    × ShowsState sample sample_decoding (unpack_state (take fr.dlc fr.bytes)) driving
driving-IsShown =
    send_mcu_state-ShowsState sample sample_decoding unpack_state driving one_frame
      driving-IsCarried unpack-pack_state (omega arith) (omega arith)

increments-lost_example :
    (run (load Writer.periodic ∷ (increments (presses 2) ++ store Writer.periodic ∷ [])) (at_rest 7)
      ≡ some (at_rest 8))
    × (m : ℕ) × (run (increments (Writer.periodic ∷ presses 2)) (at_rest 7) ≡ some (at_rest m))
    × (u32 m ≡ 10)
increments-lost_example = increments-lost 2 7

-- The handler's increment lies within one of the periodic thread, before two more of its own.
abbrev overlapping : List Access
overlapping =
    load Writer.periodic
    ∷ (increments (presses 1) ++ store Writer.periodic ∷ increments (presses 2))

run-overlapping : run overlapping (at_rest 7) ≡ some (at_rest 10)
unfolding run
run-overlapping = refl

increments-bounded_example : (7 < 10) × (10 ≤ 7 + 4)
increments-bounded_example =
    increments-bounded overlapping 7 10 (omega arith) (omega arith) run-overlapping

abbrev moving : MasterMeasurements
moving = record master_measurements_zero {
  supercapacitor_voltage = 48;
  motor_controller_supply_voltage = 47;
}

-- What is read out of the frame that is the second in the queue.
send-received_example :
    (fr : CanFrame) × (waiting sample
        (send sample (Message.send_mcu_analog_powertrain moving) one_frame)
      ≡ some_frame ∷ fr ∷ [])
    × (fr.id ≡ 6)
    × (received sample receiver FrameKind.mcu_analog_powertrain fr
        ≡ (Signal.mcu_analog_powertrain_supercapacitor_voltage, 48)
          ∷ (Signal.mcu_analog_powertrain_supercapacitor_current, 0)
          ∷ (Signal.mcu_analog_powertrain_motor_controller_supply_current, 0)
          ∷ (Signal.mcu_analog_powertrain_motor_controller_supply_voltage, 47)
          ∷ [])
send-received_example =
    send-received sample receiver (Message.send_mcu_analog_powertrain moving) one_frame refl
      (refl, (refl, (refl, (refl, tt)))) sample_candef-IsClassic (omega arith)
