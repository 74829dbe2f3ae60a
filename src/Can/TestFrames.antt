-- ===== src/Can/TestFrames.antt =====
-- What ccu_can_test_send_all of src/can_converter_can.c sends.
use zephyr_can_converter_uni.Prelude.{
  ℕ, ◌+◌, ◌≤◌, ◌≡◌, ap, ◌∙◌, Bool, List, [], ◌∷◌, ◌++◌, map, length, arith, u32, if◌then◌else◌,
}
use zephyr_can_converter_uni.Candef.{IsClassic}
use zephyr_can_converter_uni.Platform.{CanFrame, Platform, can_tx_depth}
use zephyr_can_converter_uni.Frames.Delivery.{waiting}
use zephyr_can_converter_uni.Frames.Push.{frames_of, ids-frames_of}
use zephyr_can_converter_uni.Can.TxThread.Ahead.{send_all-IsAhead}
use zephyr_can_converter_uni.Rs485.{MasterData}
use zephyr_can_converter_uni.Frames.{Tx}
use zephyr_can_converter_uni.Frames.Messages.{FrameKind, Message, kind, counter, send_all, frame_id}
use zephyr_can_converter_uni.Periodic.Rates.{occurrences, counter-send_all}
use zephyr_can_converter_uni.Can.{ccu_can_test_send_all}

abbrev pub test_frames : MasterData → List Message
test_frames d =
    Message.send_mcu_analog_speed d.master_measurements
    ∷ Message.send_mcu_analog_pedals d.master_measurements
    ∷ Message.send_mcu_analog_powertrain d.master_measurements
    ∷ Message.send_mcu_analog_fuel_cell d.master_measurements
    ∷ Message.send_mcu_analog_accessory d.master_measurements
    ∷ Message.send_mcu_analog_unassigned d.master_measurements
    ∷ Message.send_mcu_inputs d.master_measurements
    ∷ Message.send_mcu_state d.master_status
    ∷ Message.send_mcu_faults d.master_faults
    ∷ (if d.protium_operating_state_valid
        then Message.send_protium_state d.protium_operating_state ∷ []
        else [])

-- How many frames of a kind one press of the button sends.
abbrev pub tested : Bool → FrameKind → ℕ
tested state_valid FrameKind.mcu_time_sync = 0
tested state_valid FrameKind.protium_state = if state_valid then 1 else 0
tested state_valid FrameKind.protium_power = 0
tested state_valid FrameKind.protium_thermal = 0
tested state_valid FrameKind.protium_hydrogen = 0
tested state_valid FrameKind.protium_setpoints = 0
tested state_valid FrameKind.protium_stasis = 0
tested state_valid FrameKind.protium_misc = 0
tested state_valid _ = 1

occurrences-test_frames :
    (k : FrameKind) (d : MasterData)
    → occurrences k (test_frames d) ≡ tested d.protium_operating_state_valid k
unfolding occurrences
occurrences-test_frames FrameKind.mcu_state d = ground arith
occurrences-test_frames k d = ground arith

module _ (pf : Platform) where
  open pf use {candef}

  pub ccu_can_test_send_all_lem :
      (d : MasterData) (tx : Tx pf) → ccu_can_test_send_all pf d tx ≡ send_all pf (test_frames d) tx
  unfolding ccu_can_test_send_all send_all
  ccu_can_test_send_all_lem d tx = ground arith

  -- The counters after a press of the test button, which count a frame also where it is lost.
  counter-ccu_can_test_send_all :
      (k : FrameKind) (d : MasterData) (tx : Tx pf)
      → u32 (counter k (ccu_can_test_send_all pf d tx).frame_counts)
        ≡ u32 (counter k tx.frame_counts + tested d.protium_operating_state_valid k)
  counter-ccu_can_test_send_all k d tx =
      rw (ccu_can_test_send_all_lem d tx, ← occurrences-test_frames k d)
        (counter-send_all pf k (test_frames d) tx)

  length-test_frames : (d : MasterData) → length (test_frames d) ≤ 10
  length-test_frames d = ground arith

  -- With room for ten frames in the queue and frames that fit a classical CAN bus, a press of the test
  -- button appends the frames of the messages that the test lists, each with the identifier of its
  -- message's kind. The list has one message of each MCU kind but the time synchronisation, also where
  -- the store holds no valid data, one of PROTIUM_STATE if the state is valid, and none for the other
  -- values of the fuel cell. The counter of each kind grows by the number of its messages, modulo 2^32.
  pub waiting-ccu_can_test_send_all :
      (d : MasterData) (tx : Tx pf)
      → IsClassic candef
      → length (waiting pf tx) + 10 ≤ can_tx_depth
      → (waiting pf (ccu_can_test_send_all pf d tx) ≡ waiting pf tx ++ frames_of pf (test_frames d))
        × (map (λ (f : CanFrame). f.id) (frames_of pf (test_frames d))
            ≡ map (λ m. frame_id pf (kind m)) (test_frames d))
        × ((k : FrameKind)
            → (occurrences k (test_frames d) ≡ tested d.protium_operating_state_valid k)
              × (u32 (counter k (ccu_can_test_send_all pf d tx).frame_counts)
                  ≡ u32 (counter k tx.frame_counts + tested d.protium_operating_state_valid k)))
  waiting-ccu_can_test_send_all d tx cl room = (
    ap (waiting pf) (ccu_can_test_send_all_lem d tx)
        ∙ (send_all-IsAhead pf (test_frames d) tx cl (omega (arith, length-test_frames d))).queued,
    ids-frames_of pf (test_frames d) cl,
    λ k. (occurrences-test_frames k d, counter-ccu_can_test_send_all k d tx),
  )
