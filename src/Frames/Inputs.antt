-- ===== src/Frames/Inputs.antt =====
-- What a receiver on the bus finds in a frame of the digital inputs.
use zephyr_can_converter_uni.Prelude.{
  ℕ, ◌+◌, ◌*◌, ◌%◌, ◌≤◌, ◌<◌, ◌≡◌, refl, List, [], ◌∷◌, ◌++◌, arith, length, take, ◌∙◌, ap,
}
use zephyr_can_converter_uni.Proto.{DigitalInputs, MasterMeasurements}
use zephyr_can_converter_uni.Proto.Helpers.{
  digital_inputs_from_raw, raw_of_inputs, raw_of_inputs-digital_inputs_from_raw,
}
use zephyr_can_converter_uni.Candef.{McuInputs}
use zephyr_can_converter_uni.Platform.{CanFrame, Platform, can_tx_depth}
use zephyr_can_converter_uni.Frames.{Tx, max_data, bit}
use zephyr_can_converter_uni.Frames.Mcu
use zephyr_can_converter_uni.Frames.Delivery.{waiting, packed_frame, waiting-pack_and_enqueue}
use zephyr_can_converter_uni.Frames.Receive.{take-packed, bit-lt}

-- Each raw number of the frame is 0 or 1.
pub record IsSwitches (r : McuInputs) : Type 0 where
  pub emergency_switch : r.emergency_switch < 2
  pub dead_mans_switch : r.dead_mans_switch < 2
  pub leakage_detected : r.leakage_detected < 2
  pub shell_relay : r.shell_relay < 2
  pub start_button : r.start_button < 2
  pub reset_button : r.reset_button < 2
  pub calibration_button : r.calibration_button < 2
  pub gas_pedal : r.gas_pedal < 2

-- The frame shows the inputs of the master board.
pub record ShowsInputs (r : McuInputs) (d : DigitalInputs) : Type 0 where
  pub emergency_switch : r.emergency_switch ≡ bit d.emergency_switch
  pub dead_mans_switch : r.dead_mans_switch ≡ bit d.dead_mans_switch
  pub leakage_detected : r.leakage_detected ≡ bit d.leakage_detected
  pub shell_relay : r.shell_relay ≡ bit d.shell_relay
  pub start_button : r.start_button ≡ bit d.start_button
  pub reset_button : r.reset_button ≡ bit d.reset_button
  pub calibration_button : r.calibration_button ≡ bit d.calibration_button
  pub gas_pedal : r.gas_pedal ≡ bit d.gas_pedal

-- The register of the master board by its table of pins, out of the raw numbers of a frame.
abbrev pub register : McuInputs → ℕ
register r =
    r.gas_pedal * 1
    + r.start_button * 2
    + r.dead_mans_switch * 4
    + r.emergency_switch * 8
    + r.reset_button * 16
    + r.calibration_button * 32
    + r.leakage_detected * 64
    + r.shell_relay * 128

register-ShowsInputs :
    (r : McuInputs) (d : DigitalInputs) → ShowsInputs r d → register r ≡ raw_of_inputs d
register-ShowsInputs r d s = ground arith

module _ (pf : Platform) where
  open pf use {candef}

  -- With room in the queue one frame is appended, with the identifier of MCU_INPUTS, and a receiver
  -- that unpacks its data bytes with the inverse of the packing function finds the master's inputs.
  pub send_mcu_inputs-ShowsInputs :
      (unpack : List ℕ → McuInputs) (m : MasterMeasurements) (tx : Tx pf)
      → ((s : McuInputs) → IsSwitches s → unpack (candef.mcu_inputs.pack s) ≡ s)
      → candef.mcu_inputs.len ≤ max_data
      → length (waiting pf tx) < can_tx_depth
      → (fr : CanFrame) × (waiting pf (Mcu.send_mcu_inputs pf m tx) ≡ waiting pf tx ++ fr ∷ [])
        × (fr.id ≡ candef.mcu_inputs.frame_id)
        × ShowsInputs (unpack (take fr.dlc fr.bytes)) m.din
  unfolding Mcu.send_mcu_inputs
  send_mcu_inputs-ShowsInputs unpack m tx round fits room = (
    packed_frame pf candef.mcu_inputs shown,
    waiting-pack_and_enqueue pf candef.mcu_inputs shown tx fits room,
    refl,
    rw (take-packed candef.mcu_inputs shown _, round shown flags) same,
  )
    where
      shown : McuInputs
      shown = record {
        emergency_switch = bit m.din.emergency_switch;
        dead_mans_switch = bit m.din.dead_mans_switch;
        leakage_detected = bit m.din.leakage_detected;
        shell_relay = bit m.din.shell_relay;
        start_button = bit m.din.start_button;
        reset_button = bit m.din.reset_button;
        calibration_button = bit m.din.calibration_button;
        gas_pedal = bit m.din.gas_pedal;
      }

      flags : IsSwitches shown
      flags = record {
        emergency_switch = bit-lt m.din.emergency_switch;
        dead_mans_switch = bit-lt m.din.dead_mans_switch;
        leakage_detected = bit-lt m.din.leakage_detected;
        shell_relay = bit-lt m.din.shell_relay;
        start_button = bit-lt m.din.start_button;
        reset_button = bit-lt m.din.reset_button;
        calibration_button = bit-lt m.din.calibration_button;
        gas_pedal = bit-lt m.din.gas_pedal;
      }

      same : ShowsInputs shown m.din
      same = record {
        emergency_switch = refl;
        dead_mans_switch = refl;
        leakage_detected = refl;
        shell_relay = refl;
        start_button = refl;
        reset_button = refl;
        calibration_button = refl;
        gas_pedal = refl;
      }

  -- The way of the register: if the master reads its inputs with `digital_inputs_from_raw`, then with
  -- room in the queue a receiver that unpacks the appended frame finds the low byte of the register.
  pub register-send_mcu_inputs :
      (unpack : List ℕ → McuInputs) (raw : ℕ) (m : MasterMeasurements) (tx : Tx pf)
      → m.din ≡ digital_inputs_from_raw raw
      → ((s : McuInputs) → IsSwitches s → unpack (candef.mcu_inputs.pack s) ≡ s)
      → candef.mcu_inputs.len ≤ max_data
      → length (waiting pf tx) < can_tx_depth
      → (fr : CanFrame) × (waiting pf (Mcu.send_mcu_inputs pf m tx) ≡ waiting pf tx ++ fr ∷ [])
        × (register (unpack (take fr.dlc fr.bytes)) ≡ raw % 256)
  register-send_mcu_inputs unpack raw m tx read round fits room =
      let (fr, queued, id, shows) = send_mcu_inputs-ShowsInputs unpack m tx round fits room in
      (
        fr,
        queued,
        register-ShowsInputs (unpack (take fr.dlc fr.bytes)) m.din shows
            ∙ (ap raw_of_inputs read ∙ raw_of_inputs-digital_inputs_from_raw raw),
      )
