-- ===== src/Frames/Lost.antt =====
-- What the bus does not get to see of the frames of src/can_converter_frames.c.
use zephyr_can_converter_uni.Prelude.{◌+◌, ◌≤◌, ◌≡◌, refl, Bool, length, u32}
use mathlib.Core.Logic.{if_pos}
use zephyr_can_converter_uni.Proto.{MasterFaults}
use zephyr_can_converter_uni.Platform.{Platform, can_tx_depth}
use zephyr_can_converter_uni.Frames.{Tx}
use zephyr_can_converter_uni.Frames.Mcu
use zephyr_can_converter_uni.Frames.Protium
use zephyr_can_converter_uni.Frames.Delivery.{waiting, waiting-pack_and_enqueue_full}
use zephyr_can_converter_uni.Frames.Messages.{Message, kind, counter, send}
use zephyr_can_converter_uni.Frames.Counts.{FrameKind-discrete, counter-send}

module _ (pf : Platform) where
  waiting-send_full :
      (m : Message) (tx : Tx pf)
      → can_tx_depth ≤ length (waiting pf tx)
      → waiting pf (send pf m tx) ≡ waiting pf tx
  unfolding send Mcu.send_mcu_time_sync Mcu.send_mcu_state Mcu.send_mcu_inputs Mcu.send_mcu_faults
      Mcu.send_mcu_analog_speed Mcu.send_mcu_analog_pedals Mcu.send_mcu_analog_powertrain
      Mcu.send_mcu_analog_fuel_cell Mcu.send_mcu_analog_accessory Mcu.send_mcu_analog_unassigned
      Protium.send_protium_state Protium.send_protium_power Protium.send_protium_thermal
      Protium.send_protium_hydrogen Protium.send_protium_setpoints Protium.send_protium_stasis
      Protium.send_protium_misc
  waiting-send_full (Message.send_mcu_time_sync a b) tx full =
      waiting-pack_and_enqueue_full pf _ _ tx full
  waiting-send_full m tx full = waiting-pack_and_enqueue_full pf _ _ tx full

  -- A frame that finds the queue full is lost, and its counter counts it as enqueued all the same.
  pub send-full_counted :
      (m : Message) (tx : Tx pf)
      → can_tx_depth ≤ length (waiting pf tx)
      → (waiting pf (send pf m tx) ≡ waiting pf tx)
        × (counter (kind m) (send pf m tx).frame_counts
            ≡ u32 (counter (kind m) tx.frame_counts + 1))
  send-full_counted m tx full = (
    waiting-send_full m tx full,
    rw (counter-send pf (kind m) m tx) (if_pos (FrameKind-discrete (kind m) (kind m)) refl _ _),
  )

  -- Faults that differ only in the hydrogen leakage voltage, the two pedal voltages, the hydrogen
  -- pressure and the speed lead to the same frame: MCU_FAULTS tells a receiver nothing of these five.
  pub send_mcu_faults-hidden :
      (f : MasterFaults) (leakage accel brake pressure speed : Bool) (tx : Tx pf)
      → Mcu.send_mcu_faults pf
          (record f {
            emg_hydrogen_leakage_voltage = leakage;
            err_accel_pedal_voltage = accel;
            err_brake_pedal_voltage = brake;
            err_hydrogen_high_pressure = pressure;
            err_speed = speed;
          })
          tx
        ≡ Mcu.send_mcu_faults pf f tx
  unfolding Mcu.send_mcu_faults
  send_mcu_faults-hidden f leakage accel brake pressure speed tx = refl
