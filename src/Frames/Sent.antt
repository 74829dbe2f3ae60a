-- ===== src/Frames/Sent.antt =====
-- The frame that a message becomes, which does not depend on the queue it is put into.
use zephyr_can_converter_uni.Prelude.{◌≤◌, ◌<◌, ◌≡◌, refl, [], ◌∷◌, ◌++◌, length}
use zephyr_can_converter_uni.Candef.{Codec, IsClassic}
use zephyr_can_converter_uni.Platform.{CanFrame, Platform, can_tx_depth}
use zephyr_can_converter_uni.Frames.{Tx, max_data, pack_and_enqueue}
use zephyr_can_converter_uni.Frames.Mcu
use zephyr_can_converter_uni.Frames.Protium
use zephyr_can_converter_uni.Frames.Delivery.{waiting, packed_frame, waiting-pack_and_enqueue}
use zephyr_can_converter_uni.Frames.Messages.{Message, kind, send, frame_id, frame_len}
use zephyr_can_converter_uni.Frames.Receive.{frame_len-le}

module _ (pf : Platform) where
  open pf use {candef}

  -- The frame that the sender of the message appends to every queue with room.
  abbrev pub IsFrameOf : Message → CanFrame → Type 0
  IsFrameOf m fr =
      (tx : Tx pf)
      → length (waiting pf tx) < can_tx_depth
      → waiting pf (send pf m tx) ≡ waiting pf tx ++ fr ∷ []

  pack_and_enqueue-frame :
      {S : Type 0} (c : Codec S) (s : S)
      → c.len ≤ max_data
      → (fr : CanFrame) × ((tx : Tx pf)
          → length (waiting pf tx) < can_tx_depth
          → waiting pf (pack_and_enqueue pf c s tx) ≡ waiting pf tx ++ fr ∷ [])
        × (fr.id ≡ c.frame_id)
        × (fr.dlc ≡ c.len)
  pack_and_enqueue-frame c s fits =
      (packed_frame pf c s, (λ tx room. waiting-pack_and_enqueue pf c s tx fits room), refl, refl)

  -- There is such a frame, with the identifier and the length of the message's kind.
  pub send-IsFrameOf :
      (m : Message)
      → IsClassic candef
      → (fr : CanFrame) × IsFrameOf m fr
        × (fr.id ≡ frame_id pf (kind m))
        × (fr.dlc ≡ frame_len pf (kind m))
  unfolding send Mcu.send_mcu_time_sync Mcu.send_mcu_state Mcu.send_mcu_inputs Mcu.send_mcu_faults
      Mcu.send_mcu_analog_speed Mcu.send_mcu_analog_pedals Mcu.send_mcu_analog_powertrain
      Mcu.send_mcu_analog_fuel_cell Mcu.send_mcu_analog_accessory Mcu.send_mcu_analog_unassigned
      Protium.send_protium_state Protium.send_protium_power Protium.send_protium_thermal
      Protium.send_protium_hydrogen Protium.send_protium_setpoints Protium.send_protium_stasis
      Protium.send_protium_misc
  send-IsFrameOf (Message.send_mcu_time_sync a b) cl =
      pack_and_enqueue-frame candef.mcu_time_sync _ cl.mcu_time_sync_fits
  send-IsFrameOf m cl = pack_and_enqueue-frame _ _ (frame_len-le pf cl (kind m))
