-- ===== src/Frames/Counts.antt =====
-- How the senders of src/can_converter_frames.c move the counters.
use mathlib.Core.Logic.{ite, if_pos, if_neg}
use zephyr_can_converter_uni.Prelude.{◌+◌, ◌≡◌, ◌≢◌, refl, ap, arith, u32}
use zephyr_can_converter_uni.Platform.{Platform}
use zephyr_can_converter_uni.Frames.{FrameCounts, Tx}
use zephyr_can_converter_uni.Frames.Mcu
use zephyr_can_converter_uni.Frames.Protium
use zephyr_can_converter_uni.Frames.Delivery.{frame_counts-pack_and_enqueue}
use zephyr_can_converter_uni.Frames.Messages.{FrameKind, Message, kind, counter, increment, send}

unfoldable pub FrameKind-discrete : Discrete FrameKind
FrameKind-discrete = hlevel

counter-increment_self :
    (k : FrameKind) (c : FrameCounts) → counter k (increment k c) ≡ u32 (counter k c + 1)
counter-increment_self FrameKind.mcu_state c = refl
counter-increment_self _ c = refl

counter-increment_ne :
    (j k : FrameKind) (c : FrameCounts) → k ≢ j → counter k (increment j c) ≡ counter k c
counter-increment_ne j k c h = ground arith

module _ (pf : Platform) where
  -- A sender counts its frame whether or not the queue took it.
  pub frame_counts-send :
      (m : Message) (tx : Tx pf) → (send pf m tx).frame_counts ≡ increment (kind m) tx.frame_counts
  unfolding send Mcu.send_mcu_time_sync Mcu.send_mcu_state Mcu.send_mcu_inputs Mcu.send_mcu_faults
      Mcu.send_mcu_analog_speed Mcu.send_mcu_analog_pedals Mcu.send_mcu_analog_powertrain
      Mcu.send_mcu_analog_fuel_cell Mcu.send_mcu_analog_accessory Mcu.send_mcu_analog_unassigned
      Protium.send_protium_state Protium.send_protium_power Protium.send_protium_thermal
      Protium.send_protium_hydrogen Protium.send_protium_setpoints Protium.send_protium_stasis
      Protium.send_protium_misc
  frame_counts-send (Message.send_mcu_time_sync a b) tx =
      ap (increment FrameKind.mcu_time_sync) (frame_counts-pack_and_enqueue pf _ _ tx)
  frame_counts-send m tx = ap (increment (kind m)) (frame_counts-pack_and_enqueue pf _ _ tx)

  -- A sender adds one to the counter of its kind, modulo 2^32, and changes no other counter.
  pub counter-send :
      (k : FrameKind) (m : Message) (tx : Tx pf)
      → counter k (send pf m tx).frame_counts
        ≡ ite
            (FrameKind-discrete k (kind m))
            (u32 (counter k tx.frame_counts + 1))
            (counter k tx.frame_counts)
  counter-send k m tx = rw (frame_counts-send m tx) (elim (FrameKind-discrete k (kind m)) [
    | yes p ↦ rw (if_pos _ p, ← p) (counter-increment_self k tx.frame_counts)
    | no p ↦ rw (if_neg _ p) (counter-increment_ne (kind m) k tx.frame_counts p)
  ])
