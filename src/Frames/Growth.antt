-- ===== src/Frames/Growth.antt =====
-- How the senders of src/can_converter_frames.c change the queue, on every branch of enqueue_frame.
use zephyr_can_converter_uni.Prelude.{
  ℕ, ◌+◌, ◌≤◌, ◌<◌, ◌≡◌, sym, ap, ◌∙◌, inl, inr, List, [], ◌∷◌, ◌++◌, append-nil, append_assoc,
  arith, length, length-append, take, lt_or_le, u8,
}
use zephyr_can_converter_uni.Proto.{MasterFaults}
use zephyr_can_converter_uni.Candef.{Codec, McuFaults}
use zephyr_can_converter_uni.Platform.{CanFrame, Platform, can_tx_depth}
use zephyr_can_converter_uni.Frames.{Tx, max_data, enqueue_frame, pack_and_enqueue}
use zephyr_can_converter_uni.Frames.Mcu
use zephyr_can_converter_uni.Frames.Protium
use zephyr_can_converter_uni.Frames.Messages.{Message, send, send_all}
use zephyr_can_converter_uni.Frames.Receive.{IsFlags, Shows, send_mcu_faults-Shows}
use zephyr_can_converter_uni.Frames.Delivery.{
  waiting, waiting-enqueue_frame, waiting-enqueue_frame_full, enqueue_frame-too_long,
}

module _ (pf : Platform) where
  open pf use {candef}

  -- What waited is still first in the queue, and at most `n` frames came behind it.
  abbrev pub Grows : ℕ → Tx pf → Tx pf → Type 0
  Grows n tx tx' =
      (added : List CanFrame) × (waiting pf tx' ≡ waiting pf tx ++ added) × (length added ≤ n)

  enqueue_frame-Grows :
      (id : ℕ) (bytes : List ℕ) (len : ℕ) (tx : Tx pf)
      → Grows 1 tx (enqueue_frame pf id bytes len tx)
  enqueue_frame-Grows id bytes len tx = elim (lt_or_le max_data len) [
    | inl over ↦ (
      [],
      rw (enqueue_frame-too_long pf id bytes len tx over) (sym (append-nil (waiting pf tx))),
      omega arith,
    )
    | inr fits ↦ elim (lt_or_le (length (waiting pf tx)) can_tx_depth) [
      | inl room ↦ (_ ∷ [], waiting-enqueue_frame pf id bytes len tx fits room, omega arith)
      | inr full ↦ (
        [],
        waiting-enqueue_frame_full pf id bytes len tx full ∙ sym (append-nil (waiting pf tx)),
        omega arith,
      )
    ]
  ]

  pack_and_enqueue-Grows :
      {S : Type 0} (c : Codec S) (s : S) (tx : Tx pf) → Grows 1 tx (pack_and_enqueue pf c s tx)
  unfolding pack_and_enqueue
  pack_and_enqueue-Grows c s tx = enqueue_frame-Grows c.frame_id (c.pack s) (u8 c.len) tx

  pub send-Grows : (m : Message) (tx : Tx pf) → Grows 1 tx (send pf m tx)
  unfolding send Mcu.send_mcu_time_sync Mcu.send_mcu_state Mcu.send_mcu_inputs Mcu.send_mcu_faults
      Mcu.send_mcu_analog_speed Mcu.send_mcu_analog_pedals Mcu.send_mcu_analog_powertrain
      Mcu.send_mcu_analog_fuel_cell Mcu.send_mcu_analog_accessory Mcu.send_mcu_analog_unassigned
      Protium.send_protium_state Protium.send_protium_power Protium.send_protium_thermal
      Protium.send_protium_hydrogen Protium.send_protium_setpoints Protium.send_protium_stasis
      Protium.send_protium_misc
  send-Grows (Message.send_mcu_time_sync a b) tx = pack_and_enqueue-Grows _ _ tx
  send-Grows m tx = pack_and_enqueue-Grows _ _ tx

  pub send_all-Grows : (ms : List Message) (tx : Tx pf) → Grows (length ms) tx (send_all pf ms tx)
  unfolding send_all
  send_all-Grows [] tx = ([], sym (append-nil (waiting pf tx)), omega arith)
  send_all-Grows (m ∷ ms) tx =
      let (first, one, few) = send-Grows m tx in
      let (later, rest, many) = send_all-Grows ms (send pf m tx) in
      (
        first ++ later,
        rest ∙ (ap (λ w. w ++ later) one ∙ append_assoc (waiting pf tx) first later),
        omega (arith, length-append {0} first later),
      )

  -- Among any messages, with room for those before it, the frame of the faults arrives.
  pub send_all-Shows :
      (unpack : List ℕ → McuFaults) (f : MasterFaults) (pre post : List Message) (tx : Tx pf)
      → ((s : McuFaults) → IsFlags s → unpack (candef.mcu_faults.pack s) ≡ s)
      → candef.mcu_faults.len ≤ max_data
      → length (waiting pf tx) + length pre < can_tx_depth
      → (before after : List CanFrame) × (fr : CanFrame) × (waiting pf
            (send_all pf (pre ++ Message.send_mcu_faults f ∷ post) tx)
          ≡ before ++ fr ∷ after)
        × (fr.id ≡ candef.mcu_faults.frame_id)
        × Shows (unpack (take fr.dlc fr.bytes)) f
  unfolding send_all send
  send_all-Shows unpack f [] post tx round fits room =
      let (fr, sent, id, shows) = send_mcu_faults-Shows pf unpack f tx round fits (omega arith) in
      let (later, rest, many) = send_all-Grows post (Mcu.send_mcu_faults pf f tx) in
      (
        waiting pf tx,
        later,
        fr,
        rest ∙ (ap (λ w. w ++ later) sent ∙ append_assoc (waiting pf tx) (fr ∷ []) later),
        id,
        shows,
      )
  send_all-Shows unpack f (m ∷ pre) post tx round fits room =
      let (first, one, few) = send-Grows m tx in
      let counted : length (waiting pf (send pf m tx)) ≡ length (waiting pf tx ++ first) =
        ap length one in
      send_all-Shows unpack f pre post (send pf m tx) round fits
        (omega (arith, counted, length-append {0} (waiting pf tx) first))
