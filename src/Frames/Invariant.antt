-- ===== src/Frames/Invariant.antt =====
-- The invariant of the transmit queue can_tx_msgq under enqueue_frame and the senders.
use zephyr_can_converter_uni.Prelude.{
  ℕ, ◌≤◌, ◌≡◌, refl, inl, inr, List, [], ◌∷◌, arith, length, take, drop, replicate, length-append,
  length-take, length-drop, All, All-append, lt_or_le, u8,
}
use zephyr_can_converter_uni.Candef.{Codec}
use zephyr_can_converter_uni.Platform.{CanFrame, Platform, can_tx_depth}
use zephyr_can_converter_uni.Frames.{Tx, max_data, memcpy, enqueue_frame, pack_and_enqueue}
use zephyr_can_converter_uni.Frames.Mcu
use zephyr_can_converter_uni.Frames.Protium
use zephyr_can_converter_uni.Frames.Delivery.{
  waiting, waiting-enqueue_frame, waiting-enqueue_frame_full, enqueue_frame-too_long,
}
use zephyr_can_converter_uni.Frames.Messages.{Message, send, send_all}

-- A copy of `len` bytes into eight zeros is eight bytes.
length-memcpy :
    (len : ℕ) (src : List ℕ)
    → len ≤ length src
    → len ≤ max_data
    → length (memcpy (replicate max_data 0) src len) ≡ max_data
unfolding memcpy
length-memcpy len src long fits = omega (
  arith,
  length-append {0} (take len src) (drop len (replicate max_data 0)),
  length-take {0} len src,
  length-drop {0} {A = ℕ} len (replicate max_data 0),
)

module _ (pf : Platform) where
  open pf use {can_tx, can_frame_ide}

  pub record IsSendable (f : CanFrame) : Type 0 where
    pub fits : f.dlc ≤ max_data
    pub padded : length f.bytes ≡ max_data
    pub extended : f.flags ≡ can_frame_ide

  pub record IsQueue (tx : Tx pf) : Type 0 where
    pub bounded : length (waiting pf tx) ≤ can_tx_depth
    pub sendable : All IsSendable (waiting pf tx)

  -- `enqueue_frame` keeps the invariant if the buffer holds the `len` bytes that are copied.
  pub enqueue_frame-IsQueue :
      (id : ℕ) (bytes : List ℕ) (len : ℕ) (tx : Tx pf)
      → len ≤ length bytes
      → IsQueue tx
      → IsQueue (enqueue_frame pf id bytes len tx)
  enqueue_frame-IsQueue id bytes len tx long q = elim (lt_or_le max_data len) [
    | inl over ↦ rw (enqueue_frame-too_long pf id bytes len tx over) q
    | inr fits ↦ elim (lt_or_le (length (waiting pf tx)) can_tx_depth) [
      | inl room ↦ record {
        bounded =
            rw (waiting-enqueue_frame pf id bytes len tx fits room)
              (omega (arith, length-append {0} (waiting pf tx) (_ ∷ [])));
        sendable = rw (waiting-enqueue_frame pf id bytes len tx fits room) (
            All-append _ (waiting pf tx) _ q.sendable (
              record { fits = fits; padded = length-memcpy len bytes long fits; extended = refl },
              tt,
            ));
      }
      | inr full ↦ record {
        bounded = rw (waiting-enqueue_frame_full pf id bytes len tx full) q.bounded;
        sendable = rw (waiting-enqueue_frame_full pf id bytes len tx full) q.sendable;
      }
    ]
  ]

  pack_and_enqueue-IsQueue :
      {S : Type 0} (c : Codec S) (s : S) (tx : Tx pf)
      → IsQueue tx
      → IsQueue (pack_and_enqueue pf c s tx)
  unfolding pack_and_enqueue
  pack_and_enqueue-IsQueue c s tx q =
      enqueue_frame-IsQueue c.frame_id (c.pack s) (u8 c.len) tx (omega (arith, c.length-pack s)) q

  -- Every sender keeps the invariant of the queue, also when the queue is full or the frame too long.
  pub send-IsQueue : (m : Message) (tx : Tx pf) → IsQueue tx → IsQueue (send pf m tx)
  unfolding send Mcu.send_mcu_time_sync Mcu.send_mcu_state Mcu.send_mcu_inputs Mcu.send_mcu_faults
      Mcu.send_mcu_analog_speed Mcu.send_mcu_analog_pedals Mcu.send_mcu_analog_powertrain
      Mcu.send_mcu_analog_fuel_cell Mcu.send_mcu_analog_accessory Mcu.send_mcu_analog_unassigned
      Protium.send_protium_state Protium.send_protium_power Protium.send_protium_thermal
      Protium.send_protium_hydrogen Protium.send_protium_setpoints Protium.send_protium_stasis
      Protium.send_protium_misc
  send-IsQueue (Message.send_mcu_time_sync a b) tx q =
      let kept = pack_and_enqueue-IsQueue _ _ tx q in
      record { bounded = kept.bounded; sendable = kept.sendable }
  send-IsQueue m tx q =
      let kept = pack_and_enqueue-IsQueue _ _ tx q in
      record { bounded = kept.bounded; sendable = kept.sendable }

  pub send_all-IsQueue : (ms : List Message) (tx : Tx pf) → IsQueue tx → IsQueue (send_all pf ms tx)
  unfolding send_all
  send_all-IsQueue [] tx q = q
  send_all-IsQueue (m ∷ ms) tx q = send_all-IsQueue ms (send pf m tx) (send-IsQueue m tx q)
