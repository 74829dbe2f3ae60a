-- ===== src/Frames/Push.antt =====
-- The queue of the CAN frames as a bounded list that refuses what finds it full.
use zephyr_can_converter_uni.Prelude.{
  ◌≡◌, refl, ap, ap₂, ◌∙◌, map, inl, inr, List, [], ◌∷◌, ◌++◌, arith, length, ltb, if◌then◌else◌,
  lt→ltb, le→ltb_false, lt_or_le,
}
use zephyr_can_converter_uni.Candef.{IsClassic}
use zephyr_can_converter_uni.Platform.{CanFrame, Platform, can_tx_depth}
use zephyr_can_converter_uni.Frames.{Tx, frame_counts_zero}
use zephyr_can_converter_uni.Frames.Delivery.{waiting}
use zephyr_can_converter_uni.Frames.Messages.{Message, kind, send, send_all, frame_id}
use zephyr_can_converter_uni.Frames.Sent.{IsFrameOf, send-IsFrameOf}
use zephyr_can_converter_uni.Frames.Lost.{send-full_counted}

abbrev pub push : List CanFrame → CanFrame → List CanFrame
push q f = if ltb (length q) can_tx_depth then q ++ f ∷ [] else q

abbrev pub push_all : List CanFrame → List CanFrame → List CanFrame
push_all [] q = q
push_all (f ∷ fs) q = push_all fs (push q f)

abbrev first : List CanFrame → CanFrame
first [] = record { id = 0; dlc = 0; flags = 0; bytes = [] }
first (f ∷ fs) = f

module _ (pf : Platform) where
  open pf use {candef, can_tx}

  -- The frame that a message becomes, as its sender puts it into an empty queue.
  unfoldable pub frame_of : Message → CanFrame
  frame_of m =
      first
        (waiting pf (send pf m (record { queue = can_tx.empty; frame_counts = frame_counts_zero })))

  abbrev pub frames_of : List Message → List CanFrame
  frames_of [] = []
  frames_of (m ∷ ms) = frame_of m ∷ frames_of ms

  frame_of-IsFrameOf : (m : Message) (f : CanFrame) → IsFrameOf pf m f → frame_of m ≡ f
  unfolding frame_of
  frame_of-IsFrameOf m f h =
      let none_waits : waiting pf
            (record { queue = can_tx.empty; frame_counts = frame_counts_zero })
          ≡ [] =
        can_tx.contents-empty in
      ap first (h _ (rw none_waits (omega arith)) ∙ ap (λ q. q ++ f ∷ []) none_waits)

  -- It has the identifier of the message's kind.
  frame_of-id : (m : Message) → IsClassic candef → (frame_of m).id ≡ frame_id pf (kind m)
  frame_of-id m cl =
      let (f, sent, id, len) = send-IsFrameOf pf m cl in
      ap (λ (fr : CanFrame). fr.id) (frame_of-IsFrameOf m f sent) ∙ id

  pub ids-frames_of :
      (ms : List Message)
      → IsClassic candef
      → map (λ (f : CanFrame). f.id) (frames_of ms) ≡ map (λ m. frame_id pf (kind m)) ms
  ids-frames_of [] cl = refl
  ids-frames_of (m ∷ ms) cl = ap₂ (λ a rest. a ∷ rest) (frame_of-id m cl) (ids-frames_of ms cl)

  -- A sender pushes the frame of its message.
  pub waiting-send :
      (m : Message) (tx : Tx pf)
      → IsClassic candef
      → waiting pf (send pf m tx) ≡ push (waiting pf tx) (frame_of m)
  waiting-send m tx cl =
      let (f, sent, id, len) = send-IsFrameOf pf m cl in
      elim (lt_or_le (length (waiting pf tx)) can_tx_depth) [
        | inl room ↦ rw (lt→ltb _ _ room, frame_of-IsFrameOf m f sent) (sent tx room)
        | inr full ↦ rw (le→ltb_false _ _ full) (send-full_counted pf m tx full).0
      ]

  pub waiting-send_all :
      (ms : List Message) (tx : Tx pf)
      → IsClassic candef
      → waiting pf (send_all pf ms tx) ≡ push_all (frames_of ms) (waiting pf tx)
  unfolding send_all
  waiting-send_all [] tx cl = refl
  waiting-send_all (m ∷ ms) tx cl =
      waiting-send_all ms (send pf m tx) cl ∙ ap (push_all (frames_of ms)) (waiting-send m tx cl)
