-- ===== src/Periodic/Arrival.antt =====
-- What a tick of the periodic thread leaves in the queue for a kind that is due.
use zephyr_can_converter_uni.Prelude.{
  ℕ, some, suc, ◌+◌, ◌≤◌, ◌<◌, ◌≡◌, refl, sym, ap, ◌∙◌, true, false, List, [], ◌∷◌, ◌++◌,
  append_assoc, arith, length, length-append, All,
}
use zephyr_can_converter_uni.Candef.{IsClassic}
use zephyr_can_converter_uni.Platform.{CanFrame, Platform, can_tx_depth}
use zephyr_can_converter_uni.Rs485.{MasterData}
use zephyr_can_converter_uni.Frames.{Tx}
use zephyr_can_converter_uni.Frames.Messages.{
  FrameKind, Message, kind, send, send_all, frame_id, frame_len,
}
use zephyr_can_converter_uni.Frames.Counts.{FrameKind-discrete}
use zephyr_can_converter_uni.Frames.Delivery.{waiting}
use zephyr_can_converter_uni.Frames.Sent.{IsFrameOf, send-IsFrameOf}
use zephyr_can_converter_uni.Frames.Growth.{send-Grows, send_all-Grows}
use zephyr_can_converter_uni.Periodic.{Locals, Input, tick}
use zephyr_can_converter_uni.Periodic.Phase.{InPhase, tick-due, due}
use zephyr_can_converter_uni.Periodic.Rates.{occurrences, occurrences-cons_ne}
use zephyr_can_converter_uni.Periodic.Sources.{
  message_of, is_round, IsDue, due-IsDue, occurrences-due,
}

-- A kind that occurs stands somewhere.
occurrences-split :
    (P : Message → Type 0) (k : FrameKind) (ms : List Message)
    → All P ms
    → 0 < occurrences k ms
    → (pre post : List Message) × (m : Message) × (ms ≡ pre ++ m ∷ post) × (kind m ≡ k) × P m
unfolding occurrences
occurrences-split P k [] ps h = absurd (omega arith)
occurrences-split P k (m ∷ ms) ps h = elim (FrameKind-discrete k (kind m)) [
  | yes same ↦ ([], ms, m, refl, sym same, ps.0)
  | no other ↦
      let later : 0 < occurrences k ms = omega (arith, occurrences-cons_ne k m ms other) in
      let (pre, post, m', split, same, p) = occurrences-split P k ms ps.1 later in
      (m ∷ pre, post, m', ap (λ l. m ∷ l) split, same, p)
]

pub length-due : (a b : ℕ) (d : MasterData) → length (due a b d) ≤ 16
length-due a b d = ground arith

module _ (pf : Platform) where
  open pf use {candef}

  -- Among any messages, with room for those before it, the frame of a message arrives.
  send_all-Arrives :
      (pre post : List Message) (m : Message) (tx : Tx pf)
      → IsClassic candef
      → length (waiting pf tx) + length pre < can_tx_depth
      → (before after : List CanFrame) × (fr : CanFrame) × (waiting pf
            (send_all pf (pre ++ m ∷ post) tx)
          ≡ before ++ fr ∷ after)
        × IsFrameOf pf m fr
        × (fr.id ≡ frame_id pf (kind m))
        × (fr.dlc ≡ frame_len pf (kind m))
  unfolding send_all
  send_all-Arrives [] post m tx cl room =
      let (fr, sent, id, len) = send-IsFrameOf pf m cl in
      let (later, rest, many) = send_all-Grows pf post (send pf m tx) in
      (
        waiting pf tx,
        later,
        fr,
        rest
            ∙ (ap (λ w. w ++ later) (sent tx (omega arith))
                ∙ append_assoc (waiting pf tx) (fr ∷ []) later),
        sent,
        id,
        len,
      )
  send_all-Arrives (x ∷ pre) post m tx cl room =
      let (first, one, few) = send-Grows pf x tx in
      let counted : length (waiting pf (send pf x tx)) ≡ length (waiting pf tx ++ first) =
        ap length one in
      send_all-Arrives pre post m (send pf x tx) cl
        (omega (arith, counted, length-append {0} (waiting pf tx) first))

  -- What is due for a kind whose message the store leads to.
  due-split :
      (k : FrameKind) (m : Message) (a b : ℕ) (d : MasterData)
      → is_round k a b ≡ true
      → message_of k d ≡ some m
      → (pre post : List Message) × (due a b d ≡ pre ++ m ∷ post) × (kind m ≡ k) × (length pre < 16)
  due-split k m a b d round backed =
      let here : 0 < occurrences k (due a b d) =
        rw (occurrences-due k a b d, round, backed) (omega arith) in
      let (pre, post, m', split, same, from) =
        occurrences-split (IsDue a b d) k (due a b d) (due-IsDue a b d) here in
      let own : message_of k d ≡ some m' = rw same at from.0 in
      let equal : m' ≡ m = ground (arith, own, backed) in
      let counted : length (due a b d) ≡ length (pre ++ m' ∷ post) = ap length split in
      (
        pre,
        post,
        rw (← equal) split,
        rw (← equal) same,
        omega (arith, counted, length-due a b d, length-append {0} pre (m' ∷ post)),
      )

  -- A tick outside of an update, with room for sixteen frames in the queue, leaves there the frame of
  -- the message that the store leads to, for each kind whose rate comes round.
  pub tick-Arrives :
      (k : FrameKind) (m : Message) (inp : Input) (a b : ℕ) (l : Locals) (tx : Tx pf)
      → inp.dfu_active ≡ false
      → InPhase a b l
      → is_round k (suc a) (suc b) ≡ true
      → message_of k inp.master_data ≡ some m
      → IsClassic candef
      → length (waiting pf tx) + 16 ≤ can_tx_depth
      → (before after : List CanFrame) × (fr : CanFrame) × (waiting pf (tick pf inp l tx).1
          ≡ before ++ fr ∷ after)
        × IsFrameOf pf m fr
        × (fr.id ≡ frame_id pf k)
        × (fr.dlc ≡ frame_len pf k)
  tick-Arrives k m inp a b l tx normal p round backed cl room =
      let d = inp.master_data in
      let (pre, post, split, same, short) = due-split k m (suc a) (suc b) d round backed in
      let (before, after, fr, queued, sent, id, len) =
        send_all-Arrives pre post m tx cl (omega arith) in
      (
        before,
        after,
        fr,
        ap (waiting pf) (tick-due pf inp a b l tx normal p)
            ∙ (ap (λ ms. waiting pf (send_all pf ms tx)) split ∙ queued),
        sent,
        id ∙ ap (frame_id pf) same,
        len ∙ ap (frame_len pf) same,
      )
