-- ===== src/System/Arrival.antt =====
-- From the RS485 line to the CAN queue: the way of every kind of frame through the whole firmware.

use zephyr_can_converter_uni.Prelude.{
  ℕ, suc, ◌+◌, ◌≤◌, ◌≡◌, refl, ◌∙◌, true, false, List, [], ◌∷◌, ◌++◌, Option, some, arith, length,
  take,
}
use zephyr_can_converter_uni.Candef.{IsClassic}
use zephyr_can_converter_uni.Platform.{CanFrame, Platform, can_tx_depth}
use zephyr_can_converter_uni.Rs485.{Link, Packet, Session, parser_round}
use zephyr_can_converter_uni.Rs485.Stream.{feed_all, feed_from_lem}
use zephyr_can_converter_uni.Rs485.Latest.{
  Part, Held, held, or_else, last_carried, payloads, frames_in, store-feed_all, held-on_frames,
}
use zephyr_can_converter_uni.Frames.Delivery.{waiting}
use zephyr_can_converter_uni.Frames.Messages.{FrameKind, Message, frame_id, frame_len}
use zephyr_can_converter_uni.Frames.Sent.{IsFrameOf}
use zephyr_can_converter_uni.Periodic.{tick}
use zephyr_can_converter_uni.Periodic.Phase.{InPhase}
use zephyr_can_converter_uni.Periodic.Sources.{message_by, message_of, is_round}
use zephyr_can_converter_uni.Periodic.Arrival.{tick-Arrives}
use zephyr_can_converter_uni.Can.{Effect}
use zephyr_can_converter_uni.System.{Firmware, Event, step, run, input}

-- What came in last goes before what was there.
message_by-or_else :
    (k : FrameKind) (new old : (p : Part) → Option (Held p)) (m : Message)
    → message_by k new ≡ some m
    → message_by k (λ p. or_else (new p) (old p)) ≡ some m
message_by-or_else FrameKind.mcu_state new old m h = ground arith
message_by-or_else k new old m h = ground arith

module _ (pf : Platform) (link : Link) where
  open pf use {candef}

  -- The session after a packet within its buffer, and the message that the store then leads to.
  parser_round-message_of :
      (k : FrameKind) (m : Message) (p : Packet) (s : Session link)
      → p.len ≤ length p.bytes
      → message_by k
          (λ q. last_carried q (payloads link (frames_in link s.parser (take p.len p.bytes))))
        ≡ some m
      → (s' : Session link) × (parser_round link (some p) s ≡ some s')
        × (message_of k s'.store.master_data ≡ some m)
  unfolding parser_round
  parser_round-message_of k m p s long last =
      let fs = frames_in link s.parser (take p.len p.bytes) in
      (
        feed_all link (take p.len p.bytes) s,
        feed_from_lem link p.len p.bytes s long,
        rw (store-feed_all link (take p.len p.bytes) s) (
            (λ i. message_by k (λ q. held-on_frames link q fs s.store i))
            ∙ message_by-or_else k (λ q. last_carried q (payloads link fs))
                (λ q. held q s.store.master_data) m last),
      )

  -- Let a packet within its buffer complete frames whose last decodable payload for a kind of frame
  -- leads to a message, and let the next tick of the periodic thread be outside of an update, in phase
  -- with the schedule and one at which the rate of the kind comes round, with room for sixteen frames
  -- in the queue and frames that fit a classical CAN bus. Then both steps happen, and the queue holds the frame that the kind's sender makes
  -- of this message, with the identifier and the length of the kind.
  pub run-Arrives :
      (k : FrameKind) (m : Message) (p : Packet) (a b : ℕ) (s : Firmware pf link)
      → p.len ≤ length p.bytes
      → message_by k (λ q.
        last_carried q (payloads link (frames_in link s.session.parser (take p.len p.bytes))))
        ≡ some m
      → InPhase a b s.locals
      → is_round k (suc a) (suc b) ≡ true
      → IsClassic candef
      → length (waiting pf s.machine.can.tx) + 16 ≤ can_tx_depth
      → (s' : Firmware pf link) × (effects : List Effect) × (run pf link
            (Event.packet (some p) ∷ Event.tick false ∷ [])
            s
          ≡ some (s', effects))
        × (before after : List CanFrame) × (fr : CanFrame) × (waiting pf s'.machine.can.tx
            ≡ before ++ fr ∷ after)
        × IsFrameOf pf m fr
        × (fr.id ≡ frame_id pf k)
        × (fr.dlc ≡ frame_len pf k)
  unfolding run step input
  run-Arrives k m p a b s long last phase round cl room =
      let (session', fed, stored) = parser_round-message_of k m p s.session long last in
      let inp = input pf link false (record s { session = session' }) in
      let r = tick pf inp s.locals s.machine.can.tx in
      let (before, after, fr, queued, sent, id, len) =
        tick-Arrives pf k m inp a b s.locals s.machine.can.tx refl phase round stored cl room in
      (
        record s {
          session = session';
          locals = r.0;
          machine = record (s.machine) { can = record (s.machine.can) { tx = r.1 } };
        },
        [],
        rw (fed, run, step),
        before,
        after,
        fr,
        queued,
        sent,
        id,
        len,
      )
