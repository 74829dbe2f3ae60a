-- ===== src/Can/TxThread/Atomic.antt =====
-- Frames that another thread offers one by one while the TX thread and the driver make steps.
use zephyr_can_converter_uni.Prelude.{
  ◌≡◌, refl, ap, ◌∙◌, ◌+◌, ◌≤◌, List, [], ◌∷◌, append-nil, Option, none, some, arith, length, All,
  inl, inr, Option-cases,
}
use zephyr_can_converter_uni.Candef.{IsClassic}
use zephyr_can_converter_uni.Platform.{Platform, can_tx_depth}
use zephyr_can_converter_uni.Frames.{Tx}
use zephyr_can_converter_uni.Frames.Delivery.{waiting}
use zephyr_can_converter_uni.Frames.Messages.{Message, send}
use zephyr_can_converter_uni.Can.TxThread.Queue.{IsInner}
use zephyr_can_converter_uni.Can.TxThread.{Machine, TxEvent, step, run}
use zephyr_can_converter_uni.Can.TxThread.Ahead.{
  with_tx, IsAhead, step-IsAlike, length-send, offer-IsAhead, step-shorter,
}

module _ (pf : Platform) where
  open pf use {candef, can_tx}

  -- A frame that is offered, or a step of the TX thread or the driver.
  pub data Action : Type 0 where
    offer : Message → Action
    event : TxEvent pf → Action

  -- A machine after the actions, if each of the steps could happen.
  unfoldable pub play : List Action → Machine pf → Option (Machine pf)
  play [] m = some m
  play (Action.offer x ∷ xs) m = play xs (with_tx pf (send pf x m.can.tx) m)
  play (Action.event e ∷ xs) m = elim (step pf e m) [
    | none ↦ none
    | some (m', effects) ↦ play xs m'
  ]

  abbrev pub offers_of : List Action → List Message
  offers_of [] = []
  offers_of (Action.offer x ∷ xs) = x ∷ offers_of xs
  offers_of (Action.event e ∷ xs) = offers_of xs

  abbrev pub events_of : List Action → List (TxEvent pf)
  events_of [] = []
  events_of (Action.offer x ∷ xs) = events_of xs
  events_of (Action.event e ∷ xs) = e ∷ events_of xs

  -- The outcome is that of the other order, with the same frames in the queue and the same counters.
  pub record IsSameRun (es : List (TxEvent pf)) (m m' : Machine pf) : Type 0 where
    pub tx : Tx pf
    pub ran : run pf es m ≡ some (with_tx pf tx m')
    pub queued : waiting pf tx ≡ waiting pf m'.can.tx
    pub counts : tx.frame_counts ≡ m'.can.tx.frame_counts

  -- While there is room for all that is still to be offered, offering it all first makes no difference.
  pub play-IsSameRun :
      (xs : List Action) (tx : Tx pf) (m m' : Machine pf)
      → IsClassic candef
      → length (waiting pf m.can.tx) + length (offers_of xs) ≤ can_tx_depth
      → All (IsInner pf) (events_of xs)
      → IsAhead pf (offers_of xs) tx m.can.tx
      → play xs m ≡ some m'
      → IsSameRun (events_of xs) (with_tx pf tx m) m'
  unfolding play run
  play-IsSameRun [] tx m m' cl room own a h =
      let same : m ≡ m' = ground arith in
      record {
        tx = tx;
        ran = rw same refl;
        queued = a.queued ∙ (append-nil (waiting pf m.can.tx) ∙ ap (λ n. waiting pf n.can.tx) same);
        counts = a.counts ∙ ap (λ n. n.can.tx.frame_counts) same;
      }
  play-IsSameRun (Action.offer x ∷ xs) tx m m' cl room own a h =
      play-IsSameRun xs tx (with_tx pf (send pf x m.can.tx) m) m' cl
        (omega (arith, length-send pf x m.can.tx cl (omega arith))) own
        (offer-IsAhead pf x (offers_of xs) tx m.can.tx cl (omega arith) a) h
  play-IsSameRun (Action.event e ∷ xs) tx m m' cl room own a h = elim (Option-cases (step pf e m)) [
    | inl stuck ↦ ground arith
    | inr ((next, effects), moved) ↦
        let alike = step-IsAlike pf (offers_of xs) e tx m next effects own.0 moved a in
        let fewer : length (waiting pf next.can.tx) ≤ length (waiting pf m.can.tx) =
          step-shorter pf e m next effects own.0 moved in
        let rest =
          play-IsSameRun xs alike.tx' next m' cl (omega arith) own.1 alike.ahead (ground arith) in
        record {
          tx = rest.tx;
          ran = rw (run, alike.moved) rest.ran;
          queued = rest.queued;
          counts = rest.counts;
        }
  ]
