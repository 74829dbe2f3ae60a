-- ===== src/System/Atomic.antt =====
-- A round of the periodic thread and a press of the test button, between whose frames the TX thread
-- and the driver make steps, against the same as one step.
use zephyr_can_converter_uni.Prelude.{ℕ, suc, ◌+◌, ◌≤◌, ◌≡◌, false, List, some, arith, length, All}
use zephyr_can_converter_uni.Candef.{IsClassic}
use zephyr_can_converter_uni.Platform.{Platform, can_tx_depth}
use zephyr_can_converter_uni.Frames.Delivery.{waiting}
use zephyr_can_converter_uni.Rs485.{MasterData}
use zephyr_can_converter_uni.Frames.{Tx}
use zephyr_can_converter_uni.Frames.Messages.{Message, send_all}
use zephyr_can_converter_uni.Periodic.{Locals, Input, tick}
use zephyr_can_converter_uni.Periodic.Arrival.{length-due}
use zephyr_can_converter_uni.Periodic.Phase.{InPhase, tick-due, due}
use zephyr_can_converter_uni.Can.{ccu_can_test_send_all}
use zephyr_can_converter_uni.Can.TestFrames.{test_frames, ccu_can_test_send_all_lem}
use zephyr_can_converter_uni.Can.TxThread.{Machine}
use zephyr_can_converter_uni.Can.TxThread.Ahead.{with_tx, send_all-IsAhead}
use zephyr_can_converter_uni.Can.TxThread.Atomic.{
  Action, play, offers_of, events_of, IsSameRun, play-IsSameRun,
}
use zephyr_can_converter_uni.Can.TxThread.Queue.{IsInner}

module _ (pf : Platform) where
  open pf use {candef}

  -- Messages that are sent one by one, with steps between them, against all of them sent at once.
  burst-IsSameRun :
      (xs : List (Action pf)) (ms : List Message) (tx : Tx pf) (m m' : Machine pf)
      → tx ≡ send_all pf ms m.can.tx
      → length ms ≤ 16
      → IsClassic candef
      → length (waiting pf m.can.tx) + 16 ≤ can_tx_depth
      → All (IsInner pf) (events_of pf xs)
      → offers_of pf xs ≡ ms
      → play pf xs m ≡ some m'
      → IsSameRun pf (events_of pf xs) (with_tx pf tx m) m'
  burst-IsSameRun xs ms tx m m' whole few cl room own all h =
      let few' : length (offers_of pf xs) ≤ 16 = rw all few in
      rw (whole, ← all)
        (play-IsSameRun pf xs (send_all pf (offers_of pf xs) m.can.tx) m m' cl (omega arith) own
          (send_all-IsAhead pf (offers_of pf xs) m.can.tx cl (omega arith)) h)

  -- Let the frames of a tick outside of an update, in phase with the schedule, be offered one by one,
  -- with any steps of the TX thread and the driver between them, before the first and after the last,
  -- where the queue has room for sixteen frames at the start and the frames fit a classical CAN bus.
  -- Then the same steps can happen in the same order after the whole tick, and the outcome is the
  -- same: the same machine but for the queue and the counters of frames, and in these the same frames
  -- in the same order and the same counts.
  pub tick-IsAtomic :
      (xs : List (Action pf)) (inp : Input) (a b : ℕ) (l : Locals) (m m' : Machine pf)
      → inp.dfu_active ≡ false
      → InPhase a b l
      → IsClassic candef
      → length (waiting pf m.can.tx) + 16 ≤ can_tx_depth
      → All (IsInner pf) (events_of pf xs)
      → offers_of pf xs ≡ due (suc a) (suc b) inp.master_data
      → play pf xs m ≡ some m'
      → IsSameRun pf (events_of pf xs) (with_tx pf (tick pf inp l m.can.tx).1 m) m'
  tick-IsAtomic xs inp a b l m m' normal p cl room own all h =
      let d = inp.master_data in
      burst-IsSameRun xs (due (suc a) (suc b) d) _ m m' (tick-due pf inp a b l m.can.tx normal p)
        (length-due (suc a) (suc b) d) cl room own all h

  -- The same for the frames of a press of the test button.
  pub ccu_can_test_send_all-IsAtomic :
      (xs : List (Action pf)) (d : MasterData) (m m' : Machine pf)
      → IsClassic candef
      → length (waiting pf m.can.tx) + 16 ≤ can_tx_depth
      → All (IsInner pf) (events_of pf xs)
      → offers_of pf xs ≡ test_frames d
      → play pf xs m ≡ some m'
      → IsSameRun pf (events_of pf xs) (with_tx pf (ccu_can_test_send_all pf d m.can.tx) m) m'
  ccu_can_test_send_all-IsAtomic xs d m m' cl room own all h =
      burst-IsSameRun xs (test_frames d) _ m m' (ccu_can_test_send_all_lem pf d m.can.tx)
        (ground arith) cl room own all h
