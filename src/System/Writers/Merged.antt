-- ===== src/System/Writers/Merged.antt =====
-- In which order the frames go out that the periodic thread and the handler of the test button send at
-- the same time.
use zephyr_can_converter_uni.Prelude.{
  ℕ, suc, false, ◌≡◌, refl, sym, subst, ap, ◌∙◌, ◌≤◌, ◌<◌, List, [], ◌∷◌, ◌++◌, append-nil, some,
  arith, length, length-append, inl, inr, Option-cases, All,
}
use zephyr_can_converter_uni.Candef.{IsClassic}
use zephyr_can_converter_uni.Platform.{Platform, can_tx_depth}
use zephyr_can_converter_uni.Frames.Delivery.{waiting}
use zephyr_can_converter_uni.Frames.Messages.{Message}
use zephyr_can_converter_uni.Frames.Push.{frame_of}
use zephyr_can_converter_uni.Can.{Effect}
use zephyr_can_converter_uni.Can.TxThread
use zephyr_can_converter_uni.Can.TxThread.{Machine, TxEvent}
use zephyr_can_converter_uni.Can.TxThread.Ahead.{send-push}
use zephyr_can_converter_uni.Can.TxThread.Fifo.{fetched, step-get, step-waiting}
use zephyr_can_converter_uni.Can.TxThread.Queue.{IsInner}
use zephyr_can_converter_uni.Rs485.{MasterData}
use zephyr_can_converter_uni.Frames.Messages.{send_all}
use zephyr_can_converter_uni.Periodic.{Locals, Input, tick}
use zephyr_can_converter_uni.Periodic.Arrival.{length-due}
use zephyr_can_converter_uni.Periodic.Phase.{InPhase, tick-due, due}
use zephyr_can_converter_uni.Can.{ccu_can_test_send_all}
use zephyr_can_converter_uni.Can.TestFrames.{test_frames, ccu_can_test_send_all_lem}
use zephyr_can_converter_uni.System.Writers.{
  Interleaves, Shared, Turn, sent, step_with, step, run, handed_by, all_handed, IsInnerTurn,
  queue_of, load, IsMerged,
}
use zephyr_can_converter_uni.System.Writers.Joined.{IsMerged-then}

module _ (pf : Platform) where
  open pf use {candef}

  -- A round and a press that start at the same time.
  abbrev pub both : Input → ℕ → ℕ → MasterData → Machine pf → Shared pf
  both inp a b d m = record {
    machine = m;
    periodic = due (suc a) (suc b) inp.master_data;
    button = test_frames d;
  }

  tx-conserved :
      (e : TxEvent pf) (m m' : Machine pf) (effects : List Effect)
      → IsInner pf e
      → TxThread.step pf e m ≡ some (m', effects)
      → waiting pf m.can.tx ≡ fetched pf e m'.pc ++ waiting pf m'.can.tx
  tx-conserved (TxEvent.others tx) m m' effects i h = absurd i
  tx-conserved TxEvent.get m m' effects i h =
      let (f, handed, first) = step-get pf m m' effects h in rw handed first
  tx-conserved e m m' effects i h = sym (step-waiting pf e m m' effects tt h)

  sent-conserved :
      (x : Message) (m : Machine pf)
      → IsClassic candef
      → length (waiting pf m.can.tx) < can_tx_depth
      → waiting pf (sent pf x m).can.tx ≡ waiting pf m.can.tx ++ frame_of pf x ∷ []
  sent-conserved x m cl room = send-push pf x m.can.tx cl room

  abbrev IsStep : Turn pf → Shared pf → Shared pf → Type 0
  IsStep t s s' = IsMerged pf s s' (handed_by pf t s') × (load pf s' ≤ can_tx_depth)

  step_with-IsMerged :
      (t : Turn pf) (xs ys : List Message) (m : Machine pf) (s' : Shared pf)
      → IsClassic candef
      → IsInnerTurn pf t
      → load pf (record { machine = m; periodic = xs; button = ys }) ≤ can_tx_depth
      → step_with pf t xs ys m ≡ some s'
      → IsStep t (record { machine = m; periodic = xs; button = ys }) s'
  step_with-IsMerged Turn.of_periodic [] ys m s' cl i room h = absurd (ground arith)
  step_with-IsMerged Turn.of_periodic (x ∷ xs) ys m s' cl i room h =
      let same : record { machine = sent pf x m; periodic = xs; button = ys } ≡ s' = ground arith in
      let behind = sent-conserved x m cl (omega arith) in
      let longer =
        ap length behind ∙ length-append {0} (waiting pf m.can.tx) (frame_of pf x ∷ []) in
      subst (IsStep Turn.of_periodic _) same (
        record {
          from_periodic = x ∷ [];
          from_button = [];
          merged = frame_of pf x ∷ [];
          rest_periodic = refl;
          rest_button = refl;
          in_order = Interleaves.left (frame_of pf x) Interleaves.neither;
          conserved = sym behind;
        },
        omega (arith, longer),
      )
  step_with-IsMerged Turn.of_button xs [] m s' cl i room h = absurd (ground arith)
  step_with-IsMerged Turn.of_button xs (y ∷ ys) m s' cl i room h =
      let same : record { machine = sent pf y m; periodic = xs; button = ys } ≡ s' = ground arith in
      let behind = sent-conserved y m cl (omega arith) in
      let longer =
        ap length behind ∙ length-append {0} (waiting pf m.can.tx) (frame_of pf y ∷ []) in
      subst (IsStep Turn.of_button _) same (
        record {
          from_periodic = [];
          from_button = y ∷ [];
          merged = frame_of pf y ∷ [];
          rest_periodic = refl;
          rest_button = refl;
          in_order = Interleaves.right (frame_of pf y) Interleaves.neither;
          conserved = sym behind;
        },
        omega (arith, longer),
      )
  step_with-IsMerged (Turn.of_tx e) xs ys m s' cl i room h =
      elim (Option-cases (TxThread.step pf e m)) [
        | inl stuck ↦ absurd (ground arith)
        | inr ((m', effects), moved) ↦
            let same : record { machine = m'; periodic = xs; button = ys } ≡ s' = ground arith in
            let kept = tx-conserved e m m' effects i moved in
            let shorter =
              ap length kept ∙ length-append {0} (fetched pf e m'.pc) (waiting pf m'.can.tx) in
            subst (IsStep (Turn.of_tx e) _) same (
              record {
                from_periodic = [];
                from_button = [];
                merged = [];
                rest_periodic = refl;
                rest_button = refl;
                in_order = Interleaves.neither;
                conserved = append-nil (waiting pf m.can.tx) ∙ kept;
              },
              omega (arith, shorter),
            )
      ]

  -- The same for any messages, with room for all of them at the start.
  run-IsMerged :
      (ts : List (Turn pf)) (s s' : Shared pf)
      → IsClassic candef
      → All (IsInnerTurn pf) ts
      → load pf s ≤ can_tx_depth
      → run pf ts s ≡ some s'
      → IsMerged pf s s' (all_handed pf ts s)
  unfolding run step
  run-IsMerged [] s s' cl i room h =
      let same : s ≡ s' = ground arith in
      subst (λ t. IsMerged pf s t []) same
        (record {
          from_periodic = [];
          from_button = [];
          merged = [];
          rest_periodic = refl;
          rest_button = refl;
          in_order = Interleaves.neither;
          conserved = append-nil (queue_of pf s);
        })
  run-IsMerged (t ∷ ts) s s' cl i room h = elim (Option-cases (step pf t s)) [
    | inl stuck ↦ absurd (ground arith)
    | inr (next, moved) ↦
        let (first, small) =
          step_with-IsMerged t s.periodic s.button s.machine next cl i.0 room moved in
        let rest = run-IsMerged ts next s' cl i.1 small (ground arith) in
        let all : handed_by pf t next ++ all_handed pf ts next ≡ all_handed pf (t ∷ ts) s =
          rw (moved, all_handed) in
        subst (IsMerged pf s s') all
          (IsMerged-then pf s next s' (handed_by pf t next) (all_handed pf ts next) first rest)
  ]

  -- Let a round of the periodic thread, outside of an update and in phase with the schedule, and a
  -- press of the test button send their frames at the same time, frame by frame in any order and with
  -- any steps of the TX thread and the driver between them, where at most six frames wait at the start
  -- and the frames fit a classical CAN bus. Each of the two by itself sends the messages that the
  -- schedule or the test lists. Then at every moment the frames that waited at the start, followed by
  -- the frames of what the two have sent of these, are the frames that were handed to `can_send`
  -- followed by those that still wait; what the two have sent is merged with the messages of each in
  -- their order, and each message is one frame.
  pub tick_press-IsMerged :
      (ts : List (Turn pf)) (inp : Input) (a b : ℕ) (l : Locals) (d : MasterData) (m : Machine pf)
      (s' : Shared pf)
      → inp.dfu_active ≡ false
      → InPhase a b l
      → IsClassic candef
      → length (waiting pf m.can.tx) ≤ 6
      → All (IsInnerTurn pf) ts
      → run pf ts (both inp a b d m) ≡ some s'
      → ((tick pf inp l m.can.tx).1 ≡ send_all pf (both inp a b d m).periodic m.can.tx)
        × (ccu_can_test_send_all pf d m.can.tx ≡ send_all pf (both inp a b d m).button m.can.tx)
        × IsMerged pf (both inp a b d m) s' (all_handed pf ts (both inp a b d m))
  tick_press-IsMerged ts inp a b l d m s' normal p cl room own h =
      let few : length (test_frames d) ≤ 10 = ground arith in
      (
        tick-due pf inp a b l m.can.tx normal p,
        ccu_can_test_send_all_lem pf d m.can.tx,
        run-IsMerged ts (both inp a b d m) s' cl own
            (omega (arith, few, length-due (suc a) (suc b) inp.master_data)) h,
      )
