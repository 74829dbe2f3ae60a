-- ===== src/Can/TxThread/Drain.antt =====
-- Progress of the TX thread with a driver that accepts each frame and calls back in time.
use zephyr_can_converter_uni.Prelude.{
  All, sym, ap, append-nil, ◌++◌, ◌+◌, ◌≡◌, refl, ◌∙◌, List, [], ◌∷◌, some, arith, length, u32, pos,
}
use zephyr_can_converter_uni.Platform.{CanFrame, Platform}
use zephyr_can_converter_uni.Can.{tx_get, tx_take, tx_finish, ccu_can_tx_callback}
use zephyr_can_converter_uni.Can.TxThread.Queue.{IsInner}
use zephyr_can_converter_uni.Can.TxThread.Fifo.{all_fetched, run-fetched_inner}
use zephyr_can_converter_uni.Can.TxThread.{TxPc, Machine, TxEvent, step, run}
use zephyr_can_converter_uni.Can.TxThread.Accounting.{done}

module _ (pf : Platform) where
  open pf use {can_tx, tx_done}

  -- The thread waits for a frame, and no call back is outstanding or unseen.
  pub record IsIdle (m : Machine pf) : Type 0 where
    pub fetching : m.pc ≡ TxPc.fetching
    pub landed : m.in_flight ≡ 0
    pub seen : done pf m.can ≡ 0
    pub counted : m.can.frames_tx_ok ≡ u32 m.ledger.oks

  -- What happens to one frame, and then `es`.
  abbrev pub sends_one : List (TxEvent pf) → List (TxEvent pf)
  sends_one es =
      TxEvent.get
      ∷ TxEvent.sent (pos 0)
      ∷ TxEvent.callback (pos 0)
      ∷ TxEvent.take
      ∷ TxEvent.finish
      ∷ es

  abbrev pub sends : List CanFrame → List (TxEvent pf)
  sends [] = []
  sends (f ∷ fs) = sends_one (sends fs)

  run-sends_one :
      (es : List (TxEvent pf)) (m : Machine pf) (f : CanFrame) (rest : List CanFrame)
      → IsIdle m
      → can_tx.contents m.can.tx.queue ≡ f ∷ rest
      → (m' : Machine pf) × (run pf (sends_one es) m ≡ run pf es m')
        × IsIdle m'
        × (can_tx.contents m'.can.tx.queue ≡ rest)
        × (m'.ledger.oks ≡ m.ledger.oks + 1)
  unfolding run step tx_get tx_take tx_finish ccu_can_tx_callback
  run-sends_one es m f rest idle q =
      let (q1, get1, left1) = can_tx.get_first m.can.tx.queue f rest q in
      let given : tx_done.count (tx_done.give m.can.done_sem) ≡ 0 + 1 =
        omega (arith, tx_done.count-give m.can.done_sem, idle.seen) in
      let (s, taken_sem, left) = tx_done.take_some (tx_done.give m.can.done_sem) 0 given in
      let p = idle.fetching in
      let i = idle.landed in
      (
        record m {
          can = record (m.can) {
            tx = record (m.can.tx) { queue = q1 };
            tx_result = pos 0;
            done_sem = s;
            frames_tx_ok = u32 (m.can.frames_tx_ok + 1);
          };
          pc = TxPc.fetching;
          in_flight = 0;
          ledger = record {
            accepted = m.ledger.accepted + 1;
            callbacks = m.ledger.callbacks + 1;
            good = m.ledger.good + 1;
            timeouts = m.ledger.timeouts;
            oks = m.ledger.oks + 1;
          };
        },
        ground arith,
        record {
          fetching = refl;
          landed = refl;
          seen = left;
          counted = omega (arith, idle.counted);
        },
        left1,
        refl,
      )

  drain :
      (fs : List CanFrame) (m : Machine pf)
      → IsIdle m
      → can_tx.contents m.can.tx.queue ≡ fs
      → (m' : Machine pf) × (run pf (sends fs) m ≡ some m')
        × IsIdle m'
        × (can_tx.contents m'.can.tx.queue ≡ [])
        × (m'.ledger.oks ≡ m.ledger.oks + length fs)
  unfolding run
  drain [] m idle q = (m, refl, idle, q, omega arith)
  drain (f ∷ fs) m idle q =
      let (next, first, idle', left, one) = run-sends_one (sends fs) m f fs idle q in
      let (last, rest, idle'', empty, many) = drain fs next idle' left in
      (last, first ∙ rest, idle'', empty, omega arith)

  sends-IsInner : (fs : List CanFrame) → All (IsInner pf) (sends fs)
  sends-IsInner [] = tt
  sends-IsInner (f ∷ fs) = (tt, (tt, (tt, (tt, (tt, sends-IsInner fs)))))

  -- From an idle thread with any frames in its queue, when the driver accepts each frame and calls
  -- back without an error in time: the thread gets through all of them and is idle again, the queue
  -- is empty, as many frames as there were are counted as sent, and these frames in their order are
  -- what the thread handed to `can_send`.
  pub run-sends :
      (fs : List CanFrame) (m : Machine pf)
      → IsIdle m
      → can_tx.contents m.can.tx.queue ≡ fs
      → (m' : Machine pf) × (run pf (sends fs) m ≡ some m')
        × IsIdle m'
        × (can_tx.contents m'.can.tx.queue ≡ [])
        × (m'.ledger.oks ≡ m.ledger.oks + length fs)
        × (all_fetched pf (sends fs) m ≡ fs)
  run-sends fs m idle q =
      let (m', ran, idle', empty, many) = drain fs m idle q in
      let handed = run-fetched_inner pf (sends fs) m m' (sends-IsInner fs) ran in
      (
        m',
        ran,
        idle',
        empty,
        many,
        sym (append-nil (all_fetched pf (sends fs) m))
            ∙ (ap (λ l. all_fetched pf (sends fs) m ++ l) (sym empty) ∙ (sym handed ∙ q)),
      )
