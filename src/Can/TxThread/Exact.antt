-- ===== src/Can/TxThread/Exact.antt =====
-- Which frame a result belongs to, while no wait runs out and after one that does.
use zephyr_can_converter_uni.Prelude.{
  ℕ, ◌+◌, ◌≤◌, ◌≡◌, refl, List, [], ◌∷◌, none, some, if◌then◌else◌, arith, u32, pos, is_zero, inl,
  inr, Option-cases,
}
use zephyr_can_converter_uni.Platform.{CanFrame, Platform}
use zephyr_can_converter_uni.Frames.{Tx}
use zephyr_can_converter_uni.Can.{Effect, tx_get, tx_take, tx_finish, ccu_can_tx_callback}
use zephyr_can_converter_uni.Can.TxThread.{TxPc, Machine, TxEvent, step_at, step, run}
use zephyr_can_converter_uni.Can.TxThread.Accounting.{
  taken, done, tx_take-some, boot, run-IsBacked, boot-IsBacked,
}

-- A frame was accepted and the thread has not finished with it.
abbrev pub busy : TxPc → ℕ
busy TxPc.waiting = 1
busy TxPc.finishing = 1
busy _ = 0

module _ (pf : Platform) where
  open pf use {can_tx, tx_done}

  -- The frame in hand is in flight, or called back for, or taken; and all good calls back but the one
  -- in hand are counted.
  pub record IsExact (m : Machine pf) : Type 0 where
    pub in_hand : m.in_flight + done pf m.can + taken m.pc ≡ busy m.pc
    pub matched :
        m.ledger.oks + (if is_zero m.can.tx_result then done pf m.can + taken m.pc else 0)
        ≡ m.ledger.good

  step_at-IsExact :
      (e : TxEvent pf) (pc : TxPc) (m m' : Machine pf) (effects : List Effect)
      → m.pc ≡ pc
      → step_at pf e pc m ≡ some (m', effects)
      → m'.ledger.timeouts ≡ 0
      → IsExact m
      → (m.ledger.timeouts ≡ 0) × IsExact m'
  unfolding step_at tx_get tx_finish ccu_can_tx_callback
  step_at-IsExact TxEvent.get TxPc.fetching m m' effects p h z b = ground arith
  step_at-IsExact TxEvent.take TxPc.waiting m m' effects p h z b =
      elim (Option-cases (tx_take pf m.can)) [
        | inl e ↦ ground arith
        | inr (c, e) ↦ ground (arith, tx_take-some pf m.can c e)
      ]
  step_at-IsExact (TxEvent.callback error) pc m m' effects p h z b =
      ground (arith, tx_done.count-give m.can.done_sem)
  step_at-IsExact _ _ m m' effects p h z b = ground arith

  step_at-timeouts-le :
      (e : TxEvent pf) (pc : TxPc) (m m' : Machine pf) (effects : List Effect)
      → step_at pf e pc m ≡ some (m', effects)
      → m.ledger.timeouts ≤ m'.ledger.timeouts
  unfolding step_at
  step_at-timeouts-le TxEvent.get TxPc.fetching m m' effects h = ground arith
  step_at-timeouts-le _ _ m m' effects h = ground arith

  run-timeouts-le :
      (es : List (TxEvent pf)) (m m' : Machine pf)
      → run pf es m ≡ some m'
      → m.ledger.timeouts ≤ m'.ledger.timeouts
  unfolding run step
  run-timeouts-le [] m m' h = ground arith
  run-timeouts-le (e ∷ es) m m' h = elim (Option-cases (step pf e m)) [
    | inl none_left ↦ ground arith
    | inr ((next, effects), taken_step) ↦ omega (
      arith,
      step_at-timeouts-le e m.pc m next effects taken_step,
      run-timeouts-le es next m' (ground arith),
    )
  ]

  run-IsExact :
      (es : List (TxEvent pf)) (m m' : Machine pf)
      → run pf es m ≡ some m'
      → m'.ledger.timeouts ≡ 0
      → IsExact m
      → IsExact m'
  unfolding run step
  run-IsExact [] m m' h z b = ground arith
  run-IsExact (e ∷ es) m m' h z b = elim (Option-cases (step pf e m)) [
    | inl none_left ↦ ground arith
    | inr ((next, effects), taken_step) ↦
        let rest : run pf es next ≡ some m' = ground arith in
        let quiet : next.ledger.timeouts ≡ 0 = omega (arith, run-timeouts-le es next m' rest) in
        run-IsExact es next m' rest z
          (step_at-IsExact e m.pc m next effects refl taken_step quiet b).1
  ]

  boot-IsExact : (tx : Tx pf) → IsExact (boot pf tx)
  boot-IsExact tx = omega (arith, tx_done.count-zero_sem)

  -- While no wait for a call back has run out: whenever the thread is back at its queue, no frame is
  -- in flight, and `can_frames_tx_ok` is (modulo 2^32) the number of frames whose call back reported
  -- no error.
  pub oks_exact :
      (tx : Tx pf) (es : List (TxEvent pf)) (m : Machine pf)
      → run pf es (boot pf tx) ≡ some m
      → m.ledger.timeouts ≡ 0
      → m.pc ≡ TxPc.fetching
      → (m.in_flight ≡ 0) × (m.can.frames_tx_ok ≡ u32 m.ledger.good)
  oks_exact tx es m h z p = ground (
    arith,
    run-IsExact es (boot pf tx) m h z (boot-IsExact tx),
    run-IsBacked pf es (boot pf tx) m h (boot-IsBacked pf tx),
  )

  -- The events by which a result reaches the wrong frame: the wait for the first frame runs out, its
  -- call back comes late, and the second frame is accepted and finds the semaphore given.
  abbrev pub late : List (TxEvent pf)
  late =
      TxEvent.get
      ∷ TxEvent.sent (pos 0)
      ∷ TxEvent.timeout
      ∷ TxEvent.callback (pos 0)
      ∷ TxEvent.get
      ∷ TxEvent.sent (pos 0)
      ∷ TxEvent.take
      ∷ TxEvent.finish
      ∷ []

  -- From an idle thread with two frames in its queue and no call back outstanding, after the events of
  -- `late`: there was one call back, without an error and for the first frame, whose wait had run out;
  -- by it the thread has finished with the second frame and raised `can_frames_tx_ok` by one, modulo
  -- 2^32, while that frame is still in flight.
  pub late_result :
      (m : Machine pf) (f g : CanFrame) (rest : List CanFrame)
      → m.pc ≡ TxPc.fetching
      → done pf m.can ≡ 0
      → m.in_flight ≡ 0
      → can_tx.contents m.can.tx.queue ≡ f ∷ g ∷ rest
      → (m' : Machine pf) × (run pf late m ≡ some m')
        × (m'.ledger.callbacks ≡ m.ledger.callbacks + 1)
        × (m'.in_flight ≡ 1)
        × (m'.ledger.timeouts ≡ m.ledger.timeouts + 1)
        × (m'.pc ≡ TxPc.fetching)
        × (m'.can.frames_tx_ok ≡ u32 (m.can.frames_tx_ok + 1))
        × (can_tx.contents m'.can.tx.queue ≡ rest)
  unfolding run step tx_get tx_take tx_finish ccu_can_tx_callback
  late_result m f g rest p d i q =
      let (q1, get1, left1) = can_tx.get_first m.can.tx.queue f (g ∷ rest) q in
      let (q2, get2, left2) = can_tx.get_first q1 g rest left1 in
      let idle : tx_done.take m.can.done_sem ≡ none = tx_done.take_none m.can.done_sem d in
      let given : tx_done.count (tx_done.give m.can.done_sem) ≡ 0 + 1 =
        omega (arith, tx_done.count-give m.can.done_sem) in
      let (s, taken_sem, left) = tx_done.take_some (tx_done.give m.can.done_sem) 0 given in
      (
        record m {
          can = record (m.can) {
            tx = record (m.can.tx) { queue = q2 };
            tx_result = pos 0;
            done_sem = s;
            frames_tx_ok = u32 (m.can.frames_tx_ok + 1);
          };
          pc = TxPc.fetching;
          in_flight = 1;
          ledger = record {
            accepted = m.ledger.accepted + 1 + 1;
            callbacks = m.ledger.callbacks + 1;
            good = m.ledger.good + 1;
            timeouts = m.ledger.timeouts + 1;
            oks = m.ledger.oks + 1;
          };
        },
        ground arith,
        refl,
        refl,
        refl,
        refl,
        refl,
        left2,
      )
