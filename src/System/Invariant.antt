-- ===== src/System/Invariant.antt =====
-- The invariant of the whole firmware under the steps of every thread and handler.
use zephyr_can_converter_uni.Prelude.{
  ℕ, suc, ◌≤◌, ◌≡◌, refl, sym, subst, ◌∙◌, Bool, true, false, List, [], ◌∷◌, Option, none, some,
  arith, ap, u32, ◌<◌, inl, inr, Bool-cases, Option-cases,
}
use zephyr_can_converter_uni.Platform.{Platform}
use zephyr_can_converter_uni.Rs485.{Link, MasterData, parser_round}
use zephyr_can_converter_uni.Frames.{Tx, frame_counts_zero}
use zephyr_can_converter_uni.Frames.Invariant.{IsQueue, send_all-IsQueue}
use zephyr_can_converter_uni.Periodic.{Locals, Input, tick}
use zephyr_can_converter_uni.Periodic.Phase.{
  due, InPhase, locals_zero-InPhase, tick-InPhase, tick-InPhase_dfu, tick-due, tick_dfu,
}
use zephyr_can_converter_uni.Can.{
  Can, Effect, CanState, can_state_change_cb, ccu_can_test_set, ccu_can_test_send_all,
}
use zephyr_can_converter_uni.Can.TestFrames.{test_frames, ccu_can_test_send_all_lem}
use zephyr_can_converter_uni.Can.TxThread
use zephyr_can_converter_uni.Can.TxThread.{TxPc, Machine, TxEvent}
use zephyr_can_converter_uni.Can.TxThread.Queue.{empty-IsQueue, IsOwn, step-IsQueue}
use zephyr_can_converter_uni.Can.TxThread.Accounting.{IsBacked, step-IsBacked, boot-IsBacked}
use zephyr_can_converter_uni.Board.{test_begin, test_end, ccu_rs485_test_set}
use zephyr_can_converter_uni.System.{
  Firmware, Event, step, run, run-cons, booted, input, thread, board,
}

-- The queue holds at most 32 frames, all of them sendable; the count of sent frames is backed by calls
-- of the driver; and the counters of the periodic thread are in step with its schedule.
pub record IsSound (pf : Platform) (link : Link) (s : Firmware pf link) : Type 0 where
  pub queue : IsQueue pf s.machine.can.tx
  pub backed : IsBacked pf s.machine
  pub since_update : ℕ
  pub ticks : ℕ
  pub phase : InPhase since_update ticks s.locals

module _ (pf : Platform) (link : Link) where
  open pf use {can_tx}

  -- What a step gave, or its start where it gave nothing.
  abbrev pub out :
      Firmware pf link → Option (Firmware pf link × List Effect) → Firmware pf link × List Effect
  out s none = (s, [])
  out s (some r) = r

  tick-IsQueue :
      (inp : Input) (a b : ℕ) (l : Locals) (tx : Tx pf)
      → InPhase a b l
      → IsQueue pf tx
      → IsQueue pf (tick pf inp l tx).1
  tick-IsQueue inp a b l tx p q = elim (Bool-cases inp.dfu_active) [
    | inl dfu ↦ subst (IsQueue pf) (sym (tick_dfu pf inp l tx dfu).0) q
    | inr normal ↦
        subst (IsQueue pf) (sym (tick-due pf inp a b l tx normal p))
          (send_all-IsQueue pf (due (suc a) (suc b) inp.master_data) tx q)
  ]

  test_frames-IsQueue :
      (d : MasterData) (tx : Tx pf) → IsQueue pf tx → IsQueue pf (ccu_can_test_send_all pf d tx)
  test_frames-IsQueue d tx q =
      subst (IsQueue pf) (sym (ccu_can_test_send_all_lem pf d tx))
        (send_all-IsQueue pf (test_frames d) tx q)

  thread-IsSound :
      (e : TxEvent pf) (s s' : Firmware pf link) (effects : List Effect)
      → IsOwn pf e
      → thread pf link e s ≡ some (s', effects)
      → IsSound pf link s
      → IsSound pf link s'
  unfolding thread
  thread-IsSound e s s' effects o h v = elim (Option-cases (TxThread.step pf e s.machine)) [
    | inl stuck ↦ ground arith
    | inr ((m, done), moved) ↦
        let same : s' ≡ record s { machine = m } = ground arith in
        subst (IsSound pf link) (sym same) (record {
          queue = step-IsQueue pf e s.machine m done o moved v.queue;
          backed = step-IsBacked pf e s.machine m done moved v.backed;
          since_update = v.since_update;
          ticks = v.ticks;
          phase = v.phase;
        })
  ]

  -- A change of the CAN side that leaves the accounts alone.
  abbrev IsAside : Can pf → Can pf → Type 0
  IsAside c c' =
      (c'.done_sem ≡ c.done_sem) × (c'.tx_result ≡ c.tx_result) × (c'.frames_tx_ok ≡ c.frames_tx_ok)

  aside-IsSound :
      (s : Firmware pf link) (c : Can pf)
      → IsAside s.machine.can c
      → IsQueue pf c.tx
      → IsSound pf link s
      → IsSound pf link (record s { machine = record (s.machine) { can = c } })
  aside-IsSound s c (sem, result, oks) q v = record {
    queue = q;
    backed = record {
      flying = v.backed.flying;
      binary = rw sem v.backed.binary;
      backed = rw sem v.backed.backed;
      good = v.backed.good;
      counted = oks ∙ v.backed.counted;
    };
    since_update = v.since_update;
    ticks = v.ticks;
    phase = v.phase;
  }

  tick-IsSound :
      (dfu : Bool) (s s' : Firmware pf link) (effects : List Effect)
      → step pf link (Event.tick dfu) s ≡ some (s', effects)
      → IsSound pf link s
      → IsSound pf link s'
  unfolding step input
  tick-IsSound dfu s s' effects h v =
      let inp = input pf link dfu s in
      let r = tick pf inp s.locals s.machine.can.tx in
      let moved =
        aside-IsSound s (record (s.machine.can) { tx = r.1 }) (refl, refl, refl)
          (tick-IsQueue inp v.since_update v.ticks s.locals s.machine.can.tx v.phase v.queue) v in
      let same : s' ≡ record s {
        machine = record (s.machine) { can = record (s.machine.can) { tx = r.1 } };
        locals = r.0;
      } =
        ground arith in
      subst (IsSound pf link) (sym same) (elim (Bool-cases dfu) [
        | inl update ↦ record {
          queue = moved.queue;
          backed = moved.backed;
          since_update = 0;
          ticks = v.ticks;
          phase =
              tick-InPhase_dfu pf inp v.since_update v.ticks s.locals s.machine.can.tx update
                v.phase;
        }
        | inr normal ↦ record {
          queue = moved.queue;
          backed = moved.backed;
          since_update = suc v.since_update;
          ticks = suc v.ticks;
          phase =
              tick-InPhase pf inp v.since_update v.ticks s.locals s.machine.can.tx normal v.phase;
        }
      ])

  -- Every step keeps the invariant.
  pub step-IsSound :
      (e : Event) (s s' : Firmware pf link) (effects : List Effect)
      → step pf link e s ≡ some (s', effects)
      → IsSound pf link s
      → IsSound pf link s'
  unfolding step board test_begin test_end ccu_rs485_test_set ccu_can_test_set can_state_change_cb
  step-IsSound (Event.packet p) s s' effects h v =
      elim (Option-cases (parser_round link p s.session)) [
        | inl stuck ↦ ground arith
        | inr (session', fed) ↦
            let same : s' ≡ record s { session = session' } = ground arith in
            subst (IsSound pf link) (sym same) (record {
              queue = v.queue;
              backed = v.backed;
              since_update = v.since_update;
              ticks = v.ticks;
              phase = v.phase;
            })
      ]
  step-IsSound (Event.tick dfu) s s' effects h v = tick-IsSound dfu s s' effects h v
  step-IsSound Event.get s s' effects h v = thread-IsSound TxEvent.get s s' effects tt h v
  step-IsSound (Event.sent ret) s s' effects h v =
      thread-IsSound (TxEvent.sent ret) s s' effects tt h v
  step-IsSound Event.take s s' effects h v = thread-IsSound TxEvent.take s s' effects tt h v
  step-IsSound Event.timeout s s' effects h v = thread-IsSound TxEvent.timeout s s' effects tt h v
  step-IsSound Event.finish s s' effects h v = thread-IsSound TxEvent.finish s s' effects tt h v
  step-IsSound (Event.callback error) s s' effects h v =
      thread-IsSound (TxEvent.callback error) s s' effects tt h v
  step-IsSound (Event.state_change CanState.bus_off) s s' effects h v =
      let purged : Tx pf = record (s.machine.can.tx) {
        queue = can_tx.purge s.machine.can.tx.queue;
      } in
      subst (IsSound pf link) (ap (λ o. (out s o).0) h) (
        aside-IsSound s (record (s.machine.can) { tx = purged }) (refl, refl, refl)
          (empty-IsQueue pf purged (can_tx.contents-purge s.machine.can.tx.queue)) v)
  step-IsSound Event.button s s' effects h v =
      let sent = ccu_can_test_send_all pf s.session.store.master_data s.machine.can.tx in
      let moved =
        aside-IsSound s (record (s.machine.can) { tx = sent; test_active = true })
          (refl, refl, refl)
          (test_frames-IsQueue s.session.store.master_data s.machine.can.tx v.queue) v in
      subst (IsSound pf link) (ap (λ o. (out s o).0) h) (record {
        queue = moved.queue;
        backed = moved.backed;
        since_update = v.since_update;
        ticks = v.ticks;
        phase = v.phase;
      })
  step-IsSound Event.button_end s s' effects h v =
      let moved =
        aside-IsSound s (record (s.machine.can) { test_active = false }) (refl, refl, refl) v.queue
          v in
      subst (IsSound pf link) (ap (λ o. (out s o).0) h) (record {
        queue = moved.queue;
        backed = moved.backed;
        since_update = v.since_update;
        ticks = v.ticks;
        phase = v.phase;
      })
  step-IsSound _ s s' effects h v = subst (IsSound pf link) (ap (λ o. (out s o).0) h) v

  -- Every run keeps it.
  pub run-IsSound :
      (es : List Event) (s s' : Firmware pf link) (effects : List Effect)
      → run pf link es s ≡ some (s', effects)
      → IsSound pf link s
      → IsSound pf link s'
  unfolding run
  run-IsSound [] s s' effects h v = subst (IsSound pf link) (ap (λ o. (out s o).0) h) v
  run-IsSound (e ∷ es) s s' effects h v =
      let (next, first, later, moved, rest, all) = run-cons pf link e es s s' effects h in
      run-IsSound es next s' later rest (step-IsSound e s next first moved v)

  pub booted-IsSound : IsSound pf link (booted pf link)
  booted-IsSound = record {
    queue =
        empty-IsQueue pf (record { queue = can_tx.empty; frame_counts = frame_counts_zero })
          can_tx.contents-empty;
    backed = boot-IsBacked pf (record { queue = can_tx.empty; frame_counts = frame_counts_zero });
    since_update = 0;
    ticks = 0;
    phase = locals_zero-InPhase;
  }

  -- From the start, after any sequence of steps of the threads, the driver, the handlers and the test
  -- button: the queue holds at most 32 frames, each of them an extended frame of at most eight data
  -- bytes; `can_frames_tx_ok` is (modulo 2^32) a number of frames that the driver has called back for
  -- and accepted; and the counters of the periodic thread stay below their limits.
  pub run-booted :
      (es : List Event) (s : Firmware pf link) (effects : List Effect)
      → run pf link es (booted pf link) ≡ some (s, effects)
      → IsQueue pf s.machine.can.tx
        × ((s.machine.can.frames_tx_ok ≡ u32 s.machine.ledger.oks)
            × (s.machine.ledger.oks ≤ s.machine.ledger.callbacks)
            × (s.machine.ledger.callbacks ≤ s.machine.ledger.accepted))
        × ((s.locals.cnt_100ms < 10)
            × (s.locals.cnt_1000ms < 100)
            × (s.locals.cnt_1s < 100)
            × (s.locals.cnt_unassign < 10))
  run-booted es s effects h =
      let v = run-IsSound es (booted pf link) s effects h booted-IsSound in
      (v.queue, omega (arith, v.backed), omega (arith, v.phase))
