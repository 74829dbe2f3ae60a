-- ===== src/System/Gateway/Events.antt =====
-- One event of the firmware against the same event of the gateway.
use zephyr_can_converter_uni.Prelude.{
  ℕ, suc, ◌≡◌, refl, ap, ap₂, ◌∙◌, sym, subst, true, false, Bool, List, [], ◌∷◌, ◌++◌, Option, none,
  some, arith, take, inl, inr, Option-cases,
}
use zephyr_can_converter_uni.Candef.{IsClassic}
use zephyr_can_converter_uni.Platform.{CanFrame, Platform}
use zephyr_can_converter_uni.Rs485.{Link, MasterData, Packet, start, parser_round}
use zephyr_can_converter_uni.Rs485.Stream.{feed_all, feed_all-append}
use zephyr_can_converter_uni.Rs485.Latest.{Part, held, held-feed_all}
use zephyr_can_converter_uni.Rs485.Content.{content, or_zero, stored-IsClean, feed_from-feed_all}
use zephyr_can_converter_uni.Frames.Delivery.{waiting}
use zephyr_can_converter_uni.Frames.Push.{push_all, frames_of, waiting-send_all}
use zephyr_can_converter_uni.Periodic.Phase.{
  InPhase, tick-InPhase, tick-InPhase_dfu, tick-due, tick_dfu, due,
}
use zephyr_can_converter_uni.Periodic.Sources.{is_round}
use zephyr_can_converter_uni.Periodic.Schedule.{asked, schedule, due-asked}
use zephyr_can_converter_uni.Can.{Effect, CanState, can_state_change_cb, ccu_can_test_set}
use zephyr_can_converter_uni.Can.TestFrames.{test_frames, ccu_can_test_send_all_lem}
use zephyr_can_converter_uni.Can.TxThread
use zephyr_can_converter_uni.Can.TxThread.{TxEvent}
use zephyr_can_converter_uni.Can.TxThread.Fifo.{fetched, step-get}
use zephyr_can_converter_uni.Board.{test_begin, ccu_rs485_test_set}
use zephyr_can_converter_uni.System.{Firmware, Event, step, thread, input, board}
use zephyr_can_converter_uni.System.Invariant.{out}
use zephyr_can_converter_uni.System.Kept.{IsQuiet, quiet-IsAside, step-IsKept, step-quiet}
use zephyr_can_converter_uni.System.Gateway
use zephyr_can_converter_uni.System.Gateway.{Gateway, latest, tested}

module _ (pf : Platform) (link : Link) where
  open pf use {candef, can_tx}

  -- The frame that an event hands to `can_send`, told from where the TX thread stands after it.
  abbrev pub handed_by : Event → Firmware pf link → List CanFrame
  handed_by Event.get s = fetched pf TxEvent.get s.machine.pc
  handed_by _ s = []

  pub record IsGateway (s : Firmware pf link) (g : Gateway) : Type 0 where
    pub session : s.session ≡ feed_all link g.received (start link)
    pub phase : InPhase g.since_update g.ticks s.locals
    pub queue : waiting pf s.machine.can.tx ≡ g.queue

  -- What the store has for a part is the last data for it.
  pub held-latest :
      (s : Firmware pf link) (g : Gateway)
      → IsGateway s g
      → (λ p. held p s.session.store.master_data) ≡ latest pf link g
  held-latest s g v = rw v.session (λ i p. held-feed_all link p g.received i)

  -- What a press of the test button sends.
  test_frames-tested :
      (d : MasterData)
      → ((p : Part) → content p d ≡ or_zero p (held p d))
      → test_frames d ≡ tested (λ p. held p d)
  test_frames-tested d c = ground (arith, c Part.measurements, c Part.status, c Part.faults)

  pub packet-IsGateway :
      (p : Option Packet) (s s' : Firmware pf link) (effects : List Effect) (g : Gateway)
      → step pf link (Event.packet p) s ≡ some (s', effects)
      → IsGateway s g
      → IsGateway s' (Gateway.step pf link (Event.packet p) g)
  unfolding step parser_round
  packet-IsGateway none s s' effects g h v =
      subst (λ t. IsGateway t g) (ap (λ o. (out pf link s o).0) h)
        (record { session = v.session; phase = v.phase; queue = v.queue })
  packet-IsGateway (some p) s s' effects g h v =
      elim (Option-cases (parser_round link (some p) s.session)) [
        | inl stuck ↦ absurd (ground arith)
        | inr (session', fed) ↦
            let same : s' ≡ record s { session = session' } = ground arith in
            let all = feed_from-feed_all link p.len p.bytes s.session session' fed in
            subst (λ t. IsGateway t (Gateway.step pf link (Event.packet (some p)) g)) (sym same)
              (record {
                session =
                    all
                    ∙ (ap (feed_all link (take p.len p.bytes)) v.session
                        ∙ sym (feed_all-append link g.received (take p.len p.bytes) (start link)));
                phase = v.phase;
                queue = v.queue;
              })
      ]

  pub tick-IsGateway :
      (dfu : Bool) (s s' : Firmware pf link) (effects : List Effect) (g : Gateway)
      → IsClassic candef
      → step pf link (Event.tick dfu) s ≡ some (s', effects)
      → IsGateway s g
      → IsGateway s' (Gateway.step pf link (Event.tick dfu) g)
  unfolding step input
  tick-IsGateway true s s' effects g cl h v =
      let inp = input pf link true s in
      let tx = s.machine.can.tx in
      subst (λ t. IsGateway t (record g { since_update = 0 })) (ap (λ o. (out pf link s o).0) h)
        (record {
          session = v.session;
          phase = tick-InPhase_dfu pf inp g.since_update g.ticks s.locals tx refl v.phase;
          queue = ap (waiting pf) (tick_dfu pf inp s.locals tx refl).0 ∙ v.queue;
        })
  tick-IsGateway false s s' effects g cl h v =
      let inp = input pf link false s in
      let tx = s.machine.can.tx in
      let d = s.session.store.master_data in
      let a : ℕ = suc g.since_update in
      let b : ℕ = suc g.ticks in
      let messages = asked (λ k. is_round k a b) (latest pf link g) schedule in
      let same : due a b d ≡ messages =
        due-asked a b d
        ∙ ap (λ part. asked (λ k. is_round k a b) part schedule) (held-latest s g v) in
      subst (λ t. IsGateway t (Gateway.step pf link (Event.tick false) g))
        (ap (λ o. (out pf link s o).0) h)
        (record {
          session = v.session;
          phase = tick-InPhase pf inp g.since_update g.ticks s.locals tx refl v.phase;
          queue =
              ap (waiting pf) (tick-due pf inp g.since_update g.ticks s.locals tx refl v.phase)
              ∙ (waiting-send_all pf (due a b d) tx cl
                  ∙ ap₂ (λ ms q. push_all (frames_of pf ms) q) same v.queue);
        })

  pub button-IsGateway :
      (s s' : Firmware pf link) (effects : List Effect) (g : Gateway)
      → IsClassic candef
      → step pf link Event.button s ≡ some (s', effects)
      → IsGateway s g
      → IsGateway s' (Gateway.step pf link Event.button g)
  unfolding step board test_begin ccu_rs485_test_set ccu_can_test_set
  button-IsGateway s s' effects g cl h v =
      let tx = s.machine.can.tx in
      let d = s.session.store.master_data in
      let clean : (p : Part) → content p d ≡ or_zero p (held p d) =
        rw v.session (stored-IsClean link g.received) in
      let same : test_frames d ≡ tested (latest pf link g) =
        test_frames-tested d clean ∙ ap tested (held-latest s g v) in
      subst (λ t. IsGateway t (Gateway.step pf link Event.button g))
        (ap (λ o. (out pf link s o).0) h)
        (record {
          session = v.session;
          phase = v.phase;
          queue =
              ap (waiting pf) (ccu_can_test_send_all_lem pf d tx)
              ∙ (waiting-send_all pf (test_frames d) tx cl
                  ∙ ap₂ (λ ms q. push_all (frames_of pf ms) q) same v.queue);
        })

  pub get-IsGateway :
      (s s' : Firmware pf link) (effects : List Effect) (g : Gateway)
      → step pf link Event.get s ≡ some (s', effects)
      → IsGateway s g
      → IsGateway s' (Gateway.step pf link Event.get g)
        × ((Gateway.step pf link Event.get g).handed ≡ g.handed ++ handed_by Event.get s')
  unfolding step thread
  get-IsGateway s s' effects g h v = elim (Option-cases (TxThread.step pf TxEvent.get s.machine)) [
    | inl stuck ↦ absurd (ground arith)
    | inr ((m, done), moved) ↦
        let same : s' ≡ record s { machine = m } = ground arith in
        let (f, handing, left) = step-get pf s.machine m done moved in
        let first : g.queue ≡ f ∷ waiting pf m.can.tx = sym v.queue ∙ left in
        let kept = ap (λ (t : Firmware pf link). t.session) same in
        (
          rw (same, first) (record { session = v.session; phase = v.phase; queue = refl }),
          rw (same, first, handing) refl,
        )
  ]

  -- What an event other than `get` does.
  pub other-IsGateway :
      (e : Event) (s s' : Firmware pf link) (effects : List Effect) (g : Gateway)
      → IsClassic candef
      → IsQuiet e
      → step pf link e s ≡ some (s', effects)
      → IsGateway s g
      → IsGateway s' g
  other-IsGateway e s s' effects g cl o h v =
      let kept = step-IsKept pf link e s s' effects (quiet-IsAside e o) h in
      record {
        session = kept.session ∙ v.session;
        phase = rw kept.locals v.phase;
        queue = step-quiet pf link e s s' effects o h ∙ v.queue;
      }

  pub bus_off-IsGateway :
      (s s' : Firmware pf link) (effects : List Effect) (g : Gateway)
      → step pf link (Event.state_change CanState.bus_off) s ≡ some (s', effects)
      → IsGateway s g
      → IsGateway s' (record g { queue = [] })
  unfolding step can_state_change_cb
  bus_off-IsGateway s s' effects g h v =
      subst (λ t. IsGateway t (record g { queue = [] })) (ap (λ o. (out pf link s o).0) h)
        (record {
          session = v.session;
          phase = v.phase;
          queue = can_tx.contents-purge s.machine.can.tx.queue;
        })
