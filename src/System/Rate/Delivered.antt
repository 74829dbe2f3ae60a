-- ===== src/System/Rate/Delivered.antt =====
-- Which frames of a kind come into the queue and to the driver, while the queue has room for them.
use zephyr_can_converter_uni.Prelude.{
  ℕ, suc, ◌+◌, ◌*◌, ◌≤◌, ◌≡◌, ◌≢◌, refl, sym, ap, ◌∙◌, subst, true, false, List, [], ◌∷◌, ◌++◌, map,
  append-nil, none, some, arith, u32, length, inl, inr, All, Option-cases,
}
use zephyr_can_converter_uni.Candef.{IsClassic}
use zephyr_can_converter_uni.Platform.{CanFrame, Platform, can_tx_depth}
use zephyr_can_converter_uni.Rs485.{Link, parser_round}
use zephyr_can_converter_uni.Frames.Delivery.{waiting}
use zephyr_can_converter_uni.Frames.Messages.{FrameKind, Message, kind, counter, frame_id}
use zephyr_can_converter_uni.Frames.Push.{frames_of, ids-frames_of}
use zephyr_can_converter_uni.Periodic.Arrival.{length-due}
use zephyr_can_converter_uni.Periodic.Phase.{tick-due, due}
use zephyr_can_converter_uni.Periodic.Rates.{occurrences, occurrences-append}
use zephyr_can_converter_uni.Periodic.Sources.{message_of, is_some, occurrences-due}
use zephyr_can_converter_uni.Periodic.Turns.{
  period, turns, is_round-turns, turns-period, known-ne_sync,
}
use zephyr_can_converter_uni.Can.{Effect, CanState}
use zephyr_can_converter_uni.Can.TxThread
use zephyr_can_converter_uni.Can.TxThread.{TxEvent}
use zephyr_can_converter_uni.Can.TxThread.Ahead.{send_all-IsAhead}
use zephyr_can_converter_uni.Can.TxThread.Fifo.{step-get}
use zephyr_can_converter_uni.System.{Firmware, Event, step, run, run-cons, booted, input, thread}
use zephyr_can_converter_uni.System.Invariant.{out, run-IsSound, booted-IsSound}
use zephyr_can_converter_uni.System.Kept.{step-quiet}
use zephyr_can_converter_uni.System.Knowledge.{count}
use zephyr_can_converter_uni.System.Writers.Joined.{joined, frames_of-append}
use zephyr_can_converter_uni.System.Gateway.Events.{handed_by}
use zephyr_can_converter_uni.System.Gateway.Refines.{handed}
use zephyr_can_converter_uni.System.Rate.{
  after, after_all, ticks, after_all-ticks, IsPaced, step-IsPaced, counter-run,
}

-- No press of the test button, no update, and no bus-off, which empties the queue.
abbrev pub IsCalm : Event → Type 0
IsCalm e = (e ≢ Event.button) × (e ≢ Event.tick true) × (e ≢ Event.state_change CanState.bus_off)

module _ (pf : Platform) (link : Link) where
  open pf use {candef}

  abbrev RoomAt : Event → Firmware pf link → Type 0
  RoomAt (Event.tick dfu) s = length (waiting pf s.machine.can.tx) + 16 ≤ can_tx_depth
  RoomAt _ s = Unit

  -- Each tick of a run finds room for sixteen frames in the queue.
  abbrev pub AllRoom : List Event → Firmware pf link → Type 0
  AllRoom [] s = Unit
  AllRoom (e ∷ es) s = elim (step pf link e s) [
    | none ↦ Unit
    | some (s', effects) ↦ RoomAt e s × AllRoom es s'
  ]

  -- Of what was sent, `turns'` less `turns` were of the kind; each frame of it was handed on or waits.
  record IsDelivered (k : FrameKind) (turns turns' : ℕ) (s s' : Firmware pf link)
      (handed : List CanFrame) : Type 0 where
    sent : List Message
    many : occurrences k sent + turns ≡ turns'
    conserved :
        waiting pf s.machine.can.tx ++ frames_of pf sent ≡ handed ++ waiting pf s'.machine.can.tx

  quiet-IsDelivered :
      (k : FrameKind) (n : ℕ) (s s' : Firmware pf link)
      → waiting pf s'.machine.can.tx ≡ waiting pf s.machine.can.tx
      → IsDelivered k n n s s' []
  unfolding occurrences
  quiet-IsDelivered k n s s' same = record {
    sent = [];
    many = omega arith;
    conserved = append-nil (waiting pf s.machine.can.tx) ∙ sym same;
  }

  tick-IsDelivered :
      (k : FrameKind) (x y a b : ℕ) (s s' : Firmware pf link) (effects : List Effect)
      → IsClassic candef
      → RoomAt (Event.tick false) s
      → step pf link (Event.tick false) s ≡ some (s', effects)
      → IsPaced pf link k x y a b s
      → IsDelivered k (turns k a b) (turns k (suc a) (suc b)) s s' []
  unfolding step input
  tick-IsDelivered k x y a b s s' effects cl room h v =
      let inp = input pf link false s in
      let tx = s.machine.can.tx in
      let d = s.session.store.master_data in
      let ms = due (suc a) (suc b) d in
      let all = send_all-IsAhead pf ms tx cl (omega (arith, length-due (suc a) (suc b) d)) in
      let once = rw v.here at (occurrences-due k (suc a) (suc b) d) in
      subst (λ t. IsDelivered k (turns k a b) (turns k (suc a) (suc b)) s t [])
        (ap (λ o. (out pf link s o).0) h)
        (record {
          sent = ms;
          many = omega (arith, once, is_round-turns k a b);
          conserved =
              sym (ap (waiting pf) (tick-due pf inp a b s.locals tx refl v.phase) ∙ all.queued);
        })

  get-IsDelivered :
      (k : FrameKind) (n : ℕ) (s s' : Firmware pf link) (effects : List Effect)
      → step pf link Event.get s ≡ some (s', effects)
      → IsDelivered k n n s s' (handed_by pf link Event.get s')
  unfolding step thread occurrences
  get-IsDelivered k n s s' effects h =
      elim (Option-cases (TxThread.step pf TxEvent.get s.machine)) [
        | inl stuck ↦ absurd (ground arith)
        | inr ((m, done), moved) ↦
            let same : s' ≡ record s { machine = m } = ground arith in
            let (f, handing, left) = step-get pf s.machine m done moved in
            rw same (record {
              sent = [];
              many = omega arith;
              conserved = append-nil (waiting pf s.machine.can.tx) ∙ rw handing left;
            })
      ]

  step-IsDelivered :
      (k : FrameKind) (x y a b : ℕ) (e : Event) (s s' : Firmware pf link) (effects : List Effect)
      → IsClassic candef
      → IsCalm e
      → RoomAt e s
      → step pf link e s ≡ some (s', effects)
      → IsPaced pf link k x y a b s
      → IsDelivered k (turns k a b) (turns k (after e a) (after e b)) s s' (handed_by pf link e s')
  unfolding step
  step-IsDelivered k x y a b (Event.packet p) s s' effects cl n room h v =
      elim (Option-cases (parser_round link p s.session)) [
        | inl stuck ↦ absurd (ground arith)
        | inr (session', fed) ↦
            let same : s' ≡ record s { session = session' } = ground arith in
            rw same (quiet-IsDelivered k (turns k a b) s (record s { session = session' }) refl)
      ]
  step-IsDelivered k x y a b (Event.tick true) s s' effects cl n room h v = absurd (n.1 refl)
  step-IsDelivered k x y a b (Event.tick false) s s' effects cl n room h v =
      tick-IsDelivered k x y a b s s' effects cl room h v
  step-IsDelivered k x y a b Event.button s s' effects cl n room h v = absurd (n.0 refl)
  step-IsDelivered k x y a b Event.get s s' effects cl n room h v =
      get-IsDelivered k (turns k a b) s s' effects h
  step-IsDelivered k x y a b (Event.state_change CanState.bus_off) s s' effects cl n room h v =
      absurd (n.2 refl)
  step-IsDelivered k x y a b e s s' effects cl n room h v =
      quiet-IsDelivered k (turns k a b) s s' (step-quiet pf link e s s' effects tt h)

  IsDelivered-then :
      (k : FrameKind) (n n' n'' : ℕ) (s t u : Firmware pf link) (h h' : List CanFrame)
      → IsDelivered k n n' s t h
      → IsDelivered k n' n'' t u h'
      → IsDelivered k n n'' s u (h ++ h')
  IsDelivered-then k n n' n'' s t u h h' a b = record {
    sent = a.sent ++ b.sent;
    many = omega (arith, a.many, b.many, occurrences-append k a.sent b.sent);
    conserved =
        ap (λ l. waiting pf s.machine.can.tx ++ l) (frames_of-append pf a.sent b.sent)
        ∙ joined pf (waiting pf s.machine.can.tx) (frames_of pf a.sent) (frames_of pf b.sent) h h'
            (waiting pf t.machine.can.tx) (waiting pf u.machine.can.tx) a.conserved b.conserved;
  }

  run-IsDelivered :
      (k : FrameKind) (x y a b : ℕ) (es : List Event) (s s' : Firmware pf link)
      (effects : List Effect)
      → IsClassic candef
      → All IsCalm es
      → AllRoom es s
      → run pf link es s ≡ some (s', effects)
      → IsPaced pf link k x y a b s
      → IsDelivered k
          (turns k a b)
          (turns k (after_all es a) (after_all es b))
          s
          s'
          (handed pf link es s)
  unfolding run
  run-IsDelivered k x y a b [] s s' effects cl n room h v =
      quiet-IsDelivered k (turns k a b) s s'
        (ap (λ o. waiting pf (out pf link s o).0.machine.can.tx) (sym h))
  run-IsDelivered k x y a b (e ∷ es) s s' effects cl n room h v =
      let (next, first, later, moved, rest, all) = run-cons pf link e es s s' effects h in
      let (here, further) : RoomAt e s × AllRoom es next = rw (moved, AllRoom) at room in
      let now = step-IsDelivered k x y a b e s next first cl n.0 here moved v in
      let paced = step-IsPaced pf link k x y a b e s next first (n.0.0, n.0.1) moved v in
      let behind =
        run-IsDelivered k x y (after e a) (after e b) es next s' later cl n.1 further rest paced in
      let whole : handed_by pf link e next ++ handed pf link es next ≡ handed pf link (e ∷ es) s =
        rw (moved, handed) in
      subst
        (IsDelivered k (turns k a b) (turns k (after_all (e ∷ es) a) (after_all (e ∷ es) b)) s s')
        whole
        (IsDelivered-then k _ _ _ s next s' (handed_by pf link e next) (handed pf link es next) now
          behind)

  calm-steady :
      (es : List Event) → All IsCalm es → All (λ e. (e ≢ Event.button) × (e ≢ Event.tick true)) es
  calm-steady [] n = tt
  calm-steady (e ∷ es) n = ((n.0.0, n.0.1), calm-steady es n.1)

  -- From the start, after any events that leave the part of the store valid that a kind of frame is
  -- made of, and if the frames fit a classical CAN bus: over further events without a press of the
  -- test button, an update or a bus-off, in which the periodic thread has as many rounds as `m` periods
  -- of the kind take by the comments of the thread, each with room for sixteen frames in the queue, the
  -- frames of some messages are sent, of which exactly `m` are of the kind. The frames that waited
  -- before, followed by these, are the frames that were handed to `can_send` in between, followed by
  -- those that still wait; each has the identifier of its message's kind, and the counter of the kind
  -- has grown by `m`, modulo 2^32. All this is so whatever else the threads, the driver and the line
  -- do.
  pub run-rate :
      (k : FrameKind) (es es' : List Event) (s s' : Firmware pf link)
      (effects effects' : List Effect) (m : ℕ)
      → IsClassic candef
      → run pf link es (booted pf link) ≡ some (s, effects)
      → is_some (message_of k s.session.store.master_data) ≡ true
      → All IsCalm es'
      → AllRoom es' s
      → ticks es' ≡ m * period k
      → run pf link es' s ≡ some (s', effects')
      → (sent : List Message) × (occurrences k sent ≡ m)
        × (waiting pf s.machine.can.tx ++ frames_of pf sent
            ≡ handed pf link es' s ++ waiting pf s'.machine.can.tx)
        × (map (λ (f : CanFrame). f.id) (frames_of pf sent) ≡ map (λ x. frame_id pf (kind x)) sent)
        × (u32 (counter k s'.machine.can.tx.frame_counts)
            ≡ u32 (counter k s.machine.can.tx.frame_counts + m))
  run-rate k es es' s s' effects effects' m cl h here calm room many h' =
      let sound = run-IsSound pf link es (booted pf link) s effects h (booted-IsSound pf link) in
      let a : ℕ = sound.since_update in
      let b : ℕ = sound.ticks in
      let end =
        run-IsDelivered k (turns k a b) (count pf link k s) a b es' s s' effects' cl calm room h'
          (record { here = here; phase = sound.phase; paced = refl }) in
      let at_a : after_all es' a ≡ m * period k + a =
        after_all-ticks es' a ∙ ap (λ n. n + a) many in
      let at_b : after_all es' b ≡ m * period k + b =
        after_all-ticks es' b ∙ ap (λ n. n + b) many in
      let all = rw (at_a, at_b) at end.many in
      (
        end.sent,
        omega (arith, all, turns-period k a b m (known-ne_sync k s.session.store.master_data here)),
        end.conserved,
        ids-frames_of pf end.sent cl,
        counter-run pf link k es es' s s' effects effects' m h here (calm-steady es' calm) many h',
      )
