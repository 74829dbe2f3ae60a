-- ===== src/System/Gateway/Refines.antt =====
-- The firmware does what the gateway does.
use zephyr_can_converter_uni.Prelude.{
  ◌≡◌, refl, ap, ◌∙◌, sym, subst, true, false, List, [], ◌∷◌, ◌++◌, append-nil, append_assoc, none,
  some,
}
use zephyr_can_converter_uni.Candef.{IsClassic}
use zephyr_can_converter_uni.Platform.{CanFrame, Platform}
use zephyr_can_converter_uni.Rs485.{Link}
use zephyr_can_converter_uni.Rs485.Stream.{feed_all}
use zephyr_can_converter_uni.Rs485.Latest.{Part, held}
use zephyr_can_converter_uni.Frames.Delivery.{waiting}
use zephyr_can_converter_uni.Periodic.Phase.{locals_zero-InPhase}
use zephyr_can_converter_uni.Can.{Effect, CanState}
use zephyr_can_converter_uni.System.{Firmware, Event, step, run, run-cons, booted}
use zephyr_can_converter_uni.System.Invariant.{out}
use zephyr_can_converter_uni.System.Gateway
use zephyr_can_converter_uni.System.Gateway.{Gateway, latest, tested}
use zephyr_can_converter_uni.System.Gateway.Events.{
  handed_by, IsGateway, held-latest, packet-IsGateway, tick-IsGateway, button-IsGateway,
  get-IsGateway, other-IsGateway, bus_off-IsGateway,
}

module _ (pf : Platform) (link : Link) where
  open pf use {candef, can_tx}

  -- The frames that a run hands to `can_send`, in order.
  abbrev pub handed : List Event → Firmware pf link → List CanFrame
  handed [] s = []
  handed (e ∷ es) s = elim (step pf link e s) [
    | none ↦ []
    | some (s', effects) ↦ handed_by pf link e s' ++ handed es s'
  ]

  step-IsGateway :
      (e : Event) (s s' : Firmware pf link) (effects : List Effect) (g : Gateway)
      → IsClassic candef
      → step pf link e s ≡ some (s', effects)
      → IsGateway pf link s g
      → IsGateway pf link s' (Gateway.step pf link e g)
        × ((Gateway.step pf link e g).handed ≡ g.handed ++ handed_by pf link e s')
  step-IsGateway Event.get s s' effects g cl h v = get-IsGateway pf link s s' effects g h v
  step-IsGateway (Event.packet none) s s' effects g cl h v =
      (packet-IsGateway pf link none s s' effects g h v, sym (append-nil g.handed))
  step-IsGateway (Event.packet (some p)) s s' effects g cl h v =
      (packet-IsGateway pf link (some p) s s' effects g h v, sym (append-nil g.handed))
  step-IsGateway (Event.tick true) s s' effects g cl h v =
      (tick-IsGateway pf link true s s' effects g cl h v, sym (append-nil g.handed))
  step-IsGateway (Event.tick false) s s' effects g cl h v =
      (tick-IsGateway pf link false s s' effects g cl h v, sym (append-nil g.handed))
  step-IsGateway Event.button s s' effects g cl h v =
      (button-IsGateway pf link s s' effects g cl h v, sym (append-nil g.handed))
  step-IsGateway (Event.state_change CanState.bus_off) s s' effects g cl h v =
      (bus_off-IsGateway pf link s s' effects g h v, sym (append-nil g.handed))
  step-IsGateway e s s' effects g cl h v =
      (other-IsGateway pf link e s s' effects g cl tt h v, sym (append-nil g.handed))

  run-IsGateway :
      (es : List Event) (s s' : Firmware pf link) (effects : List Effect) (g : Gateway)
      → IsClassic candef
      → run pf link es s ≡ some (s', effects)
      → IsGateway pf link s g
      → IsGateway pf link s' (Gateway.run pf link es g)
        × ((Gateway.run pf link es g).handed ≡ g.handed ++ handed es s)
  unfolding run
  run-IsGateway [] s s' effects g cl h v = (
    subst (λ t. IsGateway pf link t g) (ap (λ o. (out pf link s o).0) h) v,
    sym (append-nil g.handed),
  )
  run-IsGateway (e ∷ es) s s' effects g cl h v =
      let (next, first, later, moved, rest, all) = run-cons pf link e es s s' effects h in
      let (v', one) = step-IsGateway e s next first g cl moved v in
      let (v'', many) = run-IsGateway es next s' later (Gateway.step pf link e g) cl rest v' in
      let joined : handed_by pf link e next ++ handed es next ≡ handed (e ∷ es) s =
        rw (moved, handed) in
      (
        v'',
        many
            ∙ (ap (λ l. l ++ handed es next) one
                ∙ (append_assoc g.handed (handed_by pf link e next) (handed es next)
                    ∙ ap (λ l. g.handed ++ l) joined)),
      )

  booted-IsGateway : IsGateway pf link (booted pf link) Gateway.idle
  unfolding feed_all
  booted-IsGateway = record {
    session = refl;
    phase = locals_zero-InPhase;
    queue = can_tx.contents-empty;
  }

  -- The firmware refines the gateway. From the start, after any sequence of steps of the threads, the
  -- driver, the handlers and the test button, if the frames fit a classical CAN bus: the queue holds
  -- what waits in the gateway after these events, the frames that were handed to `can_send` are those
  -- that the gateway handed on, in the same order, and the store holds the last data for each part.
  pub run-refines :
      (es : List Event) (s : Firmware pf link) (effects : List Effect)
      → IsClassic candef
      → run pf link es (booted pf link) ≡ some (s, effects)
      → let g = Gateway.run pf link es Gateway.idle in
        (waiting pf s.machine.can.tx ≡ g.queue)
        × (handed es (booted pf link) ≡ g.handed)
        × ((p : Part) → held p s.session.store.master_data ≡ latest pf link g p)
  run-refines es s effects cl h =
      let (v, all) =
        run-IsGateway es (booted pf link) s effects Gateway.idle cl h booted-IsGateway in
      let same = held-latest pf link s (Gateway.run pf link es Gateway.idle) v in
      (v.queue, sym all, (λ p i. same i p))
