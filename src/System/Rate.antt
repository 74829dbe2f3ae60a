-- ===== src/System/Rate.antt =====
-- How fast the firmware as a whole sends the frames of a kind once it has data for it.
pub mod Delivered
use zephyr_can_converter_uni.Prelude.{
  ℕ, suc, ◌+◌, ◌*◌, ◌≡◌, ◌≢◌, refl, sym, ap, ◌∙◌, subst, true, false, List, [], ◌∷◌, some, arith,
  u32, inl, inr, All, Option-cases,
}
use zephyr_can_converter_uni.Platform.{Platform}
use zephyr_can_converter_uni.Rs485.{Link, parser_round}
use zephyr_can_converter_uni.Frames.Messages.{FrameKind, counter}
use zephyr_can_converter_uni.Periodic.Phase.{InPhase, tick-InPhase}
use zephyr_can_converter_uni.Periodic.Sources.{message_of, is_some, counter-tick}
use zephyr_can_converter_uni.Can.{Effect}
use zephyr_can_converter_uni.System.{Firmware, Event, step, run, run-cons, booted, input}
use zephyr_can_converter_uni.System.Invariant.{out, run-IsSound, booted-IsSound}
use zephyr_can_converter_uni.Periodic.Turns.{
  period, turns, is_round-turns, turns-period, known-ne_sync,
}
use zephyr_can_converter_uni.System.Kept.{IsKept, step-IsKept}
use zephyr_can_converter_uni.System.Knowledge.{known, count, parser_round-known}

-- The number of a tick after an event, and after some events.
abbrev pub after : Event → ℕ → ℕ
after (Event.tick dfu) a = suc a
after _ a = a

abbrev pub after_all : List Event → ℕ → ℕ
after_all [] a = a
after_all (e ∷ es) a = after_all es (after e a)

-- How many of the events are ticks of the periodic thread.
abbrev pub ticks : List Event → ℕ
ticks [] = 0
ticks (Event.tick dfu ∷ es) = 1 + ticks es
ticks (_ ∷ es) = ticks es

pub after_all-ticks : (es : List Event) (a : ℕ) → after_all es a ≡ ticks es + a
after_all-ticks [] a = omega arith
after_all-ticks (Event.tick dfu ∷ es) a = omega (arith, after_all-ticks es (suc a))
after_all-ticks (e ∷ es) a = after_all-ticks es a

module _ (pf : Platform) (link : Link) where
  -- A state in phase that knows the kind, `x` its counter less the turns before.
  pub record IsPaced (k : FrameKind) (x y a b : ℕ) (s : Firmware pf link) : Type 0 where
    pub here : known pf link k s ≡ true
    pub phase : InPhase a b s.locals
    pub paced : u32 (count pf link k s + x) ≡ u32 (y + turns k a b)

  tick-IsPaced :
      (k : FrameKind) (x y a b : ℕ) (s s' : Firmware pf link) (effects : List Effect)
      → step pf link (Event.tick false) s ≡ some (s', effects)
      → IsPaced k x y a b s
      → IsPaced k x y (suc a) (suc b) s'
  unfolding step input
  tick-IsPaced k x y a b s s' effects h v =
      let inp = input pf link false s in
      let tx = s.machine.can.tx in
      let grown = counter-tick pf k inp a b s.locals tx refl v.phase in
      let grown' = rw v.here at grown in
      subst (IsPaced k x y (suc a) (suc b)) (ap (λ o. (out pf link s o).0) h) (record {
        here = v.here;
        phase = tick-InPhase pf inp a b s.locals tx refl v.phase;
        paced = omega (arith, grown', v.paced, is_round-turns k a b);
      })

  kept-IsPaced :
      (k : FrameKind) (x y a b : ℕ) (s s' : Firmware pf link)
      → IsKept pf link s s'
      → IsPaced k x y a b s
      → IsPaced k x y a b s'
  kept-IsPaced k x y a b s s' kept v = record {
    here = rw kept.session v.here;
    phase = rw kept.locals v.phase;
    paced = rw kept.counts v.paced;
  }

  pub step-IsPaced :
      (k : FrameKind) (x y a b : ℕ) (e : Event) (s s' : Firmware pf link) (effects : List Effect)
      → (e ≢ Event.button) × (e ≢ Event.tick true)
      → step pf link e s ≡ some (s', effects)
      → IsPaced k x y a b s
      → IsPaced k x y (after e a) (after e b) s'
  unfolding step
  step-IsPaced k x y a b (Event.packet p) s s' effects n h v =
      elim (Option-cases (parser_round link p s.session)) [
        | inl stuck ↦ ground arith
        | inr (session', fed) ↦
            let same : s' ≡ record s { session = session' } = ground arith in
            subst (IsPaced k x y a b) (sym same) (record {
              here = parser_round-known pf link k p s.session session' fed v.here;
              phase = v.phase;
              paced = v.paced;
            })
      ]
  step-IsPaced k x y a b (Event.tick true) s s' effects n h v = absurd (n.1 refl)
  step-IsPaced k x y a b (Event.tick false) s s' effects n h v =
      tick-IsPaced k x y a b s s' effects h v
  step-IsPaced k x y a b Event.button s s' effects n h v = absurd (n.0 refl)
  step-IsPaced k x y a b e s s' effects n h v =
      kept-IsPaced k x y a b s s' (step-IsKept pf link e s s' effects tt h) v

  run-IsPaced :
      (k : FrameKind) (x y a b : ℕ) (es : List Event) (s s' : Firmware pf link)
      (effects : List Effect)
      → All (λ e. (e ≢ Event.button) × (e ≢ Event.tick true)) es
      → run pf link es s ≡ some (s', effects)
      → IsPaced k x y a b s
      → IsPaced k x y (after_all es a) (after_all es b) s'
  unfolding run
  run-IsPaced k x y a b [] s s' effects n h v =
      subst (IsPaced k x y a b) (ap (λ o. (out pf link s o).0) h) v
  run-IsPaced k x y a b (e ∷ es) s s' effects n h v =
      let (next, first, later, moved, rest, all) = run-cons pf link e es s s' effects h in
      run-IsPaced k x y (after e a) (after e b) es next s' later n.1 rest
        (step-IsPaced k x y a b e s next first n.0 moved v)

  -- The counter of a kind while nobody presses the test button; it counts lost frames too.
  pub counter-run :
      (k : FrameKind) (es es' : List Event) (s s' : Firmware pf link)
      (effects effects' : List Effect) (m : ℕ)
      → run pf link es (booted pf link) ≡ some (s, effects)
      → is_some (message_of k s.session.store.master_data) ≡ true
      → All (λ e. (e ≢ Event.button) × (e ≢ Event.tick true)) es'
      → ticks es' ≡ m * period k
      → run pf link es' s ≡ some (s', effects')
      → u32 (counter k s'.machine.can.tx.frame_counts)
        ≡ u32 (counter k s.machine.can.tx.frame_counts + m)
  counter-run k es es' s s' effects effects' m h here calm many h' =
      let sound = run-IsSound pf link es (booted pf link) s effects h (booted-IsSound pf link) in
      let a : ℕ = sound.since_update in
      let b : ℕ = sound.ticks in
      let end =
        run-IsPaced k (turns k a b) (count pf link k s) a b es' s s' effects' calm h'
          (record { here = here; phase = sound.phase; paced = refl }) in
      let at_a : after_all es' a ≡ m * period k + a =
        after_all-ticks es' a ∙ ap (λ n. n + a) many in
      let at_b : after_all es' b ≡ m * period k + b =
        after_all-ticks es' b ∙ ap (λ n. n + b) many in
      let paced = rw (at_a, at_b) at end.paced in
      omega (arith, paced, turns-period k a b m (known-ne_sync k s.session.store.master_data here))
