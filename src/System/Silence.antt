-- ===== src/System/Silence.antt =====
-- What the firmware does not send: frames of data that never came in.
use zephyr_can_converter_uni.Prelude.{
  ℕ, suc, ◌≡◌, ◌≢◌, ◌⊎◌, refl, ap, ◌∙◌, sym, subst, Bool, true, false, List, [], ◌∷◌, none, some,
  arith, inl, inr, All, Option-cases, Bool-cases,
}
use mathlib.Core.Logic.{if_neg}
use zephyr_can_converter_uni.Platform.{Platform}
use zephyr_can_converter_uni.Rs485.{Link, parser_round}
use zephyr_can_converter_uni.Frames.{Tx}
use zephyr_can_converter_uni.Frames.Messages.{FrameKind, Message, kind, counter, send, send_all}
use zephyr_can_converter_uni.Frames.Counts.{FrameKind-discrete, counter-send}
use zephyr_can_converter_uni.Periodic.Rates.{
  counter-zero, occurrences, occurrences-cons_self, occurrences-cons_ne,
}
use zephyr_can_converter_uni.Can.{Effect}
use zephyr_can_converter_uni.System.Kept.{IsKept, step-IsKept}
use zephyr_can_converter_uni.System.Knowledge.{known, count, parser_round-known}
use zephyr_can_converter_uni.System.Invariant.{out, IsSound, step-IsSound, booted-IsSound}
use zephyr_can_converter_uni.System.{Firmware, Event, step, run, run-cons, booted, input}
use zephyr_can_converter_uni.Periodic.Sources.{message_of, occurrences-due}
use zephyr_can_converter_uni.Periodic.{tick}
use zephyr_can_converter_uni.Periodic.Phase.{InPhase, tick-due, tick_dfu, due}

module _ (pf : Platform) (link : Link) where
  -- Data for the kind came in, or no frame of it was sent.
  abbrev IsSilent : FrameKind → Firmware pf link → Type 0
  IsSilent k s = (known pf link k s ≡ true) ⊎ (count pf link k s ≡ 0)

  counter-send_all_none :
      (k : FrameKind) (ms : List Message) (tx : Tx pf)
      → occurrences k ms ≡ 0
      → counter k (send_all pf ms tx).frame_counts ≡ counter k tx.frame_counts
  unfolding send_all
  counter-send_all_none k [] tx h = refl
  counter-send_all_none k (m ∷ ms) tx h = elim (FrameKind-discrete k (kind m)) [
    | yes same ↦ absurd (omega (arith, occurrences-cons_self k m ms same))
    | no other ↦
        counter-send_all_none k ms (send pf m tx) (sym (occurrences-cons_ne k m ms other) ∙ h)
        ∙ (counter-send pf k m tx ∙ if_neg (FrameKind-discrete k (kind m)) other _ _)
  ]

  tick-IsSilent :
      (k : FrameKind) (dfu : Bool) (s : Firmware pf link) (a b : ℕ)
      → InPhase a b s.locals
      → IsSilent k s
      → (known pf link k s ≡ true)
        ⊎ (counter k (tick pf (input pf link dfu s) s.locals s.machine.can.tx).1.frame_counts ≡ 0)
  unfolding input
  tick-IsSilent k dfu s a b p v =
      let inp = input pf link dfu s in
      let d = s.session.store.master_data in
      let tx = s.machine.can.tx in
      elim v [
        | inl here ↦ inl here
        | inr zero_now ↦ elim (Bool-cases (known pf link k s)) [
          | inl here ↦ inl here
          | inr unknown ↦ inr (elim (Bool-cases dfu) [
            | inl update ↦
                ap (λ (t : Tx pf). counter k t.frame_counts) (tick_dfu pf inp s.locals tx update).0
                ∙ zero_now
            | inr normal ↦
                let absent : occurrences k (due (suc a) (suc b) d) ≡ 0 =
                  rw (occurrences-due k (suc a) (suc b) d, unknown) (ground arith) in
                ap (λ (t : Tx pf). counter k t.frame_counts)
                  (tick-due pf inp a b s.locals tx normal p)
                ∙ (counter-send_all_none k (due (suc a) (suc b) d) tx absent ∙ zero_now)
          ])
        ]
      ]

  kept-IsSilent :
      (k : FrameKind) (s s' : Firmware pf link) → IsKept pf link s s' → IsSilent k s → IsSilent k s'
  kept-IsSilent k s s' kept v = elim v [
    | inl here ↦ inl (rw kept.session here)
    | inr zero_now ↦ inr (rw kept.counts zero_now)
  ]

  step-IsSilent :
      (k : FrameKind) (e : Event) (s s' : Firmware pf link) (effects : List Effect)
      → e ≢ Event.button
      → step pf link e s ≡ some (s', effects)
      → IsSound pf link s
      → IsSilent k s
      → IsSilent k s'
  unfolding step
  step-IsSilent k (Event.packet p) s s' effects n h sound v =
      elim (Option-cases (parser_round link p s.session)) [
        | inl stuck ↦ ground arith
        | inr (session', fed) ↦
            let same : s' ≡ record s { session = session' } = ground arith in
            subst (IsSilent k) (sym same) (elim v [
              | inl here ↦ inl (parser_round-known pf link k p s.session session' fed here)
              | inr zero_now ↦ inr zero_now
            ])
      ]
  step-IsSilent k (Event.tick dfu) s s' effects n h sound v =
      subst (IsSilent k) (ap (λ o. (out pf link s o).0) h)
        (tick-IsSilent k dfu s sound.since_update sound.ticks sound.phase v)
  step-IsSilent k Event.button s s' effects n h sound v = absurd (n refl)
  step-IsSilent k e s s' effects n h sound v =
      kept-IsSilent k s s' (step-IsKept pf link e s s' effects tt h) v

  run-IsSilent :
      (k : FrameKind) (es : List Event) (s s' : Firmware pf link) (effects : List Effect)
      → All (λ e. e ≢ Event.button) es
      → run pf link es s ≡ some (s', effects)
      → IsSound pf link s
      → IsSilent k s
      → IsSilent k s'
  unfolding run
  run-IsSilent k [] s s' effects n h sound v =
      subst (IsSilent k) (ap (λ o. (out pf link s o).0) h) v
  run-IsSilent k (e ∷ es) s s' effects n h sound v =
      let (next, first, later, moved, rest, all) = run-cons pf link e es s s' effects h in
      run-IsSilent k es next s' later n.1 rest (step-IsSound pf link e s next first moved sound)
        (step-IsSilent k e s next first n.0 moved sound v)

  -- From the start, after any sequence of events without a press of the test button: while the part of
  -- the store that a kind of frame is made of is not valid, no frame of the kind has been sent.
  pub run-unknown :
      (k : FrameKind) (es : List Event) (s : Firmware pf link) (effects : List Effect)
      → All (λ e. e ≢ Event.button) es
      → run pf link es (booted pf link) ≡ some (s, effects)
      → message_of k s.session.store.master_data ≡ none
      → counter k s.machine.can.tx.frame_counts ≡ 0
  run-unknown k es s effects n h unknown =
      elim (run-IsSilent k es (booted pf link) s effects n h (booted-IsSound pf link)
        (inr (counter-zero k))) [
          | inl here ↦ absurd (not_known (rw unknown at here))
          | inr zero_now ↦ zero_now
        ]
    where
      not_known : false ≡ true → ⊥
      not_known wrong = cc
