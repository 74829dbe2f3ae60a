-- ===== src/Periodic/Window.antt =====
-- One tick of the periodic thread against the window of 100 ticks that a report covers.
use zephyr_can_converter_uni.Prelude.{
  ℕ, suc, ◌+◌, ◌*◌, ◌/◌, ◌%◌, ◌<◌, ◌≡◌, ◌≢◌, refl, ap, ◌∙◌, sym, subst, false, List, [], ◌∷◌,
  Option, none, some, arith, u32, sub32, ◌==◌, if◌then◌else◌, inl, inr, Bool-cases,
}
use mathlib.Core.Logic.{ite}
use zephyr_can_converter_uni.Platform.{Platform}
use zephyr_can_converter_uni.Frames.{FrameCounts, Tx}
use zephyr_can_converter_uni.Frames.Messages.{FrameKind, Message, kind, counter, send, send_all}
use zephyr_can_converter_uni.Frames.Counts.{FrameKind-discrete, counter-send}
use zephyr_can_converter_uni.Periodic.{Locals, Input, Hz, hz, Report, tick}
use zephyr_can_converter_uni.Periodic.Phase.{due, InPhase, tick-due}
use zephyr_can_converter_uni.Periodic.Rates.{IsLive, expected, expected-due, counter-send_all}

-- The difference of two counters is what was counted in between.
sub32_exact :
    (x p s : ℕ)
    → x < 4294967296
    → p < 4294967296
    → s < 4294967296
    → u32 x ≡ u32 (p + s)
    → sub32 x p ≡ s
sub32_exact x p s hx hp hs e = omega arith

-- The rates of a second in which all data was valid.
abbrev pub steady : Hz
steady = record {
  mcu_state = expected FrameKind.mcu_state 100;
  mcu_faults = expected FrameKind.mcu_faults 100;
  mcu_analog_speed = expected FrameKind.mcu_analog_speed 100;
  mcu_analog_powertrain = expected FrameKind.mcu_analog_powertrain 100;
  mcu_analog_fuel_cell = expected FrameKind.mcu_analog_fuel_cell 100;
  mcu_analog_accessory = expected FrameKind.mcu_analog_accessory 100;
  mcu_analog_pedals = expected FrameKind.mcu_analog_pedals 100;
  mcu_inputs = expected FrameKind.mcu_inputs 100;
  protium_state = expected FrameKind.protium_state 100;
  protium_power = expected FrameKind.protium_power 100;
  protium_thermal = expected FrameKind.protium_thermal 100;
  protium_hydrogen = expected FrameKind.protium_hydrogen 100;
  protium_setpoints = expected FrameKind.protium_setpoints 100;
  protium_stasis = expected FrameKind.protium_stasis 100;
  protium_misc = expected FrameKind.protium_misc 100;
}

-- The kinds that the report prints are sent equally often in every full window of 100 ticks.
expected-window :
    (k : FrameKind) (b : ℕ)
    → k ≢ FrameKind.mcu_analog_unassigned
    → suc b % 100 ≡ 0
    → expected k (suc b) ≡ expected k (b / 100 * 100) + expected k 100
expected-window FrameKind.mcu_state b h e = omega arith
expected-window FrameKind.mcu_analog_unassigned b h e = absurd (h refl)
expected-window k b h e = omega arith

expected-lt : (k : FrameKind) → expected k 100 < 4294967296
expected-lt FrameKind.mcu_state = omega arith
expected-lt k = omega arith

-- Since the last report, at the last multiple of 100 ticks, the counters have grown as expected.
pub record InWindow (b : ℕ) (l : Locals) (c : FrameCounts) : Type 0 where
  pub small : (k : FrameKind) → counter k c < 4294967296
  pub small_prev : (k : FrameKind) → counter k l.prev_frames < 4294967296
  pub grown :
      (k : FrameKind)
      → u32 (counter k c + expected k (b / 100 * 100))
        ≡ u32 (counter k l.prev_frames + expected k b)

module _ (pf : Platform) where
  send_all-small :
      (k : FrameKind) (ms : List Message) (tx : Tx pf)
      → counter k tx.frame_counts < 4294967296
      → counter k (send_all pf ms tx).frame_counts < 4294967296
  unfolding send_all
  send_all-small k [] tx h = h
  send_all-small k (m ∷ ms) tx h =
      send_all-small k ms (send pf m tx)
        (rw (counter-send pf k m tx) (small (FrameKind-discrete k (kind m))))
    where
      small :
          (d : Dec (k ≡ kind m))
          → ite d (u32 (counter k tx.frame_counts + 1)) (counter k tx.frame_counts) < 4294967296
      small (yes p) = omega arith
      small (no p) = h

  abbrev pub rates_of : Option Report → Option Hz
  rates_of none = none
  rates_of (some r) = some r.rates

  -- A report is made at every hundredth tick; it compares with the counters of the last one.
  tick-report :
      (inp : Input) (a b : ℕ) (l : Locals) (tx : Tx pf)
      → inp.dfu_active ≡ false
      → InPhase a b l
      → let r = tick pf inp l tx in
        (rates_of r.2
          ≡ (if suc b % 100 == 0 then some (hz r.1.frame_counts l.prev_frames) else none))
        × (r.0.prev_frames ≡ (if suc b % 100 == 0 then r.1.frame_counts else l.prev_frames))
  unfolding tick
  tick-report inp a b l tx run p = ground arith

  -- A tick in which all data is valid.
  module _ (inp : Input) (a : ℕ) (l : Locals) (tx : Tx pf) (live : IsLive inp) (p : InPhase a a l)
      (w : InWindow a l tx.frame_counts) where
    abbrev pub after : FrameCounts
    after = (tick pf inp l tx).1.frame_counts

    sends :
        (k : FrameKind)
        → u32 (counter k after + expected k a)
          ≡ u32 (counter k tx.frame_counts + expected k (suc a))
    sends k = omega (
      arith,
      ap (λ (t : Tx pf). u32 (counter k t.frame_counts)) (tick-due pf inp a a l tx live.normal p),
      counter-send_all pf k (due (suc a) (suc a) inp.master_data) tx,
      expected-due k a inp live,
    )

    stays_small : (k : FrameKind) → counter k after < 4294967296
    stays_small k =
        subst (λ (t : Tx pf). counter k t.frame_counts < 4294967296)
          (sym (tick-due pf inp a a l tx live.normal p))
          (send_all-small k (due (suc a) (suc a) inp.master_data) tx (w.small k))

    exact :
        suc a % 100 ≡ 0
        → (k : FrameKind) → k ≢ FrameKind.mcu_analog_unassigned
        → sub32 (counter k after) (counter k l.prev_frames) ≡ expected k 100
    exact e k printed =
        sub32_exact (counter k after) (counter k l.prev_frames) (expected k 100) (stays_small k)
          (w.small_prev k) (expected-lt k)
          (omega (arith, sends k, w.grown k, expected-window k a printed e))

    hz-steady : suc a % 100 ≡ 0 → hz after l.prev_frames ≡ steady
    hz-steady e = λ i. record {
      mcu_state = exact e FrameKind.mcu_state (λ q. cc) i;
      mcu_faults = exact e FrameKind.mcu_faults (λ q. cc) i;
      mcu_analog_speed = exact e FrameKind.mcu_analog_speed (λ q. cc) i;
      mcu_analog_powertrain = exact e FrameKind.mcu_analog_powertrain (λ q. cc) i;
      mcu_analog_fuel_cell = exact e FrameKind.mcu_analog_fuel_cell (λ q. cc) i;
      mcu_analog_accessory = exact e FrameKind.mcu_analog_accessory (λ q. cc) i;
      mcu_analog_pedals = exact e FrameKind.mcu_analog_pedals (λ q. cc) i;
      mcu_inputs = exact e FrameKind.mcu_inputs (λ q. cc) i;
      protium_state = exact e FrameKind.protium_state (λ q. cc) i;
      protium_power = exact e FrameKind.protium_power (λ q. cc) i;
      protium_thermal = exact e FrameKind.protium_thermal (λ q. cc) i;
      protium_hydrogen = exact e FrameKind.protium_hydrogen (λ q. cc) i;
      protium_setpoints = exact e FrameKind.protium_setpoints (λ q. cc) i;
      protium_stasis = exact e FrameKind.protium_stasis (λ q. cc) i;
      protium_misc = exact e FrameKind.protium_misc (λ q. cc) i;
    }

    pub tick-InWindow :
        InWindow (suc a) (tick pf inp l tx).0 after
        × (rates_of (tick pf inp l tx).2 ≡ (if suc a % 100 == 0 then some steady else none))
    tick-InWindow = elim (Bool-cases (suc a % 100 == 0)) [
      | inl full ↦
          let e : suc a % 100 ≡ 0 = ground arith in
          let whole : suc a / 100 * 100 ≡ suc a = omega arith in
          let report = tick-report inp a a l tx live.normal p in
          let prev : (tick pf inp l tx).0.prev_frames ≡ after = rw full at (report.1) in
          let rates : rates_of (tick pf inp l tx).2 ≡ some (hz after l.prev_frames) =
            rw full at (report.0) in
          (
            record {
              small = stays_small;
              small_prev = λ k. rw prev (stays_small k);
              grown = λ k. rw (prev, whole);
            },
            rw full (rates ∙ ap some (hz-steady e)),
          )
      | inr partial ↦
          let same : suc a / 100 * 100 ≡ a / 100 * 100 = ground arith in
          let report = tick-report inp a a l tx live.normal p in
          let prev : (tick pf inp l tx).0.prev_frames ≡ l.prev_frames = rw partial at (report.1) in
          let rates : rates_of (tick pf inp l tx).2 ≡ none = rw partial at (report.0) in
          (
            record {
              small = stays_small;
              small_prev = λ k. rw prev (w.small_prev k);
              grown = λ k. rw (prev, same) (omega (arith, sends k, w.grown k));
            },
            rw partial rates,
          )
    ]
