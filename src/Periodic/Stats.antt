-- ===== src/Periodic/Stats.antt =====
-- What the reports of a whole run say.
use zephyr_can_converter_uni.Prelude.{
  ℕ, suc, ◌+◌, ◌/◌, ◌%◌, ◌<◌, ◌≡◌, refl, Bool, true, false, List, [], ◌∷◌, Option, none, some,
  length, arith, ◌==◌, if◌then◌else◌, All,
}
use zephyr_can_converter_uni.Platform.{Platform}
use zephyr_can_converter_uni.Frames.{FrameCounts, frame_counts_zero, Tx}
use zephyr_can_converter_uni.Frames.Messages.{FrameKind, counter}
use zephyr_can_converter_uni.Periodic.{Locals, locals_zero, Report, tick}
use zephyr_can_converter_uni.Periodic.Phase.{InPhase, locals_zero-InPhase, tick-InPhase}
use zephyr_can_converter_uni.Periodic.Rates.{IsLive, Slot, inputs, counter-zero}
use zephyr_can_converter_uni.Periodic.Window.{steady, InWindow, rates_of, tick-InWindow}

module _ (pf : Platform) where
  abbrev pub collect : Option Report → List Report → List Report
  collect none rs = rs
  collect (some r) rs = r ∷ rs

  collect-steady :
      (o : Option Report) (rs : List Report) (b : Bool)
      → rates_of pf o ≡ (if b then some steady else none)
      → All (λ r. r.rates ≡ steady) rs
      → All (λ r. r.rates ≡ steady) (collect o rs)
        × (length (collect o rs) ≡ length rs + (if b then 1 else 0))
  collect-steady none rs true h v = cc
  collect-steady none rs false h v = (v, omega arith)
  collect-steady (some r) rs true h v = ((cc, v), omega arith)
  collect-steady (some r) rs false h v = cc

  -- The reports of a run of ticks, in order.
  unfoldable pub reports : List (Slot pf) → Locals → FrameCounts → List Report
  reports [] l c = []
  reports (s ∷ ss) l c =
      let (l', tx', r) = tick pf s.input l (record { queue = s.queue; frame_counts = c }) in
      collect r (reports ss l' tx'.frame_counts)

  reports-steady_from :
      (ss : List (Slot pf)) (a : ℕ) (l : Locals) (c : FrameCounts)
      → All IsLive (inputs pf ss)
      → InPhase a a l
      → InWindow a l c
      → All (λ r. r.rates ≡ steady) (reports ss l c)
        × (length (reports ss l c) + a / 100 ≡ (length ss + a) / 100)
  unfolding reports
  reports-steady_from [] a l c v p w = (tt, omega arith)
  reports-steady_from (s ∷ ss) a l c v p w =
      let tx : Tx pf = record { queue = s.queue; frame_counts = c } in
      let r = tick pf s.input l tx in
      let (window, rates) = tick-InWindow pf s.input a l tx v.0 p w in
      let rest =
        reports-steady_from ss (suc a) r.0 r.1.frame_counts v.1
          (tick-InPhase pf s.input a a l tx v.0.normal p) window in
      let here =
        collect-steady r.2 (reports ss r.0 r.1.frame_counts) (suc a % 100 == 0) rates rest.0 in
      (here.0, ground (arith, here.1, rest.1))

  -- From the start of the thread, with all data valid, no update and no press of the test button, so
  -- that the thread alone writes the counters of the frames: the report of every second prints the
  -- rates that the comments of the thread give (100 Hz, 10 Hz and 1 Hz by kind), however long the
  -- thread runs and also where a counter wraps, and there is one report for every 100 ticks.
  pub reports-steady :
      (ss : List (Slot pf))
      → All IsLive (inputs pf ss)
      → All (λ r. r.rates ≡ steady) (reports ss locals_zero frame_counts_zero)
        × (length (reports ss locals_zero frame_counts_zero) ≡ length ss / 100)
  reports-steady ss v =
      let (rates, many) =
        reports-steady_from ss 0 locals_zero frame_counts_zero v locals_zero-InPhase start in
      (rates, omega arith)
    where
      zero-lt : (k : FrameKind) → counter k frame_counts_zero < 4294967296
      zero-lt k = omega (arith, counter-zero k)

      start : InWindow 0 locals_zero frame_counts_zero
      start = record { small = zero-lt; small_prev = zero-lt; grown = λ k. refl }
