-- ===== src/Tests/Periodic.antt =====
-- Tests of the module Periodic.
use zephyr_can_converter_uni.Prelude.{
  ℕ, zero, suc, ◌+◌, ◌≡◌, refl, true, false, List, [], ◌∷◌, ◌++◌, none, arith, length, replicate,
  u32, All, ◌&&◌, if◌then◌else◌,
}
use zephyr_can_converter_uni.Rs485.{MasterData, master_data_zero}
use zephyr_can_converter_uni.Frames.{Tx, frame_counts_zero}
use zephyr_can_converter_uni.Frames.Messages.{FrameKind, counter, send_all}
use zephyr_can_converter_uni.Periodic.{Locals, locals_zero, Input, tick}
use zephyr_can_converter_uni.Periodic.Phase.{
  every_10ms, every_100ms, InPhase, tick-InPhase, tick-due, tick_dfu,
}
use zephyr_can_converter_uni.Periodic.Rates.{
  occurrences, scheduled, IsLive, Slot, run_ticks, inputs, counter-run_ticks, run_ticks-live,
}
use zephyr_can_converter_uni.Periodic.Window.{steady}
use zephyr_can_converter_uni.Periodic.Stats.{reports, reports-steady}
use zephyr_can_converter_uni.Periodic.Sources.{message_of, is_round, is_some, counter-tick}
use zephyr_can_converter_uni.Periodic.Totals.{
  IsWord, received_of, sent_of, last_seen, reports-total,
}
use zephyr_can_converter_uni.Tests.Sample.{sample}

abbrev pub all_valid : MasterData
all_valid = record master_data_zero {
  master_measurements_valid = true;
  master_status_valid = true;
  protium_values_valid = true;
  protium_operating_state_valid = true;
  master_faults_valid = true;
}

abbrev pub live : Input
live = record {
  dfu_active = false;
  master_data = all_valid;
  rs485_frames_received = 12;
  can_frames_tx_ok = 34;
}

abbrev updating : Input
updating = record live { dfu_active = true }

abbrev quiet : Slot sample
quiet = record { input = live; queue = [] }

abbrev paused : Slot sample
paused = record { input = updating; queue = [] }

abbrev pub no_frames : Tx sample
no_frames = record { queue = []; frame_counts = frame_counts_zero }

-- The thread after 119 ticks, the last update 9 ticks ago.
abbrev pub later : Locals
later = record locals_zero { cnt_100ms = 9; cnt_1000ms = 9; cnt_1s = 19; cnt_unassign = 1 }

pub later-InPhase : InPhase 9 119 later
later-InPhase = omega arith

tick-due_example :
    (tick sample live later no_frames).1
    ≡ send_all sample (every_10ms all_valid ++ every_100ms all_valid) no_frames
tick-due_example = tick-due sample live 9 119 later no_frames refl later-InPhase

later-tick-InPhase : InPhase 10 120 (tick sample live later no_frames).0
later-tick-InPhase = tick-InPhase sample live 9 119 later no_frames refl later-InPhase

updating-nothing :
    ((tick sample updating later no_frames).1 ≡ no_frames)
    × ((tick sample updating later no_frames).2 ≡ none)
updating-nothing = tick_dfu sample updating later no_frames refl

live-IsLive : IsLive live
live-IsLive = record {
  normal = refl;
  measurements = refl;
  status = refl;
  values = refl;
  operating_state = refl;
  faults = refl;
}

quiet-IsLive : (n : ℕ) → All IsLive (inputs sample (replicate n quiet))
quiet-IsLive zero = tt
quiet-IsLive (suc n) = (live-IsLive, quiet-IsLive n)

counter-run_ticks_example :
    u32 (
      counter FrameKind.mcu_state
        (run_ticks sample (quiet ∷ paused ∷ quiet ∷ []) later frame_counts_zero).1)
    ≡ u32 (0 + occurrences FrameKind.mcu_state (scheduled 9 119 (live ∷ updating ∷ live ∷ [])))
counter-run_ticks_example =
    counter-run_ticks sample FrameKind.mcu_state (quiet ∷ paused ∷ quiet ∷ []) 9 119 later
      frame_counts_zero later-InPhase

run_ticks-live_example :
    u32 (
      counter FrameKind.mcu_analog_speed
        (run_ticks sample (replicate 25 quiet) locals_zero frame_counts_zero).1)
    ≡ 2
run_ticks-live_example =
    run_ticks-live sample FrameKind.mcu_analog_speed (replicate 25 quiet) (quiet-IsLive 25)

reports-steady_example :
    All (λ r. r.rates ≡ steady) (reports sample (replicate 120 quiet) locals_zero frame_counts_zero)
    × (length (reports sample (replicate 120 quiet) locals_zero frame_counts_zero) ≡ 1)
reports-steady_example = reports-steady sample (replicate 120 quiet) (quiet-IsLive 120)

counter-tick_example :
    u32 (counter FrameKind.mcu_analog_powertrain (tick sample live later no_frames).1.frame_counts)
    ≡ u32 (
        0
        + (if is_round FrameKind.mcu_analog_powertrain 10 120
              && is_some (message_of FrameKind.mcu_analog_powertrain all_valid)
            then 1
            else 0))
counter-tick_example =
    counter-tick sample FrameKind.mcu_analog_powertrain live 9 119 later no_frames refl
      later-InPhase

-- The counter of received frames wraps between two reports.
abbrev wrapping : List (Slot sample)
wrapping =
    replicate 100 (record quiet { input = record live { rs485_frames_received = 4294967290 } })
    ++ replicate 100 quiet

live-IsWord : IsWord live
live-IsWord = record { received = omega arith; sent = omega arith }

quiet-IsWord : (n : ℕ) → All IsWord (inputs sample (replicate n quiet))
quiet-IsWord zero = tt
quiet-IsWord (suc n) = (live-IsWord, quiet-IsWord n)

wrapping-IsWord :
    (n : ℕ)
    → All IsWord (
        inputs sample (
          replicate n (record quiet { input = record live { rs485_frames_received = 4294967290 } })
          ++ replicate 100 quiet))
wrapping-IsWord zero = quiet-IsWord 100
wrapping-IsWord (suc n) = (record { received = omega arith; sent = omega arith }, wrapping-IsWord n)

reports-total_example :
    (u32 (received_of (reports sample wrapping locals_zero frame_counts_zero))
      ≡ u32 (
          last_seen sample (λ i. i.rs485_frames_received) wrapping locals_zero frame_counts_zero 0))
    × (u32 (sent_of (reports sample wrapping locals_zero frame_counts_zero))
        ≡ u32 (last_seen sample (λ i. i.can_frames_tx_ok) wrapping locals_zero frame_counts_zero 0))
reports-total_example = reports-total sample wrapping frame_counts_zero (wrapping-IsWord 100)
