-- ===== src/Tests/Atomic.antt =====
-- Tests of the interleaving of a tick with the TX thread.
use zephyr_can_converter_uni.Prelude.{◌≡◌, refl, [], ◌∷◌, List, none, some, pos, arith}
use zephyr_can_converter_uni.Frames.{pack_and_enqueue, enqueue_frame, memcpy}
use zephyr_can_converter_uni.Frames.Mcu
use zephyr_can_converter_uni.Frames.Messages.{Message, send}
use zephyr_can_converter_uni.Periodic.{tick}
use zephyr_can_converter_uni.Periodic.Phase.{due}
use zephyr_can_converter_uni.Can.{tx_get}
use zephyr_can_converter_uni.Can.TxThread.{Machine, TxEvent, step}
use zephyr_can_converter_uni.Can.TxThread.Accounting.{boot}
use zephyr_can_converter_uni.Can.TxThread.Ahead.{with_tx}
use zephyr_can_converter_uni.Can.TxThread.Atomic.{Action, play, IsSameRun}
use zephyr_can_converter_uni.System.Atomic.{tick-IsAtomic}
use zephyr_can_converter_uni.Tests.Sample.{sample, sample_candef-IsClassic}
use zephyr_can_converter_uni.Tests.Periodic.{all_valid, live, no_frames, later, later-InPhase}

abbrev offers : List Message → List (Action sample)
offers [] = []
offers (x ∷ xs) = Action.offer x ∷ offers xs

-- The TX thread fetches the first frame before the second one is offered.
abbrev cut_in : List Message → List (Action sample)
cut_in [] = []
cut_in (x ∷ xs) =
    Action.offer x ∷ Action.event TxEvent.get ∷ Action.event (TxEvent.sent (pos 0)) ∷ offers xs

abbrev interleaved : List (Action sample)
interleaved = cut_in (due 10 120 all_valid)

abbrev after_interleaved : Machine sample
after_interleaved = elim (play sample interleaved (boot sample no_frames)) [
  | none ↦ boot sample no_frames
  | some m ↦ m
]

play-interleaved : play sample interleaved (boot sample no_frames) ≡ some after_interleaved
unfolding play step tx_get send Mcu.send_mcu_state pack_and_enqueue enqueue_frame memcpy
play-interleaved = refl

tick-IsAtomic_example :
    IsSameRun sample
      (TxEvent.get ∷ TxEvent.sent (pos 0) ∷ [])
      (with_tx sample (tick sample live later no_frames).1 (boot sample no_frames))
      after_interleaved
tick-IsAtomic_example =
    tick-IsAtomic sample interleaved live 9 119 later (boot sample no_frames) after_interleaved refl
      later-InPhase sample_candef-IsClassic (omega arith) (tt, (tt, tt)) refl play-interleaved
