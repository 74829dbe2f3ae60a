-- ===== src/Tests/Writers.antt =====
-- Tests of the periodic thread and the test button that send at the same time.
use zephyr_can_converter_uni.Prelude.{◌≡◌, refl, [], ◌∷◌, List, none, some, length, pos, arith}
use zephyr_can_converter_uni.Frames.{pack_and_enqueue, enqueue_frame, memcpy}
use zephyr_can_converter_uni.Frames.Mcu
use zephyr_can_converter_uni.Frames.Messages.{send, send_all}
use zephyr_can_converter_uni.Periodic.{tick}
use zephyr_can_converter_uni.Can.{ccu_can_test_send_all, tx_get}
use zephyr_can_converter_uni.Can.TestFrames.{test_frames}
use zephyr_can_converter_uni.Can.TxThread
use zephyr_can_converter_uni.Can.TxThread.{Machine, TxEvent}
use zephyr_can_converter_uni.Can.TxThread.Accounting.{boot}
use zephyr_can_converter_uni.System.Writers.{Turn, Shared, IsMerged, run, all_handed, queue_of}
use zephyr_can_converter_uni.System.Writers.Merged.{both, tick_press-IsMerged}
use zephyr_can_converter_uni.Tests.Sample.{sample, sample_candef-IsClassic}
use zephyr_can_converter_uni.Tests.Periodic.{all_valid, live, no_frames, later, later-InPhase}

abbrev at_once : Shared sample
at_once = both sample live 9 119 all_valid (boot sample no_frames)

-- Each of the two sends two frames, and the first frame is fetched in between.
abbrev turns : List (Turn sample)
turns =
    Turn.of_button
    ∷ Turn.of_periodic
    ∷ Turn.of_tx TxEvent.get
    ∷ Turn.of_tx (TxEvent.sent (pos 0))
    ∷ Turn.of_periodic
    ∷ Turn.of_button
    ∷ []

abbrev after_turns : Shared sample
after_turns = elim (run sample turns at_once) [ none ↦ at_once | some s ↦ s ]

run-turns : run sample turns at_once ≡ some after_turns
unfolding run TxThread.step tx_get send Mcu.send_mcu_state pack_and_enqueue enqueue_frame memcpy
    Mcu.send_mcu_analog_speed
run-turns = refl

turns-handed :
    (length (all_handed sample turns at_once) ≡ 1) × (length (queue_of sample after_turns) ≡ 3)
unfolding run TxThread.step tx_get send pack_and_enqueue enqueue_frame memcpy Mcu.send_mcu_state
    Mcu.send_mcu_analog_speed Mcu.send_mcu_analog_pedals Mcu.send_mcu_faults
turns-handed = (refl, refl)

tick_press-IsMerged_example :
    ((tick sample live later no_frames).1 ≡ send_all sample at_once.periodic no_frames)
    × (ccu_can_test_send_all sample all_valid no_frames
        ≡ send_all sample (test_frames all_valid) no_frames)
    × IsMerged sample at_once after_turns (all_handed sample turns at_once)
tick_press-IsMerged_example =
    tick_press-IsMerged sample turns live 9 119 later all_valid (boot sample no_frames) after_turns
      refl later-InPhase sample_candef-IsClassic (omega arith) (ground arith) run-turns
