-- ===== src/Tests/System.antt =====
-- Tests of the module System: a status frame comes in over RS485, a tick forwards it, and the test
-- button is pressed meanwhile.
use zephyr_can_converter_uni.Prelude.{
  arith, ◌+◌, map, take, ◌≡◌, ◌≢◌, ◌≤◌, ◌<◌, refl, true, false, List, [], ◌∷◌, Option, none, some,
  pos, negsuc, u32, All,
}
use zephyr_can_converter_uni.Platform.{CanFrame}
use zephyr_can_converter_uni.Rs485.{parser_round}
use zephyr_can_converter_uni.Frames.{frame_counts_zero, Tx, pack_and_enqueue, enqueue_frame}
use zephyr_can_converter_uni.Frames.Mcu
use zephyr_can_converter_uni.Frames.Messages.{FrameKind, counter}
use zephyr_can_converter_uni.Frames.Push.{frames_of}
use zephyr_can_converter_uni.Periodic.Rates.{occurrences}
use zephyr_can_converter_uni.Frames.Invariant.{IsQueue}
use zephyr_can_converter_uni.Periodic
use zephyr_can_converter_uni.Can.{
  Work, StatusLed, Effect, CanState, tx_get, tx_take, tx_finish, ccu_can_tx_callback,
  can_state_change_cb, ccu_can_test_send_all,
}
use zephyr_can_converter_uni.Can.TestFrames.{test_frames, tested, waiting-ccu_can_test_send_all}
use zephyr_can_converter_uni.Can.Recovery.{recover, recover-until}
use zephyr_can_converter_uni.Can.TxThread
use zephyr_can_converter_uni.Can.TxThread.Lit.{IsLit}
use zephyr_can_converter_uni.System.{Firmware, Event, run, booted}
use zephyr_can_converter_uni.System.Invariant.{run-booted}
use zephyr_can_converter_uni.System.TestMode.{run-button}
use zephyr_can_converter_uni.Tests.Sample.{sample, sample_candef-IsClassic}
use zephyr_can_converter_uni.Tests.Rs485.{plain}
use zephyr_can_converter_uni.Tests.Periodic.{all_valid}

abbrev pub state_of : Option (Firmware sample plain × List Effect) → Firmware sample plain
state_of none = booted sample plain
state_of (some r) = r.0

abbrev pub effects_of : Option (Firmware sample plain × List Effect) → List Effect
effects_of none = []
effects_of (some r) = r.1

abbrev pub received_status : Event
received_status = Event.packet (some (record { bytes = 4 ∷ 2 ∷ 0 ∷ []; len = 3 }))

abbrev pub traffic : List Event
traffic =
    received_status
    ∷ Event.tick false
    ∷ Event.get
    ∷ Event.sent (pos 0)
    ∷ Event.callback (pos 0)
    ∷ Event.take
    ∷ Event.finish
    ∷ Event.state_change CanState.error_warning
    ∷ []

abbrev pub after_traffic : Firmware sample plain
after_traffic = state_of (run sample plain traffic (booted sample plain))

abbrev pub traffic_effects : List Effect
traffic_effects = effects_of (run sample plain traffic (booted sample plain))

pub run-traffic :
    run sample plain traffic (booted sample plain) ≡ some (after_traffic, traffic_effects)
unfolding run parser_round TxThread.step tx_get Periodic.tick Periodic.send_10ms Mcu.send_mcu_state
    pack_and_enqueue enqueue_frame tx_take ccu_can_tx_callback
run-traffic = refl

-- The frame went out, was called back for and is counted.
traffic_counted :
    (after_traffic.machine.can.frames_tx_ok ≡ 1) × (after_traffic.machine.can.tx.queue ≡ [])
unfolding run parser_round TxThread.step tx_get Periodic.tick Periodic.send_10ms Mcu.send_mcu_state
    pack_and_enqueue enqueue_frame tx_take ccu_can_tx_callback can_state_change_cb tx_finish
traffic_counted = (refl, refl)

run-booted_example :
    IsQueue sample after_traffic.machine.can.tx
    × ((after_traffic.machine.can.frames_tx_ok ≡ u32 after_traffic.machine.ledger.oks)
        × (after_traffic.machine.ledger.oks ≤ after_traffic.machine.ledger.callbacks)
        × (after_traffic.machine.ledger.callbacks ≤ after_traffic.machine.ledger.accepted))
    × ((after_traffic.locals.cnt_100ms < 10)
        × (after_traffic.locals.cnt_1000ms < 100)
        × (after_traffic.locals.cnt_1s < 100)
        × (after_traffic.locals.cnt_unassign < 10))
run-booted_example = run-booted sample plain traffic after_traffic traffic_effects run-traffic

-- While the test mode is on, both handlers that turn LEDs off are called.
abbrev blinks : List Event
blinks = Event.tx_led_off ∷ Event.tick false ∷ Event.rx_led_off ∷ []

blinks-no_end : All (λ e. e ≢ Event.button_end) blinks
blinks-no_end = ((λ p. cc), ((λ p. cc), ((λ p. cc), tt)))

abbrev pressed : Option (Firmware sample plain × List Effect)
pressed = run sample plain (Event.button ∷ blinks) (booted sample plain)

run-pressed :
    run sample plain (Event.button ∷ blinks) (booted sample plain)
    ≡ some (state_of pressed, effects_of pressed)
unfolding run
run-pressed = refl

run-button_example :
    ((state_of pressed).machine.can.test_active ≡ true) × IsLit (effects_of pressed)
run-button_example =
    run-button sample plain blinks (booted sample plain) (state_of pressed) (effects_of pressed)
      blinks-no_end run-pressed

recover-until_example :
    recover sample (negsuc 4 ∷ negsuc 4 ∷ pos 0 ∷ [])
    ≡ Effect.reschedule Work.bus_off_recovery 1000
      ∷ Effect.reschedule Work.bus_off_recovery 1000
      ∷ Effect.status_led_set StatusLed.operational
      ∷ []
recover-until_example =
    recover-until sample (negsuc 4 ∷ negsuc 4 ∷ []) (pos 0) [] ((refl, refl), ((refl, refl), tt))
      refl

abbrev no_frames : Tx sample
no_frames = record { queue = []; frame_counts = frame_counts_zero }

waiting-ccu_can_test_send_all_example :
    ((ccu_can_test_send_all sample all_valid no_frames).queue
      ≡ frames_of sample (test_frames all_valid))
    × (map (λ (f : CanFrame). f.id) (frames_of sample (test_frames all_valid))
        ≡ 4 ∷ 5 ∷ 6 ∷ 7 ∷ 8 ∷ 9 ∷ 2 ∷ 1 ∷ 3 ∷ 10 ∷ [])
    × ((k : FrameKind)
        → (occurrences k (test_frames all_valid) ≡ tested true k)
          × (u32 (counter k (ccu_can_test_send_all sample all_valid no_frames).frame_counts)
              ≡ u32 (counter k frame_counts_zero + tested true k)))
waiting-ccu_can_test_send_all_example =
    waiting-ccu_can_test_send_all sample all_valid no_frames sample_candef-IsClassic (omega arith)
