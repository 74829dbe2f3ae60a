-- ===== src/Tests/Runs.antt =====
-- Tests of the modules under System on longer runs: what is silent, what is lit, and the rates.
use zephyr_can_converter_uni.Prelude.{
  arith, ◌+◌, ◌≡◌, ◌≢◌, ◌⊎◌, refl, true, false, List, [], ◌∷◌, ◌++◌, map, Option, none, some, pos,
  negsuc, u32, All,
}
use zephyr_can_converter_uni.Rs485.{parser_round}
use zephyr_can_converter_uni.Frames.{pack_and_enqueue, enqueue_frame}
use zephyr_can_converter_uni.Frames.Mcu
use zephyr_can_converter_uni.Frames.Messages.{FrameKind, Message, kind, counter, frame_id}
use zephyr_can_converter_uni.Frames.Push.{frames_of}
use zephyr_can_converter_uni.Periodic.Rates.{occurrences}
use zephyr_can_converter_uni.System.Gateway.Refines.{handed}
use zephyr_can_converter_uni.Periodic
use zephyr_can_converter_uni.Periodic.Sources.{message_of, is_some}
use zephyr_can_converter_uni.Can.{
  Effect, CanState, tx_get, tx_take, tx_finish, ccu_can_tx_callback, can_state_change_cb,
  bus_off_recovery_handler,
}
use zephyr_can_converter_uni.Can.TxThread
use zephyr_can_converter_uni.System
use zephyr_can_converter_uni.System.{Firmware, Event, run, booted}
use zephyr_can_converter_uni.System.Arrival.{run-Arrives}
use zephyr_can_converter_uni.Platform.{CanFrame}
use zephyr_can_converter_uni.Frames.Sent.{IsFrameOf}
use zephyr_can_converter_uni.Periodic.Phase.{locals_zero-InPhase}
use zephyr_can_converter_uni.System.Silence.{run-unknown}
use zephyr_can_converter_uni.System.Rate.Delivered.{IsCalm, AllRoom, run-rate}
use zephyr_can_converter_uni.System.Outputs
use zephyr_can_converter_uni.System.Outputs.{Moment, World, started}
use zephyr_can_converter_uni.System.Outputs.Upheld.{IsWithin, run-started}
use zephyr_can_converter_uni.Tests.Sample.{sample, sample_candef-IsClassic}
use zephyr_can_converter_uni.Tests.Rs485.{plain, status}
use zephyr_can_converter_uni.Tests.System.{
  state_of, effects_of, received_status, traffic, after_traffic, traffic_effects, run-traffic,
}

-- The status frame came in, so that frames of the other kinds are not sent.
traffic-no_button : All (λ e. e ≢ Event.button) traffic
traffic-no_button = ground arith

no_faults_yet : message_of FrameKind.mcu_faults after_traffic.session.store.master_data ≡ none
unfolding run parser_round TxThread.step tx_get Periodic.tick Periodic.send_10ms Mcu.send_mcu_state
    pack_and_enqueue enqueue_frame tx_take ccu_can_tx_callback
no_faults_yet = refl

run-unknown_example : counter FrameKind.mcu_faults after_traffic.machine.can.tx.frame_counts ≡ 0
run-unknown_example =
    run-unknown sample plain FrameKind.mcu_faults traffic after_traffic traffic_effects
      traffic-no_button run-traffic no_faults_yet

abbrev world_of : Option (World sample plain) → World sample plain
world_of none = started sample plain
world_of (some w) = w

-- The bus goes off while the LED of the sent frame is lit; a first recovery fails.
abbrev off_bus : List (Moment sample plain)
off_bus =
    map Moment.happen (
      received_status
      ∷ Event.tick false
      ∷ Event.get
      ∷ Event.sent (pos 0)
      ∷ Event.callback (pos 0)
      ∷ Event.take
      ∷ Event.finish
      ∷ Event.state_change CanState.bus_off
      ∷ [])
    ++ (Moment.pass 100 ∷ Moment.happen (Event.recovered (negsuc 4)) ∷ Moment.pass 10 ∷ [])

abbrev after_off_bus : World sample plain
after_off_bus = world_of (Outputs.run sample plain off_bus (started sample plain))

run-off_bus : Outputs.run sample plain off_bus (started sample plain) ≡ some after_off_bus
unfolding Outputs.run parser_round TxThread.step tx_get Periodic.tick Periodic.send_10ms
    Mcu.send_mcu_state pack_and_enqueue enqueue_frame tx_take ccu_can_tx_callback
    can_state_change_cb tx_finish System.step
run-off_bus = refl

-- The LED is lit and due to be turned off, and the recovery is due in 990 ms.
off_bus_outputs :
    (after_off_bus.outputs.tx_lit ≡ true)
    × (after_off_bus.outputs.tx_off ≡ record { pending = true; left = 0 })
    × (after_off_bus.outputs.in_bus_off ≡ true)
    × (after_off_bus.outputs.recovery ≡ record { pending = true; left = 990 })
unfolding Outputs.run parser_round TxThread.step tx_get Periodic.tick Periodic.send_10ms
    Mcu.send_mcu_state pack_and_enqueue enqueue_frame tx_take ccu_can_tx_callback
    can_state_change_cb tx_finish System.step bus_off_recovery_handler
off_bus_outputs = (refl, refl, refl, refl)

run-started_example :
    ((after_off_bus.outputs.tx_lit ≡ false)
      ⊎ ((after_off_bus.firmware.machine.can.test_active ≡ true)
          ⊎ IsWithin 50 after_off_bus.outputs.tx_off))
    × ((after_off_bus.outputs.rx_lit ≡ false)
        ⊎ ((after_off_bus.firmware.machine.can.test_active ≡ true)
            ⊎ IsWithin 50 after_off_bus.outputs.rx_off))
    × ((after_off_bus.outputs.in_bus_off ≡ false) ⊎ IsWithin 1000 after_off_bus.outputs.recovery)
run-started_example = run-started sample plain off_bus after_off_bus run-off_bus

abbrev known_status : Option (Firmware sample plain × List Effect)
known_status = run sample plain (received_status ∷ []) (booted sample plain)

run-known_status :
    run sample plain (received_status ∷ []) (booted sample plain)
    ≡ some (state_of known_status, effects_of known_status)
unfolding run parser_round
run-known_status = refl

status_known :
    is_some (message_of FrameKind.mcu_state (state_of known_status).session.store.master_data)
    ≡ true
unfolding run parser_round
status_known = refl

-- Three rounds of the periodic thread, while the bus refuses a frame and a recovery fails.
abbrev busy : List Event
busy =
    Event.tick false
    ∷ Event.get
    ∷ Event.tick false
    ∷ Event.sent (negsuc 4)
    ∷ Event.recovered (negsuc 4)
    ∷ Event.tick false
    ∷ []

busy-IsCalm : All IsCalm busy
busy-IsCalm = ground arith

abbrev after_busy : Option (Firmware sample plain × List Effect)
after_busy = run sample plain busy (state_of known_status)

run-busy :
    run sample plain busy (state_of known_status)
    ≡ some (state_of after_busy, effects_of after_busy)
unfolding run parser_round TxThread.step tx_get Periodic.tick Periodic.send_10ms Mcu.send_mcu_state
    pack_and_enqueue enqueue_frame
run-busy = refl

busy-AllRoom : AllRoom sample plain busy (state_of known_status)
unfolding run parser_round System.step TxThread.step tx_get Periodic.tick Periodic.send_10ms
    Mcu.send_mcu_state pack_and_enqueue enqueue_frame
busy-AllRoom = omega arith

run-rate_example :
    (sent : List Message) × (occurrences FrameKind.mcu_state sent ≡ 3)
    × ((state_of known_status).machine.can.tx.queue ++ frames_of sample sent
        ≡ handed sample plain busy (state_of known_status)
          ++ (state_of after_busy).machine.can.tx.queue)
    × (map (λ (f : CanFrame). f.id) (frames_of sample sent)
        ≡ map (λ x. frame_id sample (kind x)) sent)
    × (u32 (counter FrameKind.mcu_state (state_of after_busy).machine.can.tx.frame_counts)
        ≡ u32 (counter FrameKind.mcu_state (state_of known_status).machine.can.tx.frame_counts + 3))
run-rate_example =
    run-rate sample plain FrameKind.mcu_state (received_status ∷ []) busy (state_of known_status)
      (state_of after_busy) (effects_of known_status) (effects_of after_busy) 3
      sample_candef-IsClassic run-known_status status_known busy-IsCalm busy-AllRoom refl run-busy

-- A packet with a frame of the status, and then a tick.
run-Arrives_example :
    (s' : Firmware sample plain) × (effects : List Effect) × (run sample plain
        (received_status ∷ Event.tick false ∷ [])
        (booted sample plain)
      ≡ some (s', effects))
    × (before after : List CanFrame) × (fr : CanFrame) × (s'.machine.can.tx.queue
        ≡ before ++ fr ∷ after)
    × IsFrameOf sample (Message.send_mcu_state (status 2)) fr
    × (fr.id ≡ 1)
    × (fr.dlc ≡ 3)
run-Arrives_example =
    run-Arrives sample plain FrameKind.mcu_state (Message.send_mcu_state (status 2))
      (record { bytes = 4 ∷ 2 ∷ 0 ∷ []; len = 3 }) 0 0 (booted sample plain) (omega arith) refl
      locals_zero-InPhase refl sample_candef-IsClassic (omega arith)
