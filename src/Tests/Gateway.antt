-- ===== src/Tests/Gateway.antt =====
-- Tests of the gateway, which the firmware refines.
use zephyr_can_converter_uni.Prelude.{◌≡◌, ◌≢◌, refl, [], ◌∷◌, All, arith}
use zephyr_can_converter_uni.Rs485.Latest.{Part, held}
use zephyr_can_converter_uni.Frames.{pack_and_enqueue, enqueue_frame, memcpy}
use zephyr_can_converter_uni.Frames.Mcu
use zephyr_can_converter_uni.Frames.Messages.{send}
use zephyr_can_converter_uni.Frames.Push.{frame_of}
use zephyr_can_converter_uni.System.{Event, booted}
use zephyr_can_converter_uni.System.Gateway
use zephyr_can_converter_uni.System.Gateway.{Gateway, idle, latest, history}
use zephyr_can_converter_uni.System.Gateway.Refines.{handed, run-refines}
use zephyr_can_converter_uni.System.Gateway.Provenance.{IsSourced, run-IsSourced}
use zephyr_can_converter_uni.Tests.Sample.{sample, sample_candef-IsClassic}
use zephyr_can_converter_uni.Tests.Rs485.{plain}
use zephyr_can_converter_uni.Tests.System.{traffic, after_traffic, traffic_effects, run-traffic}

abbrev gateway : Gateway
gateway = Gateway.run sample plain traffic idle

-- The status frame becomes a CAN frame, which is handed to the driver.
gateway_handed :
    gateway.handed
    ≡ record { id = 1; dlc = 3; flags = 1; bytes = 2 ∷ 0 ∷ 1 ∷ 0 ∷ 0 ∷ 0 ∷ 0 ∷ 0 ∷ [] } ∷ []
unfolding frame_of send Mcu.send_mcu_state pack_and_enqueue enqueue_frame memcpy
gateway_handed = refl

run-refines_example :
    (after_traffic.machine.can.tx.queue ≡ gateway.queue)
    × (handed sample plain traffic (booted sample plain) ≡ gateway.handed)
    × ((p : Part) → held p after_traffic.session.store.master_data ≡ latest sample plain gateway p)
run-refines_example =
    run-refines sample plain traffic after_traffic traffic_effects sample_candef-IsClassic
      run-traffic

traffic-no_press : All (λ e. e ≢ Event.button) traffic
traffic-no_press = ground arith

run-IsSourced_example :
    All
      (IsSourced sample plain (history sample plain gateway))
      (handed sample plain traffic (booted sample plain))
run-IsSourced_example =
    run-IsSourced sample plain traffic after_traffic traffic_effects sample_candef-IsClassic
      traffic-no_press run-traffic
