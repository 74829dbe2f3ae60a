-- ===== src/Tests/Can.antt =====
-- Tests of the module Can and of the TX thread.
use Prim.Native.Nat.{bit_and}
use zephyr_can_converter_uni.Can.DfuFilter.{Filtering, dfu_filter, matches-dfu_filter}
use zephyr_can_converter_uni.Prelude.{
  ◌==◌, false, arith, ◌≤◌, ◌≡◌, refl, [], ◌∷◌, ◌++◌, List, some, pos, negsuc, u32,
}
use zephyr_can_converter_uni.Platform.{CanFrame}
use zephyr_can_converter_uni.Frames.{Tx, frame_counts_zero}
use zephyr_can_converter_uni.Can.{
  Work, Effect, tx_get, tx_take, tx_finish, ccu_can_tx_callback, bus_off_recovery_handler,
}
use zephyr_can_converter_uni.Can.TxThread.{TxPc, Machine, TxEvent, step, run}
use zephyr_can_converter_uni.Can.TxThread.Accounting.{boot, oks_backed}
use zephyr_can_converter_uni.Can.TxThread.Exact.{late, oks_exact, late_result}
use zephyr_can_converter_uni.Can.TxThread.Fifo.{all_added, all_fetched, AllOnlyAdd, run-fetched}
use zephyr_can_converter_uni.Frames.Delivery.{waiting}
use zephyr_can_converter_uni.Can.TxThread.Drain.{IsIdle, sends, run-sends}
use zephyr_can_converter_uni.Tests.Sample.{sample}

abbrev frame : CanFrame
frame = record { id = 5; dlc = 2; flags = 1; bytes = 7 ∷ 7 ∷ 0 ∷ 0 ∷ 0 ∷ 0 ∷ 0 ∷ 0 ∷ [] }

abbrev two_frames : Tx sample
two_frames = record { queue = frame ∷ frame ∷ []; frame_counts = frame_counts_zero }

-- The first frame is sent, the second one is refused by the bus.
abbrev exchange : List (TxEvent sample)
exchange =
    TxEvent.get
    ∷ TxEvent.sent (pos 0)
    ∷ TxEvent.callback (pos 0)
    ∷ TxEvent.take
    ∷ TxEvent.finish
    ∷ TxEvent.get
    ∷ TxEvent.sent (pos 0)
    ∷ TxEvent.callback (negsuc 4)
    ∷ TxEvent.take
    ∷ TxEvent.finish
    ∷ []

abbrev exchanged : Machine sample
exchanged = record {
  can = record {
    tx = record { queue = []; frame_counts = frame_counts_zero };
    done_sem = 0;
    tx_result = negsuc 4;
    test_active = false;
    frames_tx_ok = 1;
  };
  pc = TxPc.fetching;
  in_flight = 0;
  ledger = record { accepted = 2; callbacks = 2; good = 1; timeouts = 0; oks = 1 };
}

run-exchange : run sample exchange (boot sample two_frames) ≡ some exchanged
unfolding run step tx_get tx_take tx_finish ccu_can_tx_callback
run-exchange = refl

oks_exact_example : (exchanged.in_flight ≡ 0) × (exchanged.can.frames_tx_ok ≡ u32 1)
oks_exact_example = oks_exact sample two_frames exchange exchanged run-exchange refl refl

exchanged-backed :
    (exchanged.can.frames_tx_ok ≡ u32 exchanged.ledger.oks)
    × (exchanged.ledger.oks ≤ exchanged.ledger.callbacks)
    × (exchanged.ledger.callbacks ≤ exchanged.ledger.accepted)
exchanged-backed = oks_backed sample two_frames exchange exchanged run-exchange

late_result_example :
    (m' : Machine sample) × (run sample (late sample) (boot sample two_frames) ≡ some m')
    × (m'.ledger.callbacks ≡ 1)
    × (m'.in_flight ≡ 1)
    × (m'.ledger.timeouts ≡ 1)
    × (m'.pc ≡ TxPc.fetching)
    × (m'.can.frames_tx_ok ≡ 1)
    × (m'.can.tx.queue ≡ [])
late_result_example = late_result sample (boot sample two_frames) frame frame [] refl refl refl refl

boot-IsIdle : IsIdle sample (boot sample two_frames)
boot-IsIdle = record { fetching = refl; landed = refl; seen = refl; counted = refl }

run-sends_example :
    (m' : Machine sample) × (run sample (sends sample (frame ∷ frame ∷ [])) (boot sample two_frames)
      ≡ some m')
    × IsIdle sample m'
    × (m'.can.tx.queue ≡ [])
    × (m'.ledger.oks ≡ 2)
    × (all_fetched sample (sends sample (frame ∷ frame ∷ [])) (boot sample two_frames)
        ≡ frame ∷ frame ∷ [])
run-sends_example = run-sends sample (frame ∷ frame ∷ []) (boot sample two_frames) boot-IsIdle refl

-- A recovery that fails is tried again after a second.
recovery_again :
    bus_off_recovery_handler sample (negsuc 4) ≡ Effect.reschedule Work.bus_off_recovery 1000 ∷ []
unfolding bus_off_recovery_handler
recovery_again = refl

abbrev masked : Filtering
masked = record {
  matches = λ filter frame. bit_and frame.id filter.mask == bit_and filter.id filter.mask;
  matches_format = λ filter frame same. refl;
}

-- CCU_DFU_RSP_ID, which the device itself sends
abbrev response : CanFrame
response = record frame { id = 2018 }

matches-dfu_filter_example : masked.matches (dfu_filter sample) response ≡ false
matches-dfu_filter_example = matches-dfu_filter sample masked response refl (omega arith)

abbrev second_frame : CanFrame
second_frame = record frame { id = 6 }

-- Another thread adds a frame while the first is being sent.
abbrev crossed : List (TxEvent sample)
crossed =
    TxEvent.get
    ∷ TxEvent.others (record two_frames { queue = frame ∷ second_frame ∷ [] })
    ∷ TxEvent.sent (negsuc 4)
    ∷ TxEvent.get
    ∷ []

abbrev after_crossed : Machine sample
after_crossed = record (boot sample two_frames) {
  can = record (boot sample two_frames).can {
    tx = record two_frames { queue = second_frame ∷ [] };
  };
  pc = TxPc.sending frame;
}

run-crossed : run sample crossed (boot sample two_frames) ≡ some after_crossed
unfolding run step tx_get
run-crossed = refl

crossed-AllOnlyAdd : AllOnlyAdd sample crossed (boot sample two_frames)
unfolding step tx_get
crossed-AllOnlyAdd = (tt, (refl, (tt, (tt, tt))))

crossed_order : all_fetched sample crossed (boot sample two_frames) ≡ frame ∷ frame ∷ []
unfolding step tx_get
crossed_order = refl

run-fetched_example :
    waiting sample two_frames ++ all_added sample crossed (boot sample two_frames)
    ≡ all_fetched sample crossed (boot sample two_frames) ++ second_frame ∷ []
run-fetched_example =
    run-fetched sample crossed (boot sample two_frames) after_crossed run-crossed crossed-AllOnlyAdd
