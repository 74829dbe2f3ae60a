-- ===== src/Lib.antt =====
-- Verification of the CAN Converter Unit firmware: a Zephyr program that receives the telemetry of
-- the master controller over RS485 (COBS-framed protocol buffers) and sends it out again as CAN
-- frames.
--
-- The program's parts, with the files of the repository, and the modules that model them:
--   proto/master.proto, proto/master_helpers.h    Proto, Proto.Helpers: the messages and the helper
--     digital_inputs_from_raw.
--   src/can_converter_rs485.c, src/can_converter.h    Rs485: on_frame and the parser thread; the
--     store `data` with its valid flags and rs485_frames_received are the record Store.
--   src/can_converter_frames.c    Frames, Frames.Mcu, Frames.Protium: enqueue_frame,
--     PACK_AND_ENQUEUE and the seventeen senders; the queue can_tx_msgq and frame_counts are the
--     record Tx. Frames.Messages takes the senders together as one function of a message.
--   src/can_converter_can.c    Periodic: the body of the loop of ccu_can_periodic_thread is `tick`.
--     Can: the handlers, can_state_change_cb, ccu_can_tx_callback, ccu_dfu_rx_cb, the test mode and
--     the parts of ccu_can_tx_thread. Can.DfuFilter: dfu_filter. Can.TxThread: that thread and the
--     driver as steps.
--   src/can_converter.c, src/can_converter_dfu.c    Board: on_test_button and the hooks of the
--     firmware update.
--   src/main.c    Startup: main and the four init functions as the sequence of their calls.
--     System: all threads, handlers and call backs as steps on the shared state. System.Outputs: the
--     same with the CAN LEDs and the delayed work items that the steps act on, and with the time
--     that passes between them. System.Gateway: what the converter is for, as a machine without
--     store, counters of frames and threads, which the firmware is compared with.
--
-- The parser thread writes the store, the periodic thread reads a copy of it and fills the queue, the
-- TX thread empties the queue into the driver, which calls back from an interrupt. The store is only
-- touched under a mutex, so that reading or writing it is one step. A round of the parser thread and
-- a round of the periodic thread are taken as one step each; the TX thread makes a step between two
-- points where it can wait. A round of the parser thread that others interrupt is one that gets its
-- packet in several parts; System.Atomic compares a round of the periodic thread, and a press of the
-- test button, with the same where the TX thread makes steps between two frames, and System.Writers
-- has the two send frame by frame at the same time. An increment of a counter is atomic in all this,
-- which the code does not enforce between the periodic thread and the test button: Frames.Race has
-- the increments in steps of a load and a store.
--
-- What is not in the repository is a parameter: Zephyr's message queue and semaphore with their
-- documented laws (Platform), the generated CAN library (Candef), the COBS parser and NanoPB's
-- decoder (Rs485), the matching of receive filters (Can.DfuFilter). The laws say what Zephyr
-- documents: a queue refuses a message only when it is full and keeps the order, a semaphore counts
-- to its limit, a filter compares the bits under its mask. The hypotheses on the CAN library are that
-- a packing function fills a buffer of the frame's length, and where a theorem names them, that the
-- frames fit into eight bytes, that packing can be undone and that decoding a signal undoes encoding
-- it (Frames.States). Who receives a frame and reads it is a parameter too (Frames.Receiver).
-- Tests.Sample and Tests.Receiver have instances.
--
-- Numbers: uint8_t and uint32_t are natural numbers with their wrap-around written out, an int is
-- only compared. Floats are copied and widened and never computed with, so they are bit patterns; an
-- enum is the number that was decoded. Time is counted in ticks of the periodic thread, and in
-- milliseconds for the delays of the work items. Loops run on the data that they consume or on the
-- number of rounds, so that there is no fuel.
--
-- Not modelled: log output but the report of the periodic thread, the time that a call itself takes,
-- the priorities of the threads, the submodules and the tools.
pub mod Prelude
pub mod Proto
pub mod Platform
pub mod Candef
pub mod Frames
pub mod Rs485
pub mod Periodic
pub mod Can
pub mod Board
pub mod Startup
pub mod System
pub mod Tests
