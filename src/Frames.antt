-- ===== src/Frames.antt =====
-- src/can_converter_frames.c: each `send_…` packs the signals of the data store into a frame and
-- puts it into the queue of the CAN TX thread. Warnings that go to the log are not modelled.
pub mod Mcu
pub mod Protium
pub mod Messages
pub mod Delivery
pub mod Counts
pub mod Receive
pub mod Invariant
pub mod Lost
pub mod Growth
pub mod Sent
pub mod Push
pub mod Receiver
pub mod Readings
pub mod Inputs
pub mod States
pub mod Race
use zephyr_can_converter_uni.Prelude.{
  ℕ, ◌+◌, ◌≡◌, Bool, List, ◌++◌, arith, ltb, if◌then◌else◌, length, take, drop, replicate, u8, u32,
}
use zephyr_can_converter_uni.Candef.{Codec}
use zephyr_can_converter_uni.Platform.{CanFrame, Platform}

-- ccu_frame_counts_t, all of them uint32_t
pub record FrameCounts : Type 0 where
  pub mcu_analog_speed : ℕ
  pub mcu_analog_pedals : ℕ
  pub mcu_analog_powertrain : ℕ
  pub mcu_analog_fuel_cell : ℕ
  pub mcu_analog_accessory : ℕ
  pub mcu_analog_unassigned : ℕ
  pub mcu_inputs : ℕ
  pub mcu_state : ℕ
  pub mcu_faults : ℕ
  pub mcu_time_sync : ℕ
  pub protium_state : ℕ
  pub protium_power : ℕ
  pub protium_thermal : ℕ
  pub protium_hydrogen : ℕ
  pub protium_setpoints : ℕ
  pub protium_stasis : ℕ
  pub protium_misc : ℕ

-- the zero-initialised `frame_counts`
abbrev pub frame_counts_zero : FrameCounts
frame_counts_zero = record {
  mcu_analog_speed = 0;
  mcu_analog_pedals = 0;
  mcu_analog_powertrain = 0;
  mcu_analog_fuel_cell = 0;
  mcu_analog_accessory = 0;
  mcu_analog_unassigned = 0;
  mcu_inputs = 0;
  mcu_state = 0;
  mcu_faults = 0;
  mcu_time_sync = 0;
  protium_state = 0;
  protium_power = 0;
  protium_thermal = 0;
  protium_hydrogen = 0;
  protium_setpoints = 0;
  protium_stasis = 0;
  protium_misc = 0;
}

-- sizeof(frame.data): CONFIG_CAN_FD_MODE is off (prj.conf)
abbrev pub max_data : ℕ
max_data = 8

-- memcpy(dst, src, n)
unfoldable pub memcpy : List ℕ → List ℕ → ℕ → List ℕ
memcpy dst src n = take n src ++ drop n dst

-- a C bool as a number
abbrev pub bit : Bool → ℕ
bit b = if b then 1 else 0

module _ (pf : Platform) where
  open pf use {can_tx, can_frame_ide}

  -- What the senders write: the queue `can_tx_msgq` and the counters `frame_counts`.
  pub record Tx : Type 0 where
    pub queue : can_tx.Queue
    pub frame_counts : FrameCounts

  -- A frame that is too long is dropped; so is one that finds the queue full.
  unfoldable pub enqueue_frame : ℕ → List ℕ → ℕ → Tx → Tx
  enqueue_frame id bytes len tx =
      if ltb max_data len then tx else record tx { queue = (can_tx.put tx.queue frame).1 }
    where
      frame : CanFrame
      frame = record {
        id = id;
        dlc = len;
        flags = can_frame_ide;
        bytes = memcpy (replicate max_data 0) bytes len;
      }

  -- The macro PACK_AND_ENQUEUE; `len` of `enqueue_frame` is a uint8_t.
  unfoldable pub pack_and_enqueue : {S : Type 0} → Codec S → S → Tx → Tx
  pack_and_enqueue c s tx = enqueue_frame c.frame_id (c.pack s) (u8 c.len) tx
