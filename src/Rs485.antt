-- ===== src/Rs485.antt =====
-- src/can_converter_rs485.c and the data store of src/can_converter.h: RS485 packets run through a
-- COBS stream parser, and each frame that NanoPB decodes replaces its part of the store. Taking and
-- releasing `data_mutex` makes the update of the store one step; log output is not modelled.
pub mod Latest
pub mod Stream
pub mod Content
use zephyr_can_converter_uni.Prelude.{
  ℕ, zero, suc, ◌+◌, Bool, true, false, List, [], ◌∷◌, ◌++◌, Option, none, some, get_elem?, take,
  u32,
}
use zephyr_can_converter_uni.Proto.{
  MasterMeasurements, MasterStatus, ProtiumValues, ProtiumOperatingState, MasterFaults, Payload,
  MasterFrame, master_measurements_zero, master_status_zero, protium_values_zero,
  master_faults_zero,
}

-- master_data_t
pub record MasterData : Type 0 where
  pub master_measurements : MasterMeasurements
  pub master_measurements_valid : Bool
  pub master_status : MasterStatus
  pub master_status_valid : Bool
  pub protium_values : ProtiumValues
  pub protium_values_valid : Bool
  pub protium_operating_state : ProtiumOperatingState
  pub protium_operating_state_valid : Bool
  pub master_faults : MasterFaults
  pub master_faults_valid : Bool

-- `master_data_t data = {0}`
abbrev pub master_data_zero : MasterData
master_data_zero = record {
  master_measurements = master_measurements_zero;
  master_measurements_valid = false;
  master_status = master_status_zero;
  master_status_valid = false;
  protium_values = protium_values_zero;
  protium_values_valid = false;
  protium_operating_state = 0;
  protium_operating_state_valid = false;
  master_faults = master_faults_zero;
  master_faults_valid = false;
}

-- cobs.h (the submodule peripherals): a byte moves the parser, which calls back with each frame
-- that the byte completes.
pub record Cobs : Type 1 where
  pub Parser : Type 0
  pub init : Parser
  pub feed : Parser → ℕ → Parser × List (List ℕ)

-- The RS485 side of the platform; `decode` is pb_decode for MasterFrame_fields on a whole buffer.
pub record Link : Type 1 where
  pub cobs : Cobs
  pub decode : List ℕ → Option MasterFrame

-- The globals `data` and `rs485_frames_received` (a uint32_t).
pub record Store : Type 0 where
  pub master_data : MasterData
  pub frames_received : ℕ

abbrev pub store_zero : Store
store_zero = record { master_data = master_data_zero; frames_received = 0 }

-- rs485_packet_t: the receive buffer and how much of it is filled
pub record Packet : Type 0 where
  pub bytes : List ℕ
  pub len : ℕ

-- the `switch (frame.which_payload)` of `on_frame`
unfoldable pub store_payload : Payload → MasterData → MasterData
store_payload (Payload.master_measurements m) d = record d {
  master_measurements = m;
  master_measurements_valid = true;
}
store_payload (Payload.master_status s) d = record d {
  master_status = s;
  master_status_valid = true;
}
store_payload (Payload.protium_values v) d = record d {
  protium_values = v;
  protium_values_valid = true;
}
store_payload (Payload.protium_operating_state msg) d = record d {
  protium_operating_state = msg.current_state;
  protium_operating_state_valid = true;
}
store_payload (Payload.master_faults f) d = record d {
  master_faults = f;
  master_faults_valid = true;
}
store_payload (Payload.other tag) d = d

module _ (link : Link) where
  open link use {cobs, decode}

  unfoldable pub on_frame : List ℕ → Store → Store
  unfolding store_payload
  on_frame decoded st = elim (decode decoded) [
    | none ↦ st
    | some frame ↦ record {
      master_data = store_payload frame.payload st.master_data;
      frames_received = u32 (st.frames_received + 1);
    }
  ]

  -- the calls back of one `cobs_parser_feed`
  unfoldable pub on_frames : List (List ℕ) → Store → Store
  unfolding on_frame
  on_frames [] st = st
  on_frames (f ∷ fs) st = on_frames fs (on_frame f st)

  -- The parser thread: its parser and the store that it writes.
  pub record Session : Type 0 where
    pub parser : cobs.Parser
    pub store : Store

  abbrev pub start : Session
  start = record { parser = cobs.init; store = store_zero }

  unfoldable pub feed : ℕ → Session → Session
  unfolding on_frames
  feed b s =
      let (parser', frames) = cobs.feed s.parser b in
      record { parser = parser'; store = on_frames frames s.store }

  -- The loop over `packet.data[i]`, with `n` rounds left; `none` is a read past the buffer.
  unfoldable pub feed_from : ℕ → ℕ → List ℕ → Session → Option Session
  unfolding feed
  feed_from zero i bytes s = some s
  feed_from (suc n) i bytes s = elim (get_elem? bytes i) [
    | none ↦ none
    | some b ↦ feed_from n (i + 1) bytes (feed b s)
  ]

  -- One round of the thread: `none` where no packet came in for 500 ms.
  unfoldable pub parser_round : Option Packet → Session → Option Session
  unfolding feed_from
  parser_round none s = some s
  parser_round (some packet) s = feed_from packet.len 0 packet.bytes s

  unfoldable pub parser_rounds : List (Option Packet) → Session → Option Session
  unfolding parser_round
  parser_rounds [] s = some s
  parser_rounds (p ∷ ps) s = elim (parser_round p s) [ none ↦ none | some s' ↦ parser_rounds ps s' ]
