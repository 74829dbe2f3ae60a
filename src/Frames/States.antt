-- ===== src/Frames/States.antt =====
-- What a receiver on the bus finds in the frames of the state machines.
use zephyr_can_converter_uni.Prelude.{
  ℕ, ◌≤◌, ◌<◌, ◌≡◌, refl, List, [], ◌∷◌, ◌++◌, arith, length, take,
}
use zephyr_can_converter_uni.Proto.{MasterStatus, ProtiumOperatingState}
use zephyr_can_converter_uni.Candef.{Candef, McuState, ProtiumState, Signal}
use zephyr_can_converter_uni.Platform.{CanFrame, Platform, can_tx_depth}
use zephyr_can_converter_uni.Frames.{Tx, max_data, bit}
use zephyr_can_converter_uni.Frames.Mcu
use zephyr_can_converter_uni.Frames.Protium
use zephyr_can_converter_uni.Frames.Delivery.{waiting, packed_frame, waiting-pack_and_enqueue}
use zephyr_can_converter_uni.Frames.Receive.{take-packed, bit-lt}

-- The decoding side of the generated library for signals that carry a number: a signal has `values`
-- numbers that it can carry and `raw_values` raw numbers, and decoding undoes encoding within these.
pub record Decoding (cd : Candef) : Type 0 where
  pub values : Signal → ℕ
  pub raw_values : Signal → ℕ
  pub decode : Signal → ℕ → ℕ
  pub encode-lt : (g : Signal) (n : ℕ) → n < values g → cd.encode g (cd.from_uint n) < raw_values g
  pub decode-encode :
      (g : Signal) (n : ℕ) → n < values g → decode g (cd.encode g (cd.from_uint n)) ≡ n

module _ (pf : Platform) (dec : Decoding pf.candef) where
  open pf use {candef}
  open dec use {values, raw_values, decode}

  -- Each raw number of the frame is one that its signal has.
  pub record IsStateWord (r : McuState) : Type 0 where
    pub status : r.status < raw_values Signal.mcu_state_status
    pub vehicle_type : r.vehicle_type < raw_values Signal.mcu_state_vehicle_type
    pub vehicle_allowed_to_move :
        r.vehicle_allowed_to_move < raw_values Signal.mcu_state_vehicle_allowed_to_move
    pub motor_controller_enabled :
        r.motor_controller_enabled < raw_values Signal.mcu_state_motor_controller_enabled
    pub main_valve_enabled : r.main_valve_enabled < raw_values Signal.mcu_state_main_valve_enabled

  -- The numbers of a master status that MCU_STATE can carry.
  pub record IsCarried (s : MasterStatus) : Type 0 where
    pub status : s.state < values Signal.mcu_state_status
    pub vehicle_type : s.vehicle_type < values Signal.mcu_state_vehicle_type
    pub vehicle_allowed_to_move : 2 ≤ values Signal.mcu_state_vehicle_allowed_to_move
    pub motor_controller_enabled : 2 ≤ values Signal.mcu_state_motor_controller_enabled
    pub main_valve_enabled : 2 ≤ values Signal.mcu_state_main_valve_enabled

  -- The received numbers are those of the master status.
  pub record ShowsState (r : McuState) (s : MasterStatus) : Type 0 where
    pub status : decode Signal.mcu_state_status r.status ≡ s.state
    pub vehicle_type : decode Signal.mcu_state_vehicle_type r.vehicle_type ≡ s.vehicle_type
    pub vehicle_allowed_to_move :
        decode Signal.mcu_state_vehicle_allowed_to_move r.vehicle_allowed_to_move
        ≡ bit s.vehicle_allowed_to_move
    pub motor_controller_enabled :
        decode Signal.mcu_state_motor_controller_enabled r.motor_controller_enabled
        ≡ bit s.motor_controller_enabled
    pub main_valve_enabled :
        decode Signal.mcu_state_main_valve_enabled r.main_valve_enabled ≡ bit s.main_valve_enabled

  -- With room in the queue one frame is appended, with the identifier of MCU_STATE; if the signals can
  -- carry the numbers of the master status, a receiver that unpacks the frame's data bytes with the
  -- inverse of the packing function and decodes the signals finds the state, the vehicle type and the
  -- three flags.
  pub send_mcu_state-ShowsState :
      (unpack : List ℕ → McuState) (s : MasterStatus) (tx : Tx pf)
      → IsCarried s
      → ((r : McuState) → IsStateWord r → unpack (candef.mcu_state.pack r) ≡ r)
      → candef.mcu_state.len ≤ max_data
      → length (waiting pf tx) < can_tx_depth
      → (fr : CanFrame) × (waiting pf (Mcu.send_mcu_state pf s tx) ≡ waiting pf tx ++ fr ∷ [])
        × (fr.id ≡ candef.mcu_state.frame_id)
        × ShowsState (unpack (take fr.dlc fr.bytes)) s
  unfolding Mcu.send_mcu_state
  send_mcu_state-ShowsState unpack s tx c round fits room = (
    packed_frame pf candef.mcu_state shown,
    waiting-pack_and_enqueue pf candef.mcu_state shown tx fits room,
    refl,
    rw (take-packed candef.mcu_state shown _, round shown word) same,
  )
    where
      shown : McuState
      shown = record {
        status = candef.encode Signal.mcu_state_status (candef.from_uint (s.state));
        vehicle_type =
            candef.encode Signal.mcu_state_vehicle_type (candef.from_uint (s.vehicle_type));
        vehicle_allowed_to_move =
            candef.encode Signal.mcu_state_vehicle_allowed_to_move
              (candef.from_uint (bit s.vehicle_allowed_to_move));
        motor_controller_enabled =
            candef.encode Signal.mcu_state_motor_controller_enabled
              (candef.from_uint (bit s.motor_controller_enabled));
        main_valve_enabled =
            candef.encode Signal.mcu_state_main_valve_enabled
              (candef.from_uint (bit s.main_valve_enabled));
      }

      vehicle_allowed_to_move :
          bit s.vehicle_allowed_to_move < values Signal.mcu_state_vehicle_allowed_to_move
      vehicle_allowed_to_move =
          omega (arith, c.vehicle_allowed_to_move, bit-lt s.vehicle_allowed_to_move)

      motor_controller_enabled :
          bit s.motor_controller_enabled < values Signal.mcu_state_motor_controller_enabled
      motor_controller_enabled =
          omega (arith, c.motor_controller_enabled, bit-lt s.motor_controller_enabled)

      main_valve_enabled : bit s.main_valve_enabled < values Signal.mcu_state_main_valve_enabled
      main_valve_enabled = omega (arith, c.main_valve_enabled, bit-lt s.main_valve_enabled)

      word : IsStateWord shown
      word = record {
        status = dec.encode-lt Signal.mcu_state_status (s.state) c.status;
        vehicle_type = dec.encode-lt Signal.mcu_state_vehicle_type (s.vehicle_type) c.vehicle_type;
        vehicle_allowed_to_move =
            dec.encode-lt Signal.mcu_state_vehicle_allowed_to_move (bit s.vehicle_allowed_to_move)
              vehicle_allowed_to_move;
        motor_controller_enabled =
            dec.encode-lt Signal.mcu_state_motor_controller_enabled (bit s.motor_controller_enabled)
              motor_controller_enabled;
        main_valve_enabled =
            dec.encode-lt Signal.mcu_state_main_valve_enabled (bit s.main_valve_enabled)
              main_valve_enabled;
      }

      same : ShowsState shown s
      same = record {
        status = dec.decode-encode Signal.mcu_state_status (s.state) c.status;
        vehicle_type =
            dec.decode-encode Signal.mcu_state_vehicle_type (s.vehicle_type) c.vehicle_type;
        vehicle_allowed_to_move =
            dec.decode-encode Signal.mcu_state_vehicle_allowed_to_move
              (bit s.vehicle_allowed_to_move) vehicle_allowed_to_move;
        motor_controller_enabled =
            dec.decode-encode Signal.mcu_state_motor_controller_enabled
              (bit s.motor_controller_enabled) motor_controller_enabled;
        main_valve_enabled =
            dec.decode-encode Signal.mcu_state_main_valve_enabled (bit s.main_valve_enabled)
              main_valve_enabled;
      }

  -- The same for PROTIUM_STATE and the operating state of the fuel cell.
  pub send_protium_state-decode :
      (unpack : List ℕ → ProtiumState) (state : ProtiumOperatingState) (tx : Tx pf)
      → state < values Signal.protium_state_operating_state
      → ((r : ProtiumState)
          → r.operating_state < raw_values Signal.protium_state_operating_state
          → unpack (candef.protium_state.pack r) ≡ r)
      → candef.protium_state.len ≤ max_data
      → length (waiting pf tx) < can_tx_depth
      → (fr : CanFrame) × (waiting pf (Protium.send_protium_state pf state tx)
          ≡ waiting pf tx ++ fr ∷ [])
        × (fr.id ≡ candef.protium_state.frame_id)
        × (decode Signal.protium_state_operating_state
              (unpack (take fr.dlc fr.bytes)).operating_state
            ≡ state)
  unfolding Protium.send_protium_state
  send_protium_state-decode unpack state tx c round fits room = (
    packed_frame pf candef.protium_state shown,
    waiting-pack_and_enqueue pf candef.protium_state shown tx fits room,
    refl,
    rw (take-packed candef.protium_state shown _, round shown word)
        (dec.decode-encode Signal.protium_state_operating_state state c),
  )
    where
      shown : ProtiumState
      shown = record {
        operating_state =
            candef.encode Signal.protium_state_operating_state (candef.from_uint state);
      }

      word : shown.operating_state < raw_values Signal.protium_state_operating_state
      word = dec.encode-lt Signal.protium_state_operating_state state c
