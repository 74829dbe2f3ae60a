-- ===== src/Periodic.antt =====
-- `ccu_can_periodic_thread` of src/can_converter_can.c: every 10 ms it reads a snapshot of the data
-- store and sends what is due. The body of its loop is `tick`; what other threads share with it comes
-- in as an input of the tick, and the report that it logs each second is a result of the tick.
pub mod Phase
pub mod Rates
pub mod Window
pub mod Stats
pub mod Sources
pub mod Arrival
pub mod Totals
pub mod Turns
pub mod Schedule
use zephyr_can_converter_uni.Prelude.{
  ℕ, ◌+◌, Bool, true, false, List, [], ◌∷◌, Option, none, some, leb, if◌then◌else◌, u8, u32, sub32,
}
use zephyr_can_converter_uni.Proto.{MasterStatus, MasterFaults}
use zephyr_can_converter_uni.Platform.{Platform}
use zephyr_can_converter_uni.Rs485.{MasterData}
use zephyr_can_converter_uni.Frames.{FrameCounts, frame_counts_zero, Tx}
use zephyr_can_converter_uni.Frames.Mcu
use zephyr_can_converter_uni.Frames.Protium

-- The variables of the thread; the `cnt_…` are uint8_t, the `prev_…` uint32_t.
pub record Locals : Type 0 where
  pub cnt_100ms : ℕ
  pub cnt_1000ms : ℕ
  pub cnt_1s : ℕ
  pub cnt_unassign : ℕ
  pub prev_rs485_rx : ℕ
  pub prev_can_tx_ok : ℕ
  pub prev_frames : FrameCounts

abbrev pub locals_zero : Locals
locals_zero = record {
  cnt_100ms = 0;
  cnt_1000ms = 0;
  cnt_1s = 0;
  cnt_unassign = 0;
  prev_rs485_rx = 0;
  prev_can_tx_ok = 0;
  prev_frames = frame_counts_zero;
}

-- What a tick finds: `can_dfu_is_active()`, the copy of `data` taken under the mutex, and the
-- counters `rs485_frames_received` and `can_frames_tx_ok`.
pub record Input : Type 0 where
  pub dfu_active : Bool
  pub master_data : MasterData
  pub rs485_frames_received : ℕ
  pub can_frames_tx_ok : ℕ

-- `HZ(field)` for the fields that the report prints.
pub record Hz : Type 0 where
  pub mcu_state : ℕ
  pub mcu_faults : ℕ
  pub mcu_analog_speed : ℕ
  pub mcu_analog_powertrain : ℕ
  pub mcu_analog_fuel_cell : ℕ
  pub mcu_analog_accessory : ℕ
  pub mcu_analog_pedals : ℕ
  pub mcu_inputs : ℕ
  pub protium_state : ℕ
  pub protium_power : ℕ
  pub protium_thermal : ℕ
  pub protium_hydrogen : ℕ
  pub protium_setpoints : ℕ
  pub protium_stasis : ℕ
  pub protium_misc : ℕ

abbrev pub hz : FrameCounts → FrameCounts → Hz
hz now prev = record {
  mcu_state = sub32 now.mcu_state prev.mcu_state;
  mcu_faults = sub32 now.mcu_faults prev.mcu_faults;
  mcu_analog_speed = sub32 now.mcu_analog_speed prev.mcu_analog_speed;
  mcu_analog_powertrain = sub32 now.mcu_analog_powertrain prev.mcu_analog_powertrain;
  mcu_analog_fuel_cell = sub32 now.mcu_analog_fuel_cell prev.mcu_analog_fuel_cell;
  mcu_analog_accessory = sub32 now.mcu_analog_accessory prev.mcu_analog_accessory;
  mcu_analog_pedals = sub32 now.mcu_analog_pedals prev.mcu_analog_pedals;
  mcu_inputs = sub32 now.mcu_inputs prev.mcu_inputs;
  protium_state = sub32 now.protium_state prev.protium_state;
  protium_power = sub32 now.protium_power prev.protium_power;
  protium_thermal = sub32 now.protium_thermal prev.protium_thermal;
  protium_hydrogen = sub32 now.protium_hydrogen prev.protium_hydrogen;
  protium_setpoints = sub32 now.protium_setpoints prev.protium_setpoints;
  protium_stasis = sub32 now.protium_stasis prev.protium_stasis;
  protium_misc = sub32 now.protium_misc prev.protium_misc;
}

-- the line "MCU state=… move=… mc=… valve=…"
pub record StatusLine : Type 0 where
  pub state : ℕ
  pub move : Bool
  pub mc : Bool
  pub valve : Bool

-- The report of a second: the status line and the line of fault flags are there if they are valid.
pub record Report : Type 0 where
  pub d_rs485 : ℕ
  pub d_can_ok : ℕ
  pub status_line : Option StatusLine
  pub fault_line : Option (List Bool)
  pub rates : Hz

status_line_of : MasterData → Option StatusLine
status_line_of d =
    if d.master_status_valid
    then some (record {
      state = d.master_status.state;
      move = d.master_status.vehicle_allowed_to_move;
      mc = d.master_status.motor_controller_enabled;
      valve = d.master_status.main_valve_enabled;
    })
    else none

fault_line_of : MasterData → Option (List Bool)
fault_line_of d =
    if d.master_faults_valid
    then some (
        d.master_faults.emg_emergency_switch ∷ d.master_faults.emg_dead_mans_switch
        ∷ d.master_faults.emg_leakage_sensor_switch ∷ d.master_faults.err_fuel_cell_output_voltage
        ∷ d.master_faults.err_fuel_cell_output_current ∷ d.master_faults.err_supercapacitor_voltage
        ∷ d.master_faults.err_supercapacitor_current
        ∷ d.master_faults.err_motor_controller_supply_voltage
        ∷ d.master_faults.err_motor_controller_supply_current
        ∷ d.master_faults.err_accessory_battery_voltage
        ∷ d.master_faults.err_accessory_battery_current ∷ [])
    else none

module _ (pf : Platform) where
  -- 10 ms: state machine and faults
  unfoldable pub send_10ms : MasterData → Tx pf → Tx pf
  send_10ms d tx =
      let with_state =
        if d.master_status_valid then Mcu.send_mcu_state pf d.master_status tx else tx in
      if d.master_faults_valid
      then Mcu.send_mcu_faults pf d.master_faults with_state
      else with_state

  -- 100 ms: speed and powertrain analog
  unfoldable pub send_100ms : MasterData → Tx pf → Tx pf
  send_100ms d tx =
      if d.master_measurements_valid
      then (let m = d.master_measurements in
          let speed = Mcu.send_mcu_analog_speed pf m tx in
          let powertrain = Mcu.send_mcu_analog_powertrain pf m speed in
          let fuel_cell = Mcu.send_mcu_analog_fuel_cell pf m powertrain in
          Mcu.send_mcu_analog_accessory pf m fuel_cell)
      else tx

  -- 1000 ms: slow analog, digital inputs and Protium
  unfoldable pub send_1000ms : MasterData → Tx pf → Tx pf
  send_1000ms d tx =
      let m = d.master_measurements in
      let with_inputs =
        if d.master_measurements_valid
        then Mcu.send_mcu_inputs pf m (Mcu.send_mcu_analog_pedals pf m tx)
        else tx in
      let with_state =
        if d.protium_operating_state_valid
        then Protium.send_protium_state pf d.protium_operating_state with_inputs
        else with_inputs in
      if d.protium_values_valid
      then (let v = d.protium_values in
          let power = Protium.send_protium_power pf v with_state in
          let thermal = Protium.send_protium_thermal pf v power in
          let hydrogen = Protium.send_protium_hydrogen pf v thermal in
          let setpoints = Protium.send_protium_setpoints pf v hydrogen in
          let stasis = Protium.send_protium_stasis pf v setpoints in
          Protium.send_protium_misc pf v stasis)
      else with_state

  -- 0.1 Hz: unassigned analog inputs
  unfoldable pub send_10s : MasterData → Tx pf → Tx pf
  send_10s d tx =
      if d.master_measurements_valid
      then Mcu.send_mcu_analog_unassigned pf d.master_measurements tx
      else tx

  -- `if (cnt_100ms >= 10)`
  unfoldable pub tick_100ms : MasterData → Locals → Tx pf → Locals × Tx pf
  tick_100ms d l tx =
      if leb 10 l.cnt_100ms then (record l { cnt_100ms = 0 }, send_100ms d tx) else (l, tx)

  -- `if (cnt_1000ms >= 100)`
  unfoldable pub tick_1000ms : MasterData → Locals → Tx pf → Locals × Tx pf
  tick_1000ms d l tx =
      if leb 100 l.cnt_1000ms then (record l { cnt_1000ms = 0 }, send_1000ms d tx) else (l, tx)

  -- `cnt_unassign++` and its test
  unfoldable pub tick_unassign : MasterData → Locals → Tx pf → Locals × Tx pf
  tick_unassign d l tx =
      let n = u8 (l.cnt_unassign + 1) in
      if leb 10 n
      then (record l { cnt_unassign = 0 }, send_10s d tx)
      else (record l { cnt_unassign = n }, tx)

  -- the report, and the `prev_…` for the next one
  unfoldable pub report : Input → Locals → FrameCounts → Locals × Report
  unfolding status_line_of fault_line_of
  report inp l counts = (
    record l {
      prev_rs485_rx = inp.rs485_frames_received;
      prev_can_tx_ok = inp.can_frames_tx_ok;
      prev_frames = counts;
    },
    record {
      d_rs485 = sub32 inp.rs485_frames_received l.prev_rs485_rx;
      d_can_ok = sub32 inp.can_frames_tx_ok l.prev_can_tx_ok;
      status_line = status_line_of inp.master_data;
      fault_line = fault_line_of inp.master_data;
      rates = hz counts l.prev_frames;
    },
  )

  -- `cnt_1s++` and the second that it counts
  unfoldable pub tick_1s : Input → Locals → Tx pf → Locals × Tx pf × Option Report
  unfolding tick_unassign report
  tick_1s inp l tx =
      let n = u8 (l.cnt_1s + 1) in
      if leb 100 n
      then (let (l', tx') = tick_unassign inp.master_data (record l { cnt_1s = 0 }) tx in
          let (l'', r) = report inp l' tx'.frame_counts in (l'', tx', some r))
      else (record l { cnt_1s = n }, tx, none)

  -- One round of the loop after its sleep of 10 ms; while a firmware update runs nothing is sent.
  unfoldable pub tick : Input → Locals → Tx pf → Locals × Tx pf × Option Report
  unfolding tick_100ms tick_1000ms tick_1s
  tick inp l tx =
      if inp.dfu_active
      then (record l { cnt_100ms = 0; cnt_1000ms = 0 }, tx, none)
      else (let sent = send_10ms inp.master_data tx in
          let counted = record l {
            cnt_100ms = u8 (l.cnt_100ms + 1);
            cnt_1000ms = u8 (l.cnt_1000ms + 1);
          } in
          let (l1, tx1) = tick_100ms inp.master_data counted sent in
          let (l2, tx2) = tick_1000ms inp.master_data l1 tx1 in tick_1s inp l2 tx2)
