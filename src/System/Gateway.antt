-- ===== src/System/Gateway.antt =====
-- What the converter is for, as a machine of its own: it remembers the bytes that came in over RS485,
-- offers the last data that they carried by a table of rates to a bounded queue, and hands the queue
-- on to the CAN driver. It has no store, no counters of frames and no threads.
pub mod Events
pub mod Refines
pub mod Carried
pub mod Provenance
use zephyr_can_converter_uni.Prelude.{
  ℕ, suc, true, false, Bool, List, [], ◌∷◌, ◌++◌, Option, none, some, take,
}
use zephyr_can_converter_uni.Platform.{CanFrame, Platform}
use zephyr_can_converter_uni.Proto.{Payload}
use zephyr_can_converter_uni.Rs485.{Link}
use zephyr_can_converter_uni.Rs485.Latest.{Part, Held, last_carried, payloads, frames_in}
use zephyr_can_converter_uni.Rs485.Content.{or_zero}
use zephyr_can_converter_uni.Frames.Messages.{FrameKind, Message}
use zephyr_can_converter_uni.Frames.Push.{push_all, frames_of}
use zephyr_can_converter_uni.Periodic.Sources.{is_round}
use zephyr_can_converter_uni.Periodic.Schedule.{asked, schedule, with_message}
use zephyr_can_converter_uni.Can.{CanState}
use zephyr_can_converter_uni.System.{Event}

-- What a press of the test button offers: one frame of each MCU kind, of zeros where there is no data,
-- and the state of the fuel cell if there is one.
abbrev pub tested : ((p : Part) → Option (Held p)) → List Message
tested part =
    let measurements = or_zero Part.measurements (part Part.measurements) in
    Message.send_mcu_analog_speed measurements
    ∷ Message.send_mcu_analog_pedals measurements
    ∷ Message.send_mcu_analog_powertrain measurements
    ∷ Message.send_mcu_analog_fuel_cell measurements
    ∷ Message.send_mcu_analog_accessory measurements
    ∷ Message.send_mcu_analog_unassigned measurements
    ∷ Message.send_mcu_inputs measurements
    ∷ Message.send_mcu_state (or_zero Part.status (part Part.status))
    ∷ Message.send_mcu_faults (or_zero Part.faults (part Part.faults))
    ∷ asked (λ k. true) part (FrameKind.protium_state ∷ [])

-- `received` are the bytes since the start, `since_update` and `ticks` the rounds of 10 ms since the
-- last update and in all, `queue` the frames that wait and `handed` those that the driver was given.
pub record Gateway : Type 0 where
  pub received : List ℕ
  pub since_update : ℕ
  pub ticks : ℕ
  pub queue : List CanFrame
  pub handed : List CanFrame

abbrev pub idle : Gateway
idle = record { received = []; since_update = 0; ticks = 0; queue = []; handed = [] }

abbrev pub hand_on : Gateway → Gateway
hand_on g = elim g.queue [
  | [] ↦ g
  | f ∷ rest ↦ record g { queue = rest; handed = g.handed ++ f ∷ [] }
]

module _ (pf : Platform) (link : Link) where
  open link use {cobs}

  -- The payloads of the decodable frames in the bytes that came in.
  abbrev pub history : Gateway → List Payload
  history g = payloads link (frames_in link cobs.init g.received)

  -- The last data for a part.
  abbrev pub latest : Gateway → (p : Part) → Option (Held p)
  latest g p = last_carried p (history g)

  abbrev pub offer : List Message → Gateway → Gateway
  offer ms g = record g { queue = push_all (frames_of pf ms) g.queue }

  abbrev pub step : Event → Gateway → Gateway
  step (Event.packet (some p)) g = record g { received = g.received ++ take p.len p.bytes }
  step (Event.tick true) g = record g { since_update = 0 }
  step (Event.tick false) g =
      offer (asked (λ k. is_round k (suc g.since_update) (suc g.ticks)) (latest g) schedule)
        (record g { since_update = suc g.since_update; ticks = suc g.ticks })
  step Event.get g = hand_on g
  step (Event.state_change CanState.bus_off) g = record g { queue = [] }
  step Event.button g = offer (tested (latest g)) g
  step _ g = g

  abbrev pub run : List Event → Gateway → Gateway
  run [] g = g
  run (e ∷ es) g = run es (step e g)
