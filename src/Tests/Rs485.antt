-- ===== src/Tests/Rs485.antt =====
-- Tests of the module Rs485, on a link whose frames end with a zero byte and whose first byte is the
-- tag of the payload.
use zephyr_can_converter_uni.Prelude.{
  ℕ, zero, suc, ◌≡◌, refl, true, List, [], ◌∷◌, ◌++◌, Option, none, some, arith, ◌==◌,
  if◌then◌else◌,
}
use zephyr_can_converter_uni.Proto.{
  Payload, MasterFrame, MasterStatus, master_status_zero, master_faults_zero,
}
use zephyr_can_converter_uni.Rs485.{
  Link, Packet, Session, store_zero, start, parser_round, parser_rounds, feed_from, on_frames,
}
use zephyr_can_converter_uni.Rs485.Stream.{InBounds, feed_all, parser_rounds-received}
use zephyr_can_converter_uni.Rs485.Latest.{
  Part, held, last_carried, parser_rounds-latest, held-on_frames,
}

abbrev pub feed_plain : List ℕ → ℕ → List ℕ × List (List ℕ)
feed_plain p zero = ([], p ∷ [])
feed_plain p (suc b) = (p ++ suc b ∷ [], [])

abbrev pub status : ℕ → MasterStatus
status n = record master_status_zero { state = n; vehicle_allowed_to_move = true }

abbrev pub framed : Payload → Option MasterFrame
framed p = some (record { ms_clock_tick_count = 0; cycle_clock_tick_count = 0; payload = p })

abbrev pub decode_plain : List ℕ → Option MasterFrame
decode_plain (tag ∷ n ∷ []) = if tag == 4 then framed (Payload.master_status (status n)) else none
decode_plain (tag ∷ []) =
    if tag == 7
    then framed (Payload.master_faults master_faults_zero)
    else if tag == 9
    then framed (Payload.other 9)
    else none
decode_plain _ = none

abbrev pub plain : Link
plain = record {
  cobs = record { Parser = List ℕ; init = []; feed = feed_plain };
  decode = decode_plain;
}

-- A status frame in two packets with a time-out in between, a frame that does not decode, one with
-- an unknown payload, and a second status frame; the last buffer is filled to its second byte only.
abbrev packets : List (Option Packet)
packets =
    some (record { bytes = 4 ∷ []; len = 1 })
    ∷ none
    ∷ some (record { bytes = 2 ∷ 0 ∷ 8 ∷ 0 ∷ 9 ∷ 0 ∷ 4 ∷ []; len = 7 })
    ∷ some (record { bytes = 3 ∷ 0 ∷ 7 ∷ 0 ∷ []; len = 2 })
    ∷ []

packets-InBounds : InBounds packets
packets-InBounds = omega arith

abbrev history : List Payload
history = Payload.master_status (status 2) ∷ Payload.other 9 ∷ Payload.master_status (status 3) ∷ []

parser_rounds-latest_example :
    (s : Session plain) × (parser_rounds plain packets (start plain) ≡ some s)
    × ((p : Part) → held p s.store.master_data ≡ last_carried p history)
    × (s.store.frames_received ≡ 3)
parser_rounds-latest_example = parser_rounds-latest plain packets packets-InBounds

parser_rounds-received_example :
    parser_rounds plain packets (start plain)
    ≡ some (feed_all plain (4 ∷ 2 ∷ 0 ∷ 8 ∷ 0 ∷ 9 ∷ 0 ∷ 4 ∷ 3 ∷ 0 ∷ []) (start plain))
parser_rounds-received_example = parser_rounds-received plain packets (start plain) packets-InBounds

-- a packet whose length is past its buffer
read_past : parser_round plain (some (record { bytes = 4 ∷ []; len = 2 })) (start plain) ≡ none
unfolding parser_round feed_from
read_past = refl

held-two_frames :
    held Part.status (on_frames plain ((4 ∷ 5 ∷ []) ∷ (7 ∷ []) ∷ []) store_zero).master_data
    ≡ some (status 5)
held-two_frames = held-on_frames plain Part.status ((4 ∷ 5 ∷ []) ∷ (7 ∷ []) ∷ []) store_zero
