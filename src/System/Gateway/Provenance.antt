-- ===== src/System/Gateway/Provenance.antt =====
-- Where the frames on the bus come from: the payloads that came in over RS485.

use zephyr_can_converter_uni.Prelude.{
  suc, ◌≡◌, ◌≢◌, refl, ap, ◌∙◌, sym, subst, true, false, List, [], ◌∷◌, ◌++◌, append_assoc, none,
  some, take, All, All-append,
}
use zephyr_can_converter_uni.Candef.{IsClassic}
use zephyr_can_converter_uni.Platform.{CanFrame, Platform}
use zephyr_can_converter_uni.Proto.{Payload}
use zephyr_can_converter_uni.Rs485.{Link, Packet}
use zephyr_can_converter_uni.Rs485.Latest.{payloads, frames_in}
use zephyr_can_converter_uni.Frames.Messages.{FrameKind, Message}
use zephyr_can_converter_uni.Frames.Push.{frame_of, frames_of}
use zephyr_can_converter_uni.Periodic.Sources.{is_round}
use zephyr_can_converter_uni.Periodic.Schedule.{asked, schedule}
use zephyr_can_converter_uni.Can.{Effect, CanState}
use zephyr_can_converter_uni.System
use zephyr_can_converter_uni.System.{Firmware, Event, booted}
use zephyr_can_converter_uni.System.Gateway.{Gateway, idle, history, latest, step, run}
use zephyr_can_converter_uni.System.Gateway.Refines.{handed, run-refines}
use zephyr_can_converter_uni.System.Gateway.Carried.{
  IsCarried, push_all-All, All-map, asked-All, last_carried-IsCarried, parser_after,
  frames_in-append, payloads-append,
}

module _ (pf : Platform) (link : Link) where
  open link use {cobs}

  -- The frame of a message that a payload of the history leads to.
  pub record IsSourced (h : List Payload) (f : CanFrame) : Type 0 where
    pub kind : FrameKind
    pub message : Message
    pub source : IsCarried h kind message
    pub framed : f ≡ frame_of pf message

  IsSourced-append :
      (h more : List Payload) (f : CanFrame) → IsSourced h f → IsSourced (h ++ more) f
  IsSourced-append h more f v = record {
    kind = v.kind;
    message = v.message;
    source = record {
      payload = v.source.payload;
      before = v.source.before;
      after = v.source.after ++ more;
      received =
          ap (λ l. l ++ more) v.source.received
          ∙ append_assoc v.source.before (v.source.payload ∷ v.source.after) more;
      leads = v.source.leads;
    };
    framed = v.framed;
  }

  frames_of-All :
      (h : List Payload) (ms : List Message)
      → All (λ m. IsSourced h (frame_of pf m)) ms
      → All (IsSourced h) (frames_of pf ms)
  frames_of-All h [] all = tt
  frames_of-All h (m ∷ ms) all = (all.0, frames_of-All h ms all.1)

  abbrev AllSourced : Gateway → Type 0
  AllSourced g =
      All (IsSourced (history pf link g)) g.queue × All (IsSourced (history pf link g)) g.handed

  packet-AllSourced :
      (p : Packet) (g : Gateway)
      → AllSourced g
      → AllSourced (step pf link (Event.packet (some p)) g)
  packet-AllSourced p g v =
      let bs = take p.len p.bytes in
      let more = payloads link (frames_in link (parser_after link cobs.init g.received) bs) in
      let grown : history pf link (step pf link (Event.packet (some p)) g)
          ≡ history pf link g ++ more =
        ap (payloads link) (frames_in-append link cobs.init g.received bs)
        ∙ payloads-append link (frames_in link cobs.init g.received)
            (frames_in link (parser_after link cobs.init g.received) bs) in
      subst (λ h. All (IsSourced h) g.queue × All (IsSourced h) g.handed) (sym grown)
        (
          All-map _ _ g.queue (IsSourced-append (history pf link g) more) v.0,
          All-map _ _ g.handed (IsSourced-append (history pf link g) more) v.1,
        )

  tick-AllSourced : (g : Gateway) → AllSourced g → AllSourced (step pf link (Event.tick false) g)
  tick-AllSourced g v =
      let h = history pf link g in
      let asked_now = λ (k : FrameKind). is_round k (suc g.since_update) (suc g.ticks) in
      (
        push_all-All (IsSourced h) (frames_of pf (asked asked_now (latest pf link g) schedule))
            g.queue v.0
            (frames_of-All h (asked asked_now (latest pf link g) schedule) (
              asked-All (λ m. IsSourced h (frame_of pf m)) asked_now (latest pf link g) schedule
                (λ k m e. record {
                  kind = k;
                  message = m;
                  source = last_carried-IsCarried k h m e;
                  framed = refl;
                }))),
        v.1,
      )

  get-AllSourced : (g : Gateway) → AllSourced g → AllSourced (step pf link Event.get g)
  get-AllSourced g v = by_queue g.queue refl v.0
    where
      by_queue :
          (q : List CanFrame)
          → g.queue ≡ q
          → All (IsSourced (history pf link g)) q
          → AllSourced (step pf link Event.get g)
      by_queue [] e all = rw e (tt, v.1)
      by_queue (f ∷ rest) e all =
          rw e (all.1, All-append (IsSourced (history pf link g)) g.handed (f ∷ []) v.1 (all.0, tt))

  step-AllSourced :
      (e : Event) (g : Gateway) → e ≢ Event.button → AllSourced g → AllSourced (step pf link e g)
  step-AllSourced (Event.packet none) g n v = v
  step-AllSourced (Event.packet (some p)) g n v = packet-AllSourced p g v
  step-AllSourced (Event.tick true) g n v = v
  step-AllSourced (Event.tick false) g n v = tick-AllSourced g v
  step-AllSourced Event.get g n v = get-AllSourced g v
  step-AllSourced (Event.state_change CanState.bus_off) g n v = (tt, v.1)
  step-AllSourced Event.button g n v = absurd (n refl)
  step-AllSourced _ g n v = v

  run-AllSourced :
      (es : List Event) (g : Gateway)
      → All (λ e. e ≢ Event.button) es
      → AllSourced g
      → AllSourced (run pf link es g)
  run-AllSourced [] g n v = v
  run-AllSourced (e ∷ es) g n v =
      run-AllSourced es (step pf link e g) n.1 (step-AllSourced e g n.0 v)

  -- From the start, after any sequence of events without a press of the test button, if the frames fit
  -- a classical CAN bus: each frame that was handed to `can_send` is the one that its sender makes of
  -- a message, and the data of the message was carried by one payload of a decodable frame in the
  -- bytes that came in.
  pub run-IsSourced :
      (es : List Event) (s : Firmware pf link) (effects : List Effect)
      → IsClassic pf.candef
      → All (λ e. e ≢ Event.button) es
      → System.run pf link es (booted pf link) ≡ some (s, effects)
      → All (IsSourced (history pf link (run pf link es idle))) (handed pf link es (booted pf link))
  run-IsSourced es s effects cl n h =
      let (queue, all, held) = run-refines pf link es s effects cl h in
      subst (All (IsSourced (history pf link (run pf link es idle)))) (sym all)
        (run-AllSourced es idle n (tt, tt)).1
