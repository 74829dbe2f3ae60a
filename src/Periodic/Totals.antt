-- ===== src/Periodic/Totals.antt =====
-- The rates of received and of sent frames in the reports of a whole run.
use zephyr_can_converter_uni.Prelude.{
  ℕ, ◌+◌, ◌<◌, ◌≡◌, refl, ap, ◌∙◌, List, [], ◌∷◌, Option, none, some, arith, u32, map, All,
}
use zephyr_can_converter_uni.Platform.{Platform}
use zephyr_can_converter_uni.Frames.{FrameCounts, Tx}
use zephyr_can_converter_uni.Periodic.{Locals, locals_zero, Input, Report, tick}
use zephyr_can_converter_uni.Periodic.Rates.{Slot, run_ticks, inputs}
use zephyr_can_converter_uni.Periodic.Stats.{collect, reports}

-- The counters that a tick reads are uint32_t.
pub record IsWord (i : Input) : Type 0 where
  pub received : i.rs485_frames_received < 4294967296
  pub sent : i.can_frames_tx_ok < 4294967296

abbrev pub total : List ℕ → ℕ
total [] = 0
total (n ∷ ns) = n + total ns

abbrev pub received_of : List Report → ℕ
received_of rs = total (map (λ r. r.d_rs485) rs)

abbrev pub sent_of : List Report → ℕ
sent_of rs = total (map (λ r. r.d_can_ok) rs)

-- The counters as the last report saw them.
pub record IsSeen (l : Locals) : Type 0 where
  pub received : l.prev_rs485_rx < 4294967296
  pub sent : l.prev_can_tx_ok < 4294967296

module _ (pf : Platform) where
  abbrev listed : Option Report → List Report
  listed o = collect pf o []

  tick-total :
      (inp : Input) (l : Locals) (tx : Tx pf)
      → IsWord inp
      → IsSeen l
      → let r = tick pf inp l tx in
        IsSeen r.0
        × (u32 (l.prev_rs485_rx + received_of (listed r.2)) ≡ u32 r.0.prev_rs485_rx)
        × (u32 (l.prev_can_tx_ok + sent_of (listed r.2)) ≡ u32 r.0.prev_can_tx_ok)
  unfolding tick
  tick-total inp l tx w v = ground arith

  received_of-collect :
      (o : Option Report) (rs : List Report)
      → (received_of (collect pf o rs) ≡ received_of (listed o) + received_of rs)
        × (sent_of (collect pf o rs) ≡ sent_of (listed o) + sent_of rs)
  received_of-collect none rs = omega arith
  received_of-collect (some r) rs = omega arith

  reports-total_from :
      (ss : List (Slot pf)) (l : Locals) (c : FrameCounts)
      → All IsWord (inputs pf ss)
      → IsSeen l
      → let last = (run_ticks pf ss l c).0 in
        (u32 (l.prev_rs485_rx + received_of (reports pf ss l c)) ≡ u32 last.prev_rs485_rx)
        × (u32 (l.prev_can_tx_ok + sent_of (reports pf ss l c)) ≡ u32 last.prev_can_tx_ok)
  unfolding reports run_ticks
  reports-total_from [] l c w v = omega arith
  reports-total_from (s ∷ ss) l c w v =
      let tx : Tx pf = record { queue = s.queue; frame_counts = c } in
      let r = tick pf s.input l tx in
      let now = tick-total s.input l tx w.0 v in
      omega (
        arith,
        now,
        received_of-collect r.2 (reports pf ss r.0 r.1.frame_counts),
        reports-total_from ss r.0 r.1.frame_counts w.1 now.0,
      )

  -- What a tick with a report sees of a counter, or what was seen before.
  abbrev seen_by : ℕ → Option Report → ℕ → ℕ
  seen_by now none before = before
  seen_by now (some r) before = now

  -- A counter as the last of the ticks that made a report read it, `before` if none did.
  abbrev pub last_seen : (Input → ℕ) → List (Slot pf) → Locals → FrameCounts → ℕ → ℕ
  last_seen f [] l c before = before
  last_seen f (s ∷ ss) l c before =
      let (l', tx', r) = tick pf s.input l (record { queue = s.queue; frame_counts = c }) in
      last_seen f ss l' tx'.frame_counts (seen_by (f s.input) r before)

  tick-seen :
      (inp : Input) (l : Locals) (tx : Tx pf)
      → let r = tick pf inp l tx in
        (r.0.prev_rs485_rx ≡ seen_by inp.rs485_frames_received r.2 l.prev_rs485_rx)
        × (r.0.prev_can_tx_ok ≡ seen_by inp.can_frames_tx_ok r.2 l.prev_can_tx_ok)
  unfolding tick
  tick-seen inp l tx = ground arith

  run_ticks-seen :
      (ss : List (Slot pf)) (l : Locals) (c : FrameCounts)
      → let last = (run_ticks pf ss l c).0 in
        (last.prev_rs485_rx ≡ last_seen (λ i. i.rs485_frames_received) ss l c l.prev_rs485_rx)
        × (last.prev_can_tx_ok ≡ last_seen (λ i. i.can_frames_tx_ok) ss l c l.prev_can_tx_ok)
  unfolding run_ticks
  run_ticks-seen [] l c = (refl, refl)
  run_ticks-seen (s ∷ ss) l c =
      let tx : Tx pf = record { queue = s.queue; frame_counts = c } in
      let r = tick pf s.input l tx in
      let (received, sent) = tick-seen s.input l tx in
      let rest = run_ticks-seen ss r.0 r.1.frame_counts in
      (
        rest.0 ∙ ap (last_seen (λ i. i.rs485_frames_received) ss r.0 r.1.frame_counts) received,
        rest.1 ∙ ap (last_seen (λ i. i.can_frames_tx_ok) ss r.0 r.1.frame_counts) sent,
      )

  -- From the start of the thread, over any ticks, updates included: the numbers of received frames
  -- that the reports print add up, modulo 2^32, to the value of `rs485_frames_received` that the last
  -- tick with a report read, and those of sent frames to the value of `can_frames_tx_ok` that it read,
  -- also where these counters wrap; both are 0 where there was no report.
  pub reports-total :
      (ss : List (Slot pf)) (c : FrameCounts)
      → All IsWord (inputs pf ss)
      → (u32 (received_of (reports pf ss locals_zero c))
          ≡ u32 (last_seen (λ i. i.rs485_frames_received) ss locals_zero c 0))
        × (u32 (sent_of (reports pf ss locals_zero c))
            ≡ u32 (last_seen (λ i. i.can_frames_tx_ok) ss locals_zero c 0))
  reports-total ss c w = omega (
    arith,
    reports-total_from ss locals_zero c w (record { received = omega arith; sent = omega arith }),
    run_ticks-seen ss locals_zero c,
  )
