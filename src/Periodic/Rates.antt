-- ===== src/Periodic/Rates.antt =====
-- How many frames of each kind the periodic thread sends over any run of ticks.
use mathlib.Core.Logic.{ite, if_pos, if_neg}
use zephyr_can_converter_uni.Prelude.{
  ℕ, suc, ◌+◌, ◌/◌, ◌≡◌, ◌≢◌, refl, ap, ◌∙◌, true, false, List, [], ◌∷◌, ◌++◌, map, length,
  length-map, arith, u32, inl, inr, Bool-cases, All,
}
use zephyr_can_converter_uni.Platform.{Platform}
use zephyr_can_converter_uni.Frames.{FrameCounts, frame_counts_zero, Tx}
use zephyr_can_converter_uni.Frames.Messages.{FrameKind, Message, kind, counter, send, send_all}
use zephyr_can_converter_uni.Frames.Counts.{FrameKind-discrete, counter-send}
use zephyr_can_converter_uni.Periodic.{Locals, locals_zero, Input, tick}
use zephyr_can_converter_uni.Periodic.Phase.{
  due, InPhase, locals_zero-InPhase, tick-InPhase, tick-InPhase_dfu, tick-due, tick_dfu,
}

-- How often a kind occurs among the messages.
unfoldable pub occurrences : FrameKind → List Message → ℕ
unfolding FrameKind-discrete
occurrences k [] = 0
occurrences k (m ∷ ms) = ite (FrameKind-discrete k (kind m)) 1 0 + occurrences k ms

pub occurrences-cons_self :
    (k : FrameKind) (m : Message) (ms : List Message)
    → k ≡ kind m
    → occurrences k (m ∷ ms) ≡ 1 + occurrences k ms
unfolding occurrences
occurrences-cons_self k m ms h = rw (if_pos {C = ℕ} (FrameKind-discrete k (kind m)) h 1 0)

pub occurrences-cons_ne :
    (k : FrameKind) (m : Message) (ms : List Message)
    → k ≢ kind m
    → occurrences k (m ∷ ms) ≡ occurrences k ms
unfolding occurrences
occurrences-cons_ne k m ms h =
    rw (if_neg {C = ℕ} (FrameKind-discrete k (kind m)) h 1 0) (omega arith)

pub occurrences-append :
    (k : FrameKind) (xs ys : List Message)
    → occurrences k (xs ++ ys) ≡ occurrences k xs + occurrences k ys
unfolding occurrences
occurrences-append k [] ys = omega arith
occurrences-append k (x ∷ xs) ys = omega (arith, occurrences-append k xs ys)

-- What a run of ticks has to send, by the schedule; an update restarts the faster rates.
abbrev pub scheduled : ℕ → ℕ → List Input → List Message
scheduled a b [] = []
scheduled a b (i ∷ is) = elim i.dfu_active [
  | true ↦ scheduled 0 b is
  | false ↦ due (suc a) (suc b) i.master_data ++ scheduled (suc a) (suc b) is
]

scheduled-dfu :
    (a b : ℕ) (i : Input) (is : List Input)
    → i.dfu_active ≡ true
    → scheduled a b (i ∷ is) ≡ scheduled 0 b is
scheduled-dfu a b i is h = rw (h, scheduled)

scheduled-normal :
    (a b : ℕ) (i : Input) (is : List Input)
    → i.dfu_active ≡ false
    → scheduled a b (i ∷ is) ≡ due (suc a) (suc b) i.master_data ++ scheduled (suc a) (suc b) is
scheduled-normal a b i is h = rw (h, scheduled)

-- Every part of the store is valid and no update runs.
pub record IsLive (i : Input) : Type 0 where
  pub normal : i.dfu_active ≡ false
  pub measurements : i.master_data.master_measurements_valid ≡ true
  pub status : i.master_data.master_status_valid ≡ true
  pub values : i.master_data.protium_values_valid ≡ true
  pub operating_state : i.master_data.protium_operating_state_valid ≡ true
  pub faults : i.master_data.master_faults_valid ≡ true

-- The frames of each kind in the first `n` ticks, by the rates of the comments: 100 Hz, 10 Hz, 1 Hz
-- and 0.1 Hz; time synchronisation frames are not sent at all.
abbrev pub expected : FrameKind → ℕ → ℕ
expected FrameKind.mcu_time_sync n = 0
expected FrameKind.mcu_state n = n
expected FrameKind.mcu_faults n = n
expected FrameKind.mcu_analog_speed n = n / 10
expected FrameKind.mcu_analog_powertrain n = n / 10
expected FrameKind.mcu_analog_fuel_cell n = n / 10
expected FrameKind.mcu_analog_accessory n = n / 10
expected FrameKind.mcu_analog_unassigned n = n / 1000
expected _ n = n / 100

pub expected-due :
    (k : FrameKind) (a : ℕ) (i : Input)
    → IsLive i
    → occurrences k (due (suc a) (suc a) i.master_data) + expected k a ≡ expected k (suc a)
unfolding occurrences
expected-due FrameKind.mcu_state a i v = ground arith
expected-due k a i v = ground arith

scheduled-live :
    (k : FrameKind) (is : List Input) (a : ℕ)
    → All IsLive is
    → occurrences k (scheduled a a is) + expected k a ≡ expected k (length is + a)
unfolding occurrences
scheduled-live k [] a v = let e : 0 + a ≡ a = omega arith in rw (e, occurrences) (omega arith)
scheduled-live k (i ∷ is) a v =
    let e : length (i ∷ is) + a ≡ length is + suc a = omega arith in
    rw (scheduled-normal a a i is v.0.normal, e)
      (omega (
        arith,
        occurrences-append k (due (suc a) (suc a) i.master_data) (scheduled (suc a) (suc a) is),
        expected-due k a i v.0,
        scheduled-live k is (suc a) v.1,
      ))

-- One more of a kind, or not, in a sum modulo 2^32.
ite-grow {ℓ} :
    {P : Type ℓ} (d : Dec P) (x o : ℕ) {y : ℕ}
    → y ≡ ite d (u32 (x + 1)) x
    → u32 (y + o) ≡ u32 (x + (ite d 1 0 + o))
ite-grow (yes p) x o h = omega arith
ite-grow (no p) x o h = omega arith

expected-zero : (k : FrameKind) → expected k 0 ≡ 0
expected-zero FrameKind.mcu_state = refl
expected-zero _ = refl

pub counter-zero : (k : FrameKind) → counter k frame_counts_zero ≡ 0
counter-zero FrameKind.mcu_state = refl
counter-zero _ = refl

module _ (pf : Platform) where
  open pf use {can_tx}

  -- A tick with the queue as the other threads left it.
  pub record Slot : Type 0 where
    pub input : Input
    pub queue : can_tx.Queue

  -- The ticks one after the other. The counters are left alone between two ticks: nobody presses the
  -- test button.
  unfoldable pub run_ticks : List Slot → Locals → FrameCounts → Locals × FrameCounts
  run_ticks [] l c = (l, c)
  run_ticks (s ∷ ss) l c =
      let (l', tx', r) = tick pf s.input l (record { queue = s.queue; frame_counts = c }) in
      run_ticks ss l' tx'.frame_counts

  pub counter-send_all :
      (k : FrameKind) (ms : List Message) (tx : Tx pf)
      → u32 (counter k (send_all pf ms tx).frame_counts)
        ≡ u32 (counter k tx.frame_counts + occurrences k ms)
  unfolding send_all occurrences
  counter-send_all k [] tx = omega arith
  counter-send_all k (m ∷ ms) tx =
      counter-send_all k ms (send pf m tx)
      ∙ ite-grow (FrameKind-discrete k (kind m)) (counter k tx.frame_counts) (occurrences k ms)
          (counter-send pf k m tx)

  abbrev pub inputs : List Slot → List Input
  inputs = map (λ s. s.input)

  -- Over any run of ticks that starts in phase and has no press of the test button in it, so that the
  -- thread alone writes the counters, whatever the store holds and whenever an update runs: each
  -- counter grows, modulo 2^32, by the number of frames of its kind that the schedule lists.
  pub counter-run_ticks :
      (k : FrameKind) (ss : List Slot) (a b : ℕ) (l : Locals) (c : FrameCounts)
      → InPhase a b l
      → u32 (counter k (run_ticks ss l c).1)
        ≡ u32 (counter k c + occurrences k (scheduled a b (inputs ss)))
  unfolding run_ticks occurrences
  counter-run_ticks k [] a b l c p = omega arith
  counter-run_ticks k (s ∷ ss) a b l c p = elim (Bool-cases s.input.dfu_active) [
    | inl dfu ↦ rw (scheduled-dfu a b s.input (inputs ss) dfu) (
        counter-run_ticks k ss 0 b l' c' (tick-InPhase_dfu pf s.input a b l tx dfu p)
        ∙ ap
            (λ (t : Tx pf).
              u32 (counter k t.frame_counts + occurrences k (scheduled 0 b (inputs ss))))
            (tick_dfu pf s.input l tx dfu).0)
    | inr normal ↦
        let sent = due (suc a) (suc b) s.input.master_data in
        rw (scheduled-normal a b s.input (inputs ss) normal) (
          omega (
            arith,
            counter-run_ticks k ss (suc a) (suc b) l' c'
                (tick-InPhase pf s.input a b l tx normal p),
            ap (λ (t : Tx pf). u32 (counter k t.frame_counts))
                (tick-due pf s.input a b l tx normal p),
            counter-send_all k sent tx,
            occurrences-append k sent (scheduled (suc a) (suc b) (inputs ss)),
          ))
  ]
    where
      tx : Tx pf
      tx = record { queue = s.queue; frame_counts = c }

      l' : Locals
      l' = (tick pf s.input l tx).0

      c' : FrameCounts
      c' = (tick pf s.input l tx).1.frame_counts

  -- From the start of the thread, with all data valid, no update and no press of the test button, so
  -- that the thread alone writes the counters: after n ticks of 10 ms the counter of each kind of frame
  -- is, modulo 2^32, the number that the comments of the thread give (100 Hz, 10 Hz, 1 Hz or 0.1 Hz,
  -- and never for the time synchronisation), whatever happens to the queue in between.
  pub run_ticks-live :
      (k : FrameKind) (ss : List Slot)
      → All IsLive (inputs ss)
      → u32 (counter k (run_ticks ss locals_zero frame_counts_zero).1)
        ≡ u32 (expected k (length ss))
  run_ticks-live k ss v =
      counter-run_ticks k ss 0 0 locals_zero frame_counts_zero locals_zero-InPhase ∙ ap u32 in_all
    where
      sent : ℕ
      sent = occurrences k (scheduled 0 0 (inputs ss))

      ticks : length (inputs ss) + 0 ≡ length ss
      ticks = omega (arith, length-map {0, 0} (λ (s : Slot). s.input) ss)

      in_all : counter k frame_counts_zero + sent ≡ expected k (length ss)
      in_all =
          rw (← ticks)
            (omega (arith, scheduled-live k (inputs ss) 0 v, expected-zero k, counter-zero k))
