-- ===== src/System/Writers.antt =====
-- The periodic thread and the handler of the test button, which send their frames at the same time and
-- frame by frame, while the TX thread and the driver go on.
pub mod Joined
pub mod Merged
use zephyr_can_converter_uni.Prelude.{
  ℕ, ◌≡◌, refl, sym, subst, ap, ◌∙◌, ◌+◌, ◌≤◌, ◌<◌, List, [], ◌∷◌, ◌++◌, append-nil, append_assoc,
  Option, none, some, arith, length, length-append, inl, inr, Option-cases, All, lt→ltb,
}
use zephyr_can_converter_uni.Candef.{IsClassic}
use zephyr_can_converter_uni.Platform.{CanFrame, Platform, can_tx_depth}
use zephyr_can_converter_uni.Frames.{Tx}
use zephyr_can_converter_uni.Frames.Delivery.{waiting}
use zephyr_can_converter_uni.Frames.Messages.{Message, send}
use zephyr_can_converter_uni.Frames.Push.{frame_of, frames_of}
use zephyr_can_converter_uni.Can.{Effect}
use zephyr_can_converter_uni.Can.TxThread
use zephyr_can_converter_uni.Can.TxThread.{Machine, TxEvent}
use zephyr_can_converter_uni.Can.TxThread.Ahead.{with_tx, send-push}
use zephyr_can_converter_uni.Can.TxThread.Fifo.{fetched, step-get, step-waiting}
use zephyr_can_converter_uni.Can.TxThread.Queue.{IsInner}

-- The third list has the elements of the first two, those of each in their order.
pub data Interleaves {ℓ} {A : Type ℓ} : List A → List A → List A → Type ℓ where
  neither : Interleaves [] [] []
  left : {xs ys zs : List A} (x : A) → Interleaves xs ys zs → Interleaves (x ∷ xs) ys (x ∷ zs)
  right : {xs ys zs : List A} (y : A) → Interleaves xs ys zs → Interleaves xs (y ∷ ys) (y ∷ zs)

module _ (pf : Platform) where
  -- `periodic` and `button` are what each of the two has still to send.
  pub record Shared : Type 0 where
    pub machine : Machine pf
    pub periodic : List Message
    pub button : List Message

  -- Who makes the next step.
  pub data Turn : Type 0 where
    of_periodic : Turn
    of_button : Turn
    of_tx : TxEvent pf → Turn

  abbrev pub sent : Message → Machine pf → Machine pf
  sent x m = with_tx pf (send pf x m.can.tx) m

  abbrev pub step_with : Turn → List Message → List Message → Machine pf → Option Shared
  step_with Turn.of_periodic (x ∷ xs) ys m =
      some (record { machine = sent x m; periodic = xs; button = ys })
  step_with Turn.of_button xs (y ∷ ys) m =
      some (record { machine = sent y m; periodic = xs; button = ys })
  step_with (Turn.of_tx e) xs ys m = elim (TxThread.step pf e m) [
    | none ↦ none
    | some (m', effects) ↦ some (record { machine = m'; periodic = xs; button = ys })
  ]
  step_with _ xs ys m = none

  -- A step; `none` where it cannot be made.
  unfoldable pub step : Turn → Shared → Option Shared
  step t s = step_with t s.periodic s.button s.machine

  unfoldable pub run : List Turn → Shared → Option Shared
  unfolding step
  run [] s = some s
  run (t ∷ ts) s = elim (step t s) [ none ↦ none | some s' ↦ run ts s' ]

  -- The frame that a step hands to `can_send`, told from where the TX thread stands after it.
  abbrev pub handed_by : Turn → Shared → List CanFrame
  handed_by (Turn.of_tx e) s = fetched pf e s.machine.pc
  handed_by _ s = []

  abbrev pub all_handed : List Turn → Shared → List CanFrame
  all_handed [] s = []
  all_handed (t ∷ ts) s = elim (step t s) [
    | none ↦ []
    | some s' ↦ handed_by t s' ++ all_handed ts s'
  ]

  abbrev pub IsInnerTurn : Turn → Type 0
  IsInnerTurn (Turn.of_tx e) = IsInner pf e
  IsInnerTurn _ = Unit

  abbrev pub queue_of : Shared → List CanFrame
  queue_of s = waiting pf s.machine.can.tx

  -- How many frames there are at most once everything is sent.
  abbrev pub load : Shared → ℕ
  load s = length (queue_of s) + length s.periodic + length s.button

  -- From `s` to `t`, the frames `handed` were handed on: what the periodic thread and the handler sent
  -- came behind what waited, and all of this was handed on or still waits.
  pub record IsMerged (s t : Shared) (handed : List CanFrame) : Type 0 where
    pub from_periodic : List Message
    pub from_button : List Message
    pub merged : List CanFrame
    pub rest_periodic : s.periodic ≡ from_periodic ++ t.periodic
    pub rest_button : s.button ≡ from_button ++ t.button
    pub in_order : Interleaves (frames_of pf from_periodic) (frames_of pf from_button) merged
    pub conserved : queue_of s ++ merged ≡ handed ++ queue_of t
