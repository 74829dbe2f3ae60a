-- ===== src/Can/TxThread/Queue.antt =====
-- What the TX thread leaves in its queue.
use zephyr_can_converter_uni.Prelude.{
  ◌≤◌, ◌≡◌, refl, subst, List, [], ◌∷◌, some, arith, length, All, inl, inr, Option-cases,
}
use zephyr_can_converter_uni.Platform.{CanFrame, Platform, can_tx_depth}
use zephyr_can_converter_uni.Frames.{Tx}
use zephyr_can_converter_uni.Frames.Delivery.{waiting}
use zephyr_can_converter_uni.Frames.Invariant.{IsSendable, IsQueue}
use zephyr_can_converter_uni.Can.{Can, Effect, tx_get, tx_take, tx_finish, ccu_can_tx_callback}
use zephyr_can_converter_uni.Can.TxThread.{TxPc, Machine, TxEvent, step_at, step}

module _ (pf : Platform) where
  open pf use {can_tx}

  pub empty-IsQueue : (tx : Tx pf) → waiting pf tx ≡ [] → IsQueue pf tx
  empty-IsQueue tx h = record { bounded = rw h (omega arith); sendable = rw h tt }

  tx_get-IsQueue :
      (c c' : Can pf) (f : CanFrame)
      → tx_get pf c ≡ some (f, c')
      → IsQueue pf c.tx
      → IsQueue pf c'.tx
  unfolding tx_get
  tx_get-IsQueue c c' f h q = by_contents (waiting pf c.tx) refl
    where
      by_contents : (w : List CanFrame) → waiting pf c.tx ≡ w → IsQueue pf c'.tx
      by_contents [] e = ground (arith, can_tx.get_empty c.tx.queue e)
      by_contents (g ∷ rest) e =
          let (q', got, left) = can_tx.get_first c.tx.queue g rest e in
          let same : c'.tx.queue ≡ q' = ground arith in
          let bounded : length (g ∷ rest) ≤ can_tx_depth =
            subst (λ w. length w ≤ can_tx_depth) e q.bounded in
          let sendable : All (IsSendable pf) (g ∷ rest) =
            subst (All (IsSendable pf)) e q.sendable in
          record {
            bounded = rw (same, left) (omega arith);
            sendable = rw (same, left) (sendable.1);
          }

  -- What the other threads may do to the queue while the TX thread waits.
  abbrev pub IsOwn : TxEvent pf → Type 0
  IsOwn (TxEvent.others tx) = IsQueue pf tx
  IsOwn _ = Unit

  step_at-IsQueue :
      (e : TxEvent pf) (pc : TxPc) (m m' : Machine pf) (effects : List Effect)
      → IsOwn e
      → step_at pf e pc m ≡ some (m', effects)
      → IsQueue pf m.can.tx
      → IsQueue pf m'.can.tx
  unfolding step_at tx_finish ccu_can_tx_callback tx_take
  step_at-IsQueue TxEvent.get TxPc.fetching m m' effects o h q =
      elim (Option-cases (tx_get pf m.can)) [
        | inl e ↦ ground arith
        | inr ((f, c), e) ↦ ground (arith, tx_get-IsQueue m.can c f e q)
      ]
  step_at-IsQueue _ _ m m' effects o h q = ground arith

  -- A step of the TX thread or of the driver keeps the invariant of the queue.
  pub step-IsQueue :
      (e : TxEvent pf) (m m' : Machine pf) (effects : List Effect)
      → IsOwn e
      → step pf e m ≡ some (m', effects)
      → IsQueue pf m.can.tx
      → IsQueue pf m'.can.tx
  unfolding step
  step-IsQueue e m m' effects o h q = step_at-IsQueue e m.pc m m' effects o h q

  -- A step of the TX thread itself or of the driver.
  abbrev pub IsInner : TxEvent pf → Type 0
  IsInner (TxEvent.others tx) = ⊥
  IsInner _ = Unit

  step_at-frame_counts :
      (e : TxEvent pf) (pc : TxPc) (m m' : Machine pf) (effects : List Effect)
      → IsInner e
      → step_at pf e pc m ≡ some (m', effects)
      → m'.can.tx.frame_counts ≡ m.can.tx.frame_counts
  unfolding step_at tx_get tx_take tx_finish ccu_can_tx_callback
  step_at-frame_counts TxEvent.get TxPc.fetching m m' effects o h = ground arith
  step_at-frame_counts (TxEvent.others tx) pc m m' effects o h = absurd o
  step_at-frame_counts _ _ m m' effects o h = ground arith

  -- Such a step leaves the counters of frames alone.
  pub step-frame_counts :
      (e : TxEvent pf) (m m' : Machine pf) (effects : List Effect)
      → IsInner e
      → step pf e m ≡ some (m', effects)
      → m'.can.tx.frame_counts ≡ m.can.tx.frame_counts
  unfolding step
  step-frame_counts e m m' effects o h = step_at-frame_counts e m.pc m m' effects o h
