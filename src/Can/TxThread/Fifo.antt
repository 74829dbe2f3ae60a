-- ===== src/Can/TxThread/Fifo.antt =====
-- The order in which the TX thread hands frames to `can_send`.
use zephyr_can_converter_uni.Prelude.{
  All, ◌≡◌, refl, sym, ap, ◌∙◌, List, [], ◌∷◌, ◌++◌, append-nil, append_assoc, none, some, arith,
  length, drop, inl, inr, Option-cases,
}
use zephyr_can_converter_uni.Platform.{CanFrame, Platform}
use zephyr_can_converter_uni.Frames.Delivery.{waiting}
use zephyr_can_converter_uni.Can.{Can, Effect, tx_get, tx_take, tx_finish, ccu_can_tx_callback}
use zephyr_can_converter_uni.Can.TxThread.Queue.{IsInner}
use zephyr_can_converter_uni.Can.TxThread.{TxPc, Machine, TxEvent, step_at, step, run}

module _ (pf : Platform) where
  open pf use {can_tx}

  -- The frame that a step hands on, told from where the thread stands after it.
  abbrev pub fetched : TxEvent pf → TxPc → List CanFrame
  fetched TxEvent.get (TxPc.sending f) = f ∷ []
  fetched _ pc = []

  -- The frames that the other threads add behind those that wait.
  abbrev pub added : TxEvent pf → Machine pf → List CanFrame
  added (TxEvent.others tx) m = drop (length (waiting pf m.can.tx)) (waiting pf tx)
  added _ m = []

  -- The other threads only add frames.
  abbrev pub OnlyAdds : TxEvent pf → Machine pf → Type 0
  OnlyAdds (TxEvent.others tx) m =
      waiting pf tx ≡ waiting pf m.can.tx ++ added (TxEvent.others tx) m
  OnlyAdds _ m = Unit

  -- These over a run.
  abbrev pub all_fetched : List (TxEvent pf) → Machine pf → List CanFrame
  all_fetched [] m = []
  all_fetched (e ∷ es) m = elim (step pf e m) [
    | none ↦ []
    | some (m', effects) ↦ fetched e m'.pc ++ all_fetched es m'
  ]

  abbrev pub all_added : List (TxEvent pf) → Machine pf → List CanFrame
  all_added [] m = []
  all_added (e ∷ es) m = elim (step pf e m) [
    | none ↦ []
    | some (m', effects) ↦ added e m ++ all_added es m'
  ]

  abbrev pub AllOnlyAdd : List (TxEvent pf) → Machine pf → Type 0
  AllOnlyAdd [] m = Unit
  AllOnlyAdd (e ∷ es) m = elim (step pf e m) [
    | none ↦ Unit
    | some (m', effects) ↦ OnlyAdds e m × AllOnlyAdd es m'
  ]

  pub tx_get-waiting :
      (c c' : Can pf) (f : CanFrame)
      → tx_get pf c ≡ some (f, c')
      → waiting pf c.tx ≡ f ∷ waiting pf c'.tx
  unfolding tx_get
  tx_get-waiting c c' f h = by_contents (waiting pf c.tx) refl
    where
      by_contents :
          (w : List CanFrame) → waiting pf c.tx ≡ w → waiting pf c.tx ≡ f ∷ waiting pf c'.tx
      by_contents [] e = ground (arith, can_tx.get_empty c.tx.queue e)
      by_contents (g ∷ rest) e =
          let (q', got, left) = can_tx.get_first c.tx.queue g rest e in ground arith

  step_at-fetched :
      (e : TxEvent pf) (pc : TxPc) (m m' : Machine pf) (effects : List Effect)
      → OnlyAdds e m
      → step_at pf e pc m ≡ some (m', effects)
      → waiting pf m.can.tx ++ added e m ≡ fetched e m'.pc ++ waiting pf m'.can.tx
  unfolding step_at tx_finish ccu_can_tx_callback tx_take
  step_at-fetched TxEvent.get TxPc.fetching m m' effects o h =
      elim (Option-cases (tx_get pf m.can)) [
        | inl e ↦ ground arith
        | inr ((f, c), e) ↦
            append-nil (waiting pf m.can.tx) ∙ ground (arith, tx_get-waiting m.can c f e)
      ]
  step_at-fetched (TxEvent.others tx) pc m m' effects o h = sym o ∙ ground arith
  step_at-fetched _ _ m m' effects o h = append-nil (waiting pf m.can.tx) ∙ ground arith

  -- The steps of the TX thread and of the driver but the one that fetches.
  abbrev pub IsBehind : TxEvent pf → Type 0
  IsBehind TxEvent.get = ⊥
  IsBehind (TxEvent.others tx) = ⊥
  IsBehind _ = Unit

  step_at-get :
      (pc : TxPc) (m m' : Machine pf) (effects : List Effect)
      → step_at pf TxEvent.get pc m ≡ some (m', effects)
      → (f : CanFrame) × (fetched TxEvent.get m'.pc ≡ f ∷ [])
        × (waiting pf m.can.tx ≡ f ∷ waiting pf m'.can.tx)
  unfolding step_at
  step_at-get TxPc.fetching m m' effects h = elim (Option-cases (tx_get pf m.can)) [
    | inl e ↦ absurd (ground arith)
    | inr ((f, c), e) ↦ (f, ground arith, tx_get-waiting m.can c f e ∙ ground arith)
  ]
  step_at-get _ m m' effects h = absurd (ground arith)

  step_at-waiting :
      (e : TxEvent pf) (pc : TxPc) (m m' : Machine pf) (effects : List Effect)
      → IsBehind e
      → step_at pf e pc m ≡ some (m', effects)
      → waiting pf m'.can.tx ≡ waiting pf m.can.tx
  unfolding step_at tx_finish ccu_can_tx_callback tx_take
  step_at-waiting TxEvent.get pc m m' effects o h = absurd o
  step_at-waiting (TxEvent.others tx) pc m m' effects o h = absurd o
  step_at-waiting _ _ m m' effects o h = ground arith

  -- What a `get` hands on is the first frame that waited.
  pub step-get :
      (m m' : Machine pf) (effects : List Effect)
      → step pf TxEvent.get m ≡ some (m', effects)
      → (f : CanFrame) × (fetched TxEvent.get m'.pc ≡ f ∷ [])
        × (waiting pf m.can.tx ≡ f ∷ waiting pf m'.can.tx)
  unfolding step
  step-get m m' effects h = step_at-get m.pc m m' effects h

  -- They leave the queue alone.
  pub step-waiting :
      (e : TxEvent pf) (m m' : Machine pf) (effects : List Effect)
      → IsBehind e
      → step pf e m ≡ some (m', effects)
      → waiting pf m'.can.tx ≡ waiting pf m.can.tx
  unfolding step
  step-waiting e m m' effects o h = step_at-waiting e m.pc m m' effects o h

  -- While the other threads only add frames to the queue: the frames that waited, followed by those
  -- that were added, are the frames that the thread handed to `can_send`, followed by those that
  -- still wait. So frames are handed on in the order in which they were queued, and none twice.
  pub run-fetched :
      (es : List (TxEvent pf)) (m m' : Machine pf)
      → run pf es m ≡ some m'
      → AllOnlyAdd es m
      → waiting pf m.can.tx ++ all_added es m ≡ all_fetched es m ++ waiting pf m'.can.tx
  unfolding run step
  run-fetched [] m m' h o = append-nil (waiting pf m.can.tx) ∙ ground arith
  run-fetched (e ∷ es) m m' h o = elim (Option-cases (step pf e m)) [
    | inl stuck ↦ ground arith
    | inr ((next, effects), moved) ↦
        let first : List CanFrame = fetched e next.pc in
        let behind : List CanFrame = all_added es next in
        let split : all_added (e ∷ es) m ≡ added e m ++ behind = rw (moved, all_added) in
        let joined : first ++ all_fetched es next ≡ all_fetched (e ∷ es) m =
          rw (moved, all_fetched) in
        let only : OnlyAdds e m × AllOnlyAdd es next = rw (moved, AllOnlyAdd) at o in
        let now = step_at-fetched e m.pc m next effects only.0 moved in
        let rest = run-fetched es next m' (ground arith) only.1 in
        ap (λ l. waiting pf m.can.tx ++ l) split
        ∙ (sym (append_assoc (waiting pf m.can.tx) (added e m) behind)
            ∙ (ap (λ l. l ++ behind) now
                ∙ (append_assoc first (waiting pf next.can.tx) behind
                    ∙ (ap (λ l. first ++ l) rest
                        ∙ (sym (append_assoc first (all_fetched es next) (waiting pf m'.can.tx))
                            ∙ ap (λ l. l ++ waiting pf m'.can.tx) joined)))))
  ]

  inner-OnlyAdds : (e : TxEvent pf) (m : Machine pf) → IsInner pf e → OnlyAdds e m
  inner-OnlyAdds (TxEvent.others tx) m o = absurd o
  inner-OnlyAdds TxEvent.get m o = tt
  inner-OnlyAdds _ m o = tt

  inner-added : (e : TxEvent pf) (m : Machine pf) → IsInner pf e → added e m ≡ []
  inner-added (TxEvent.others tx) m o = absurd o
  inner-added TxEvent.get m o = refl
  inner-added _ m o = refl

  inner-AllOnlyAdd :
      (es : List (TxEvent pf)) (m : Machine pf)
      → All (IsInner pf) es
      → AllOnlyAdd es m × (all_added es m ≡ [])
  inner-AllOnlyAdd [] m o = (tt, refl)
  inner-AllOnlyAdd (e ∷ es) m o = elim (Option-cases (step pf e m)) [
    | inl stuck ↦ (rw (stuck, AllOnlyAdd) tt, rw (stuck, all_added) refl)
    | inr ((next, effects), moved) ↦
        let (only, none_added) = inner-AllOnlyAdd es next o.1 in
        (
          rw (moved, AllOnlyAdd) (inner-OnlyAdds e m o.0, only),
          rw (moved, all_added) (rw (inner-added e m o.0, none_added) refl),
        )
  ]

  -- With no other thread at work, the frames that waited are those that were handed on and those that
  -- still wait.
  pub run-fetched_inner :
      (es : List (TxEvent pf)) (m m' : Machine pf)
      → All (IsInner pf) es
      → run pf es m ≡ some m'
      → waiting pf m.can.tx ≡ all_fetched es m ++ waiting pf m'.can.tx
  run-fetched_inner es m m' o h =
      let (only, none_added) = inner-AllOnlyAdd es m o in
      let whole = run-fetched es m m' h only in
      sym (append-nil (waiting pf m.can.tx))
      ∙ (ap (λ l. waiting pf m.can.tx ++ l) (sym none_added) ∙ whole)
