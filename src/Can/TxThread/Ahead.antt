-- ===== src/Can/TxThread/Ahead.antt =====
-- A step of the TX thread while frames wait in the queue that in truth are still to be offered.
use zephyr_can_converter_uni.Prelude.{
  ◌≡◌, refl, sym, ap, ap₂, ◌∙◌, ◌+◌, ◌≤◌, ◌<◌, List, [], ◌∷◌, ◌++◌, append-nil, append_assoc,
  Option, none, some, arith, length, length-append, lt→ltb,
}
use zephyr_can_converter_uni.Candef.{IsClassic}
use zephyr_can_converter_uni.Platform.{CanFrame, Platform, can_tx_depth}
use zephyr_can_converter_uni.Frames.{FrameCounts, Tx}
use zephyr_can_converter_uni.Frames.Counts.{frame_counts-send}
use zephyr_can_converter_uni.Frames.Delivery.{waiting}
use zephyr_can_converter_uni.Frames.Messages.{Message, kind, increment, send, send_all}
use zephyr_can_converter_uni.Frames.Push.{frame_of, frames_of, waiting-send}
use zephyr_can_converter_uni.Can.{Effect, tx_get, tx_take, tx_finish, ccu_can_tx_callback}
use zephyr_can_converter_uni.Can.TxThread.Fifo.{IsBehind, step-get, step-waiting}
use zephyr_can_converter_uni.Can.TxThread.Queue.{IsInner, step-frame_counts}
use zephyr_can_converter_uni.Can.TxThread.{TxPc, Machine, TxEvent, step_at, step}

abbrev pub counted : List Message → FrameCounts → FrameCounts
counted [] c = c
counted (x ∷ xs) c = counted xs (increment (kind x) c)

module _ (pf : Platform) where
  open pf use {candef, can_tx}

  abbrev pub with_tx : Tx pf → Machine pf → Machine pf
  with_tx tx m = record m { can = record (m.can) { tx = tx } }

  -- `tx` is `tx'` with the messages offered already.
  pub record IsAhead (xs : List Message) (tx tx' : Tx pf) : Type 0 where
    pub queued : waiting pf tx ≡ waiting pf tx' ++ frames_of pf xs
    pub counts : tx.frame_counts ≡ counted xs tx'.frame_counts

  abbrev also : Tx pf → Option (Machine pf × List Effect) → Option (Machine pf × List Effect)
  also tx none = none
  also tx (some (m, effects)) = some (with_tx tx m, effects)

  step_at-with_tx :
      (e : TxEvent pf) (pc : TxPc) (tx : Tx pf) (m : Machine pf)
      → IsBehind pf e
      → step_at pf e pc (with_tx tx m) ≡ also tx (step_at pf e pc m)
  unfolding step_at tx_take tx_finish ccu_can_tx_callback
  step_at-with_tx TxEvent.get pc tx m o = absurd o
  step_at-with_tx (TxEvent.others q) pc tx m o = absurd o
  step_at-with_tx _ _ tx m o = ground arith

  -- The same step with the messages offered before it.
  pub record IsAlike (xs : List Message) (e : TxEvent pf) (tx : Tx pf) (m m' : Machine pf)
      (effects : List Effect) : Type 0 where
    pub tx' : Tx pf
    pub moved : step pf e (with_tx tx m) ≡ some (with_tx tx' m', effects)
    pub ahead : IsAhead xs tx' m'.can.tx

  behind-IsAlike :
      (xs : List Message) (e : TxEvent pf) (tx : Tx pf) (m m' : Machine pf) (effects : List Effect)
      → IsBehind pf e
      → IsInner pf e
      → step pf e m ≡ some (m', effects)
      → IsAhead xs tx m.can.tx
      → IsAlike xs e tx m m' effects
  unfolding step
  behind-IsAlike xs e tx m m' effects o i h a = record {
    tx' = tx;
    moved = step_at-with_tx e m.pc tx m o ∙ ap (also tx) h;
    ahead = record {
      queued = a.queued ∙ ap (λ w. w ++ frames_of pf xs) (sym (step-waiting pf e m m' effects o h));
      counts = a.counts ∙ ap (counted xs) (sym (step-frame_counts pf e m m' effects i h));
    };
  }

  abbrev after_get : CanFrame → can_tx.Queue → Machine pf → Machine pf
  after_get f q m = record m {
    can = record (m.can) { tx = record (m.can.tx) { queue = q } };
    pc = TxPc.sending f;
  }

  step-get_first :
      (m : Machine pf) (f : CanFrame) (q : can_tx.Queue)
      → m.pc ≡ TxPc.fetching
      → can_tx.get m.can.tx.queue ≡ some (f, q)
      → step pf TxEvent.get m ≡ some (after_get f q m, [])
  unfolding step step_at tx_get
  step-get_first m f q at got = rw (at, step_at, tx_get, got) refl

  step-get_fetching :
      (pc : TxPc) (m m' : Machine pf) (effects : List Effect)
      → step_at pf TxEvent.get pc m ≡ some (m', effects)
      → pc ≡ TxPc.fetching
  unfolding step_at
  step-get_fetching TxPc.fetching m m' effects h = refl
  step-get_fetching _ m m' effects h = absurd (ground arith)

  get-IsAlike :
      (xs : List Message) (tx : Tx pf) (m m' : Machine pf) (effects : List Effect)
      → step pf TxEvent.get m ≡ some (m', effects)
      → IsAhead xs tx m.can.tx
      → IsAlike xs TxEvent.get tx m m' effects
  unfolding step tx_get
  get-IsAlike xs tx m m' effects h a =
      let at : m.pc ≡ TxPc.fetching = step-get_fetching m.pc m m' effects h in
      let (f, handed, first) = step-get pf m m' effects h in
      let (q, got, left) = can_tx.get_first m.can.tx.queue f (waiting pf m'.can.tx) first in
      let (q', got', left') =
        can_tx.get_first tx.queue f (waiting pf m'.can.tx ++ frames_of pf xs)
          (a.queued ∙ ap (λ w. w ++ frames_of pf xs) first) in
      let moves : step pf TxEvent.get m ≡ some (after_get f q m, []) =
        step-get_first m f q at got in
      let next : m' ≡ after_get f q m = ground arith in
      let silent : effects ≡ [] = ground arith in
      record {
        tx' = record tx { queue = q' };
        moved =
            step-get_first (with_tx tx m) f q' at got'
            ∙ ap₂ (λ n fx. some (with_tx (record tx { queue = q' }) n, fx)) (sym next) (sym silent);
        ahead = record {
          queued = left';
          counts = a.counts ∙ ap (counted xs) (sym (ap (λ n. n.can.tx.frame_counts) next));
        };
      }

  pub step-IsAlike :
      (xs : List Message) (e : TxEvent pf) (tx : Tx pf) (m m' : Machine pf) (effects : List Effect)
      → IsInner pf e
      → step pf e m ≡ some (m', effects)
      → IsAhead xs tx m.can.tx
      → IsAlike xs e tx m m' effects
  step-IsAlike xs (TxEvent.others q) tx m m' effects i h a = absurd i
  step-IsAlike xs TxEvent.get tx m m' effects i h a = get-IsAlike xs tx m m' effects h a
  step-IsAlike xs e tx m m' effects i h a = behind-IsAlike xs e tx m m' effects tt tt h a

  -- With room, a sender puts its frame behind those that wait.
  pub send-push :
      (x : Message) (tx : Tx pf)
      → IsClassic candef
      → length (waiting pf tx) < can_tx_depth
      → waiting pf (send pf x tx) ≡ waiting pf tx ++ frame_of pf x ∷ []
  send-push x tx cl room = waiting-send pf x tx cl ∙ rw (lt→ltb _ _ room) refl

  pub length-send :
      (x : Message) (tx : Tx pf)
      → IsClassic candef
      → length (waiting pf tx) < can_tx_depth
      → length (waiting pf (send pf x tx)) ≡ length (waiting pf tx) + 1
  length-send x tx cl room =
      ap length (send-push x tx cl room) ∙ length-append {0} (waiting pf tx) (frame_of pf x ∷ [])

  -- The messages offered all at once.
  pub send_all-IsAhead :
      (xs : List Message) (tx : Tx pf)
      → IsClassic candef
      → length (waiting pf tx) + length xs ≤ can_tx_depth
      → IsAhead xs (send_all pf xs tx) tx
  unfolding send_all
  send_all-IsAhead [] tx cl room = record {
    queued = sym (append-nil (waiting pf tx));
    counts = refl;
  }
  send_all-IsAhead (x ∷ xs) tx cl room =
      let rest =
        send_all-IsAhead xs (send pf x tx) cl (omega (arith, length-send x tx cl (omega arith))) in
      record {
        queued =
            rest.queued
            ∙ (ap (λ w. w ++ frames_of pf xs) (send-push x tx cl (omega arith))
                ∙ append_assoc (waiting pf tx) (frame_of pf x ∷ []) (frames_of pf xs));
        counts = rest.counts ∙ ap (counted xs) (frame_counts-send pf x tx);
      }

  pub offer-IsAhead :
      (x : Message) (xs : List Message) (tx tx' : Tx pf)
      → IsClassic candef
      → length (waiting pf tx') < can_tx_depth
      → IsAhead (x ∷ xs) tx tx'
      → IsAhead xs tx (send pf x tx')
  offer-IsAhead x xs tx tx' cl room a = record {
    queued =
        a.queued
        ∙ (sym (append_assoc (waiting pf tx') (frame_of pf x ∷ []) (frames_of pf xs))
            ∙ ap (λ w. w ++ frames_of pf xs) (sym (send-push x tx' cl room)));
    counts = a.counts ∙ ap (counted xs) (sym (frame_counts-send pf x tx'));
  }

  pub step-shorter :
      (e : TxEvent pf) (m m' : Machine pf) (effects : List Effect)
      → IsInner pf e
      → step pf e m ≡ some (m', effects)
      → length (waiting pf m'.can.tx) ≤ length (waiting pf m.can.tx)
  step-shorter (TxEvent.others q) m m' effects i h = absurd i
  step-shorter TxEvent.get m m' effects i h =
      let (f, handed, first) = step-get pf m m' effects h in omega (arith, ap length first)
  step-shorter e m m' effects i h = rw (step-waiting pf e m m' effects tt h) (omega arith)
