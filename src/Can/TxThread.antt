-- ===== src/Can/TxThread.antt =====
-- The TX thread of src/can_converter_can.c and the driver that calls back, as steps in any order. A
-- step of the thread runs from one point where it can wait to the next. The driver calls back once
-- for each frame that `can_send` accepted, from an interrupt, at any time after it.
pub mod Accounting
pub mod Exact
pub mod Queue
pub mod Lit
pub mod Drain
pub mod Fifo
pub mod Ahead
pub mod Atomic
use zephyr_can_converter_uni.Prelude.{
  ℕ, zero, suc, ◌+◌, ◌-◌, Bool, List, [], ◌∷◌, Option, none, some, if◌then◌else◌, ℤ, is_zero,
}
use zephyr_can_converter_uni.Platform.{CanFrame, Platform}
use zephyr_can_converter_uni.Frames.{Tx}
use zephyr_can_converter_uni.Can.{Can, Effect, tx_get, tx_take, tx_finish, ccu_can_tx_callback}

-- Where the thread stands: at `k_msgq_get`, before `can_send`, at `k_sem_take`, after it.
pub data TxPc : Type 0 where
  fetching : TxPc
  sending : CanFrame → TxPc
  waiting : TxPc
  finishing : TxPc

-- What happened so far, for the statements only: the code keeps none of these.
pub record Ledger : Type 0 where
  pub accepted : ℕ  -- frames that `can_send` accepted
  pub callbacks : ℕ  -- calls back
  pub good : ℕ  -- calls back without an error
  pub timeouts : ℕ  -- waits for a call back that ran out
  pub oks : ℕ  -- increments of `can_frames_tx_ok`

module _ (pf : Platform) where
  pub record Machine : Type 0 where
    pub can : Can pf
    pub pc : TxPc
    pub in_flight : ℕ  -- accepted frames whose call back is still to come
    pub ledger : Ledger

  -- `sent` has the return code of `can_send`, `callback` the error that the driver reports; `others`
  -- is what the other threads do to the queue and the counters of frames.
  pub data TxEvent : Type 0 where
    get : TxEvent
    sent : (ret : ℤ) → TxEvent
    take : TxEvent
    timeout : TxEvent
    finish : TxEvent
    callback : (error : ℤ) → TxEvent
    others : Tx pf → TxEvent

  accept : Machine → Machine
  accept m = record m {
    pc = TxPc.waiting;
    in_flight = m.in_flight + 1;
    ledger = record (m.ledger) { accepted = m.ledger.accepted + 1 };
  }

  give_up : Machine → Machine
  give_up m = record m {
    pc = TxPc.fetching;
    ledger = record (m.ledger) { timeouts = m.ledger.timeouts + 1 };
  }

  conclude : Machine → Machine × List Effect
  conclude m =
      let (c, effects) = tx_finish pf m.can in
      (
        record m {
          can = c;
          pc = TxPc.fetching;
          ledger = record (m.ledger) {
            oks = m.ledger.oks + (if is_zero m.can.tx_result then 1 else 0);
          };
        },
        effects,
      )

  call_back : ℤ → Machine → Machine
  call_back error m = record m {
    can = ccu_can_tx_callback pf error m.can;
    in_flight = m.in_flight - 1;
    ledger = record (m.ledger) {
      callbacks = m.ledger.callbacks + 1;
      good = m.ledger.good + (if is_zero error then 1 else 0);
    };
  }

  -- The steps; `none` where the event cannot happen.
  step_at : TxEvent → TxPc → Machine → Option (Machine × List Effect)
  unfolding accept give_up conclude call_back
  step_at TxEvent.get TxPc.fetching m = elim (tx_get pf m.can) [
    | none ↦ none
    | some (f, c) ↦ some (record m { can = c; pc = TxPc.sending f }, [])
  ]
  step_at (TxEvent.sent ret) (TxPc.sending f) m =
      some (if is_zero ret then accept m else record m { pc = TxPc.fetching }, [])
  step_at TxEvent.take TxPc.waiting m = elim (tx_take pf m.can) [
    | none ↦ none
    | some c ↦ some (record m { can = c; pc = TxPc.finishing }, [])
  ]
  step_at TxEvent.timeout TxPc.waiting m = elim (tx_take pf m.can) [
    | none ↦ some (give_up m, [])
    | some c ↦ none
  ]
  step_at TxEvent.finish TxPc.finishing m = some (conclude m)
  step_at (TxEvent.callback error) pc m = elim m.in_flight [
    | zero ↦ none
    | suc n ↦ some (call_back error m, [])
  ]
  step_at (TxEvent.others tx) pc m = some (record m { can = record (m.can) { tx = tx } }, [])
  step_at _ _ m = none

  unfoldable pub step : TxEvent → Machine → Option (Machine × List Effect)
  unfolding step_at
  step e m = step_at e m.pc m

  -- A machine after the events, if each of them could happen.
  unfoldable pub run : List TxEvent → Machine → Option Machine
  unfolding step
  run [] m = some m
  run (e ∷ es) m = elim (step e m) [ none ↦ none | some (m', effects) ↦ run es m' ]
