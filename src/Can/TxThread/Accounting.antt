-- ===== src/Can/TxThread/Accounting.antt =====
-- The counter `can_frames_tx_ok` against the calls of the driver.
use zephyr_can_converter_uni.Prelude.{
  ℕ, ◌+◌, ◌≤◌, ◌≡◌, refl, false, List, [], ◌∷◌, none, some, arith, u32, pos, inl, inr, Option-cases,
  ℕ-cases,
}
use zephyr_can_converter_uni.Platform.{Platform}
use zephyr_can_converter_uni.Frames.{Tx}
use zephyr_can_converter_uni.Can.{Can, Effect, tx_get, tx_take, tx_finish, ccu_can_tx_callback}
use zephyr_can_converter_uni.Can.TxThread.{TxPc, Machine, TxEvent, step_at, step, run}

-- The thread has taken the semaphore and not yet looked at the result.
abbrev pub taken : TxPc → ℕ
taken TxPc.finishing = 1
taken _ = 0

module _ (pf : Platform) where
  open pf use {tx_done}

  abbrev pub done : Can pf → ℕ
  done c = tx_done.count c.done_sem

  -- Taking the semaphore lowers it by one and changes nothing else.
  pub tx_take-some :
      (c c' : Can pf)
      → tx_take pf c ≡ some c'
      → (done c ≡ done c' + 1) × (c'.tx_result ≡ c.tx_result) × (c'.frames_tx_ok ≡ c.frames_tx_ok)
  unfolding tx_take
  tx_take-some c c' h = elim (ℕ-cases (done c)) [
    | inl e ↦ ground (arith, tx_done.take_none c.done_sem e)
    | inr (n, e) ↦ let (s, taken_sem, left) = tx_done.take_some c.done_sem n e in ground arith
  ]

  pub tx_take-none : (c : Can pf) → tx_take pf c ≡ none → done c ≡ 0
  unfolding tx_take
  tx_take-none c h = elim (ℕ-cases (done c)) [
    | inl e ↦ e
    | inr (n, e) ↦ let (s, taken_sem, left) = tx_done.take_some c.done_sem n e in ground arith
  ]

  pub record IsBacked (m : Machine pf) : Type 0 where
    pub flying : m.in_flight + m.ledger.callbacks ≡ m.ledger.accepted
    pub binary : done m.can ≤ 1
    pub backed : m.ledger.oks + taken m.pc + done m.can ≤ m.ledger.callbacks
    pub good : m.ledger.good ≤ m.ledger.callbacks
    pub counted : m.can.frames_tx_ok ≡ u32 m.ledger.oks

  step_at-IsBacked :
      (e : TxEvent pf) (pc : TxPc) (m m' : Machine pf) (effects : List Effect)
      → m.pc ≡ pc
      → step_at pf e pc m ≡ some (m', effects)
      → IsBacked m
      → IsBacked m'
  unfolding step_at tx_get tx_finish ccu_can_tx_callback
  step_at-IsBacked TxEvent.get TxPc.fetching m m' effects p h b = ground arith
  step_at-IsBacked TxEvent.take TxPc.waiting m m' effects p h b =
      elim (Option-cases (tx_take pf m.can)) [
        | inl e ↦ ground arith
        | inr (c, e) ↦ ground (arith, tx_take-some m.can c e)
      ]
  step_at-IsBacked (TxEvent.callback error) pc m m' effects p h b =
      ground (arith, tx_done.count-give m.can.done_sem)
  step_at-IsBacked _ _ m m' effects p h b = ground arith

  -- Every step keeps the accounts.
  pub step-IsBacked :
      (e : TxEvent pf) (m m' : Machine pf) (effects : List Effect)
      → step pf e m ≡ some (m', effects)
      → IsBacked m
      → IsBacked m'
  unfolding step
  step-IsBacked e m m' effects h b = step_at-IsBacked e m.pc m m' effects refl h b

  pub run-IsBacked :
      (es : List (TxEvent pf)) (m m' : Machine pf)
      → run pf es m ≡ some m'
      → IsBacked m
      → IsBacked m'
  unfolding run
  run-IsBacked [] m m' h b = ground arith
  run-IsBacked (e ∷ es) m m' h b = elim (Option-cases (step pf e m)) [
    | inl none_left ↦ ground arith
    | inr ((next, effects), taken_step) ↦
        run-IsBacked es next m' (ground arith) (step-IsBacked e m next effects taken_step b)
  ]

  -- The start of the thread; the queue may already hold frames.
  abbrev pub boot : Tx pf → Machine pf
  boot tx = record {
    can = record {
      tx = tx;
      done_sem = tx_done.zero_sem;
      tx_result = pos 0;
      test_active = false;
      frames_tx_ok = 0;
    };
    pc = TxPc.fetching;
    in_flight = 0;
    ledger = record { accepted = 0; callbacks = 0; good = 0; timeouts = 0; oks = 0 };
  }

  pub boot-IsBacked : (tx : Tx pf) → IsBacked (boot tx)
  boot-IsBacked tx = omega (arith, tx_done.count-zero_sem)

  -- In any order of steps and calls back, time-outs included, `can_frames_tx_ok` counts (modulo 2^32)
  -- at most as many frames as the driver has called back for, and those are frames that it accepted.
  pub oks_backed :
      (tx : Tx pf) (es : List (TxEvent pf)) (m : Machine pf)
      → run pf es (boot tx) ≡ some m
      → (m.can.frames_tx_ok ≡ u32 m.ledger.oks)
        × (m.ledger.oks ≤ m.ledger.callbacks)
        × (m.ledger.callbacks ≤ m.ledger.accepted)
  oks_backed tx es m h = omega (arith, run-IsBacked es (boot tx) m h (boot-IsBacked tx))
