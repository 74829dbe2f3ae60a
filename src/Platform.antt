-- ===== src/Platform.antt =====
-- What the firmware runs on and what is not under src/: Zephyr's message queues and semaphores, its
-- CAN frame, the generated CAN library. Each is a record of operations with the behaviour that
-- Zephyr documents for them as laws, and a parameter of the model.
use zephyr_can_converter_uni.Prelude.{
  ℕ, ◌+◌, ◌≤◌, ◌<◌, ◌≡◌, true, false, List, [], ◌∷◌, ◌++◌, Option, none, some, min, length, ℤ,
  is_zero,
}
use zephyr_can_converter_uni.Candef.{Candef}

-- struct can_frame of zephyr/drivers/can.h, the fields that the firmware sets; `bytes` is its `data`.
pub record CanFrame : Type 0 where
  pub id : ℕ
  pub dlc : ℕ
  pub flags : ℕ
  pub bytes : List ℕ

-- A k_msgq of `depth` messages. `put` is k_msgq_put with K_NO_WAIT and gives its return code; `get`
-- is one attempt of k_msgq_get, `none` where the caller has to wait.
pub record Msgq (A : Type 0) (depth : ℕ) : Type 1 where
  pub Queue : Type 0
  pub empty : Queue
  pub contents : Queue → List A
  pub put : Queue → A → ℤ × Queue
  pub get : Queue → Option (A × Queue)
  pub purge : Queue → Queue
  pub contents-empty : contents empty ≡ []
  pub put_room :
      (q : Queue) (a : A)
      → length (contents q) < depth
      → (is_zero (put q a).0 ≡ true) × (contents (put q a).1 ≡ contents q ++ a ∷ [])
  pub put_full :
      (q : Queue) (a : A)
      → depth ≤ length (contents q)
      → (is_zero (put q a).0 ≡ false) × (contents (put q a).1 ≡ contents q)
  pub get_empty : (q : Queue) → contents q ≡ [] → get q ≡ none
  pub get_first :
      (q : Queue) (a : A) (rest : List A)
      → contents q ≡ a ∷ rest
      → (q' : Queue) × (get q ≡ some (a, q')) × (contents q' ≡ rest)
  pub contents-purge : (q : Queue) → contents (purge q) ≡ []

-- A k_sem that counts to `limit`. `take` is one attempt of k_sem_take, `none` where the caller has
-- to wait.
pub record Semaphore (limit : ℕ) : Type 1 where
  pub Sem : Type 0
  pub zero_sem : Sem
  pub count : Sem → ℕ
  pub give : Sem → Sem
  pub take : Sem → Option Sem
  pub count-zero_sem : count zero_sem ≡ 0
  pub count-give : (s : Sem) → count (give s) ≡ min (count s + 1) limit
  pub take_none : (s : Sem) → count s ≡ 0 → take s ≡ none
  pub take_some :
      (s : Sem) (n : ℕ) → count s ≡ n + 1 → (s' : Sem) × (take s ≡ some s') × (count s' ≡ n)

-- K_MSGQ_DEFINE(can_tx_msgq, sizeof(struct can_frame), 32, 4)
abbrev pub can_tx_depth : ℕ
can_tx_depth = 32

pub record Platform : Type 1 where
  pub candef : Candef
  pub can_frame_ide : ℕ  -- CAN_FRAME_IDE
  pub minus_enotsup : ℤ  -- -ENOTSUP
  pub can_tx : Msgq CanFrame can_tx_depth
  pub tx_done : Semaphore 1  -- K_SEM_DEFINE(can_tx_done_sem, 0, 1)
