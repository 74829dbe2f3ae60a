-- ===== src/Can/TxThread/Lit.antt =====
-- The TX thread, the CAN LEDs and the test mode.
use zephyr_can_converter_uni.Prelude.{◌≡◌, ◌⊎◌, Bool, true, false, List, [], ◌∷◌, some, arith, All}
use zephyr_can_converter_uni.Platform.{Platform}
use zephyr_can_converter_uni.Can.{
  Led, Work, Effect, tx_get, tx_take, tx_finish, ccu_can_tx_callback,
}
use zephyr_can_converter_uni.Can.TxThread.{TxPc, Machine, TxEvent, step_at, step}

-- An effect that turns a CAN LED off.
abbrev pub darkens : Effect → Bool
darkens (Effect.gpio_reset Led.can_tx) = true
darkens (Effect.gpio_reset Led.can_rx) = true
darkens _ = false

abbrev pub IsLit : List Effect → Type 0
IsLit = All (λ e. darkens e ≡ false)

-- A step leaves the test mode alone, and has no effects or those of a frame that was sent.
abbrev pub flash : List Effect
flash = Effect.gpio_set Led.can_tx ∷ Effect.reschedule Work.tx_led_off 50 ∷ []

module _ (pf : Platform) where
  step_at-effects :
      (e : TxEvent pf) (pc : TxPc) (m m' : Machine pf) (effects : List Effect)
      → step_at pf e pc m ≡ some (m', effects)
      → (m'.can.test_active ≡ m.can.test_active) × ((effects ≡ []) ⊎ (effects ≡ flash))
  unfolding step_at tx_get tx_take tx_finish ccu_can_tx_callback
  step_at-effects TxEvent.get TxPc.fetching m m' effects h = ground arith
  step_at-effects _ _ m m' effects h = ground arith

  pub step-effects :
      (e : TxEvent pf) (m m' : Machine pf) (effects : List Effect)
      → step pf e m ≡ some (m', effects)
      → (m'.can.test_active ≡ m.can.test_active) × ((effects ≡ []) ⊎ (effects ≡ flash))
  unfolding step
  step-effects e m m' effects h = step_at-effects e m.pc m m' effects h

  pub step-IsLit :
      (e : TxEvent pf) (m m' : Machine pf) (effects : List Effect)
      → step pf e m ≡ some (m', effects)
      → (m'.can.test_active ≡ m.can.test_active) × IsLit effects
  step-IsLit e m m' effects h = ground (arith, step-effects e m m' effects h)
