-- ===== src/Can/Recovery.antt =====
-- The recovery from bus-off: the work item that `can_state_change_cb` starts and that starts itself
-- again.
use zephyr_can_converter_uni.Prelude.{
  ◌≡◌, ap, Bool, true, false, ◌||◌, List, [], ◌∷◌, ◌++◌, if◌then◌else◌, ℤ, is_zero, same_int,
  replicate, length, All, arith,
}
use zephyr_can_converter_uni.Platform.{Platform}
use zephyr_can_converter_uni.Can.{Work, StatusLed, Effect, bus_off_recovery_handler}

-- Whether the effects leave the recovery scheduled.
abbrev pub pending : List Effect → Bool
pending [] = false
pending (Effect.reschedule Work.bus_off_recovery ms ∷ es) = true
pending (e ∷ es) = pending es

module _ (pf : Platform) where
  open pf use {minus_enotsup}

  -- The runs of the handler while each of them schedules the next, with the return codes of
  -- `can_recover` in order.
  unfoldable pub recover : List ℤ → List Effect
  recover [] = []
  recover (ret ∷ rets) =
      let rest = recover rets in
      let effects = bus_off_recovery_handler pf ret in
      effects ++ (if pending effects then rest else [])

  abbrev pub IsFailure : ℤ → Type 0
  IsFailure ret = (is_zero ret ≡ false) × (same_int ret minus_enotsup ≡ false)

  -- The recovery is tried again every second while `can_recover` fails; the first attempt that
  -- succeeds, or that reports that the driver recovers by itself, shows the operational status and is
  -- the last one.
  pub recover-until :
      (failures : List ℤ) (ret : ℤ) (rest : List ℤ)
      → All IsFailure failures
      → (is_zero ret || same_int ret minus_enotsup) ≡ true
      → recover (failures ++ ret ∷ rest)
        ≡ replicate (length failures) (Effect.reschedule Work.bus_off_recovery 1000)
          ++ Effect.status_led_set StatusLed.operational ∷ []
  unfolding recover bus_off_recovery_handler
  recover-until [] ret rest f h = ground arith
  recover-until (x ∷ failures) ret rest f h =
      rw (f.0.0, f.0.1, recover, bus_off_recovery_handler)
        (ap (λ es. Effect.reschedule Work.bus_off_recovery 1000 ∷ es)
          (recover-until failures ret rest f.1 h))
