-- ===== src/Frames/Receiver.antt =====
-- The receiving side of the generated CAN library (the submodule can-definitions), a parameter like the
-- sending side.
use zephyr_can_converter_uni.Prelude.{ℕ, ◌<◌, ◌≡◌, refl, Bool, true, List, [], ◌∷◌, map, All}
use zephyr_can_converter_uni.Candef.{
  Candef, Signal, McuTimeSync, McuState, McuAnalogDrive, McuAnalogPedals, McuAnalogPowertrain,
  McuAnalogFuelCell, McuAnalogAccessory, McuAnalogUnassigned, ProtiumState, ProtiumPower,
  ProtiumThermal, ProtiumHydrogen, ProtiumSetpoints, ProtiumStasis, ProtiumMisc,
  numbers_mcu_time_sync, numbers_mcu_state, numbers_mcu_analog_drive, numbers_mcu_analog_pedals,
  numbers_mcu_analog_powertrain, numbers_mcu_analog_fuel_cell, numbers_mcu_analog_accessory,
  numbers_mcu_analog_unassigned, numbers_protium_state, numbers_protium_power,
  numbers_protium_thermal, numbers_protium_hydrogen, numbers_protium_setpoints,
  numbers_protium_stasis, numbers_protium_misc,
}
use zephyr_can_converter_uni.Frames.Messages.{FrameKind}

-- It reads raw numbers out of data bytes and decodes
-- them. A signal carries some doubles exactly; the raw numbers of these lie below `raw_values` and
-- are read back, and decoding undoes encoding.
pub record Receiver (cd : Candef) : Type 0 where
  pub carries : Signal → ℕ → Bool
  pub raw_values : Signal → ℕ
  pub decode : Signal → ℕ → ℕ
  pub encode-lt : (g : Signal) (x : ℕ) → carries g x ≡ true → cd.encode g x < raw_values g
  pub decode-encode : (g : Signal) (x : ℕ) → carries g x ≡ true → decode g (cd.encode g x) ≡ x
  pub read : FrameKind → List ℕ → List (Signal × ℕ)
  pub read-mcu_time_sync :
      (r : McuTimeSync)
      → All (λ n. n.1 < raw_values n.0) (numbers_mcu_time_sync r)
      → read FrameKind.mcu_time_sync (cd.mcu_time_sync.pack r) ≡ numbers_mcu_time_sync r
  pub read-mcu_state :
      (r : McuState)
      → All (λ n. n.1 < raw_values n.0) (numbers_mcu_state r)
      → read FrameKind.mcu_state (cd.mcu_state.pack r) ≡ numbers_mcu_state r
  pub read-mcu_analog_drive :
      (r : McuAnalogDrive)
      → All (λ n. n.1 < raw_values n.0) (numbers_mcu_analog_drive r)
      → read FrameKind.mcu_analog_speed (cd.mcu_analog_drive.pack r) ≡ numbers_mcu_analog_drive r
  pub read-mcu_analog_pedals :
      (r : McuAnalogPedals)
      → All (λ n. n.1 < raw_values n.0) (numbers_mcu_analog_pedals r)
      → read FrameKind.mcu_analog_pedals (cd.mcu_analog_pedals.pack r) ≡ numbers_mcu_analog_pedals r
  pub read-mcu_analog_powertrain :
      (r : McuAnalogPowertrain)
      → All (λ n. n.1 < raw_values n.0) (numbers_mcu_analog_powertrain r)
      → read FrameKind.mcu_analog_powertrain (cd.mcu_analog_powertrain.pack r)
        ≡ numbers_mcu_analog_powertrain r
  pub read-mcu_analog_fuel_cell :
      (r : McuAnalogFuelCell)
      → All (λ n. n.1 < raw_values n.0) (numbers_mcu_analog_fuel_cell r)
      → read FrameKind.mcu_analog_fuel_cell (cd.mcu_analog_fuel_cell.pack r)
        ≡ numbers_mcu_analog_fuel_cell r
  pub read-mcu_analog_accessory :
      (r : McuAnalogAccessory)
      → All (λ n. n.1 < raw_values n.0) (numbers_mcu_analog_accessory r)
      → read FrameKind.mcu_analog_accessory (cd.mcu_analog_accessory.pack r)
        ≡ numbers_mcu_analog_accessory r
  pub read-mcu_analog_unassigned :
      (r : McuAnalogUnassigned)
      → All (λ n. n.1 < raw_values n.0) (numbers_mcu_analog_unassigned r)
      → read FrameKind.mcu_analog_unassigned (cd.mcu_analog_unassigned.pack r)
        ≡ numbers_mcu_analog_unassigned r
  pub read-protium_state :
      (r : ProtiumState)
      → All (λ n. n.1 < raw_values n.0) (numbers_protium_state r)
      → read FrameKind.protium_state (cd.protium_state.pack r) ≡ numbers_protium_state r
  pub read-protium_power :
      (r : ProtiumPower)
      → All (λ n. n.1 < raw_values n.0) (numbers_protium_power r)
      → read FrameKind.protium_power (cd.protium_power.pack r) ≡ numbers_protium_power r
  pub read-protium_thermal :
      (r : ProtiumThermal)
      → All (λ n. n.1 < raw_values n.0) (numbers_protium_thermal r)
      → read FrameKind.protium_thermal (cd.protium_thermal.pack r) ≡ numbers_protium_thermal r
  pub read-protium_hydrogen :
      (r : ProtiumHydrogen)
      → All (λ n. n.1 < raw_values n.0) (numbers_protium_hydrogen r)
      → read FrameKind.protium_hydrogen (cd.protium_hydrogen.pack r) ≡ numbers_protium_hydrogen r
  pub read-protium_setpoints :
      (r : ProtiumSetpoints)
      → All (λ n. n.1 < raw_values n.0) (numbers_protium_setpoints r)
      → read FrameKind.protium_setpoints (cd.protium_setpoints.pack r) ≡ numbers_protium_setpoints r
  pub read-protium_stasis :
      (r : ProtiumStasis)
      → All (λ n. n.1 < raw_values n.0) (numbers_protium_stasis r)
      → read FrameKind.protium_stasis (cd.protium_stasis.pack r) ≡ numbers_protium_stasis r
  pub read-protium_misc :
      (r : ProtiumMisc)
      → All (λ n. n.1 < raw_values n.0) (numbers_protium_misc r)
      → read FrameKind.protium_misc (cd.protium_misc.pack r) ≡ numbers_protium_misc r

module _ (cd : Candef) (rc : Receiver cd) where
  open rc use {carries, raw_values, decode}

  abbrev pub encoded : Signal × ℕ → Signal × ℕ
  encoded (g, x) = (g, cd.encode g x)

  abbrev pub decoded : Signal × ℕ → Signal × ℕ
  decoded (g, n) = (g, decode g n)

  abbrev pub IsCarried : Signal × ℕ → Type 0
  IsCarried (g, x) = carries g x ≡ true

  pub encoded-lt :
      (rs : List (Signal × ℕ)) → All IsCarried rs → All (λ n. n.1 < raw_values n.0) (map encoded rs)
  encoded-lt [] c = tt
  encoded-lt ((g, x) ∷ rs) c = (rc.encode-lt g x c.0, encoded-lt rs c.1)

  pub decoded-encoded :
      (rs : List (Signal × ℕ)) → All IsCarried rs → map decoded (map encoded rs) ≡ rs
  decoded-encoded [] c = refl
  decoded-encoded ((g, x) ∷ rs) c = λ i. (g, rc.decode-encode g x c.0 i) ∷ decoded-encoded rs c.1 i
