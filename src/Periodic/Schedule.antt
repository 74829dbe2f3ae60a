-- ===== src/Periodic/Schedule.antt =====
-- The schedule of the periodic thread as a table: the kinds of frame in the order in which a tick
-- sends them, each asked for at its rate.

use zephyr_can_converter_uni.Prelude.{
  ℕ, ◌%◌, ◌≡◌, refl, ap₂, ◌∙◌, sym, Bool, List, [], ◌∷◌, ◌++◌, Option, none, some, if◌then◌else◌,
  ◌==◌, arith,
}
use zephyr_can_converter_uni.Rs485.{MasterData}
use zephyr_can_converter_uni.Rs485.Latest.{Part, Held, held}
use zephyr_can_converter_uni.Frames.Messages.{FrameKind, Message}
use zephyr_can_converter_uni.Periodic.Phase.{
  when, due, every_10ms, every_100ms, every_1s, every_10s,
}
use zephyr_can_converter_uni.Periodic.Sources.{message_by, is_round}

-- 100 Hz
abbrev pub kinds_10ms : List FrameKind
kinds_10ms = FrameKind.mcu_state ∷ FrameKind.mcu_faults ∷ []

-- 10 Hz
abbrev pub kinds_100ms : List FrameKind
kinds_100ms =
    FrameKind.mcu_analog_speed ∷ FrameKind.mcu_analog_powertrain ∷ FrameKind.mcu_analog_fuel_cell
    ∷ FrameKind.mcu_analog_accessory ∷ []

-- 1 Hz
abbrev pub kinds_1s : List FrameKind
kinds_1s =
    FrameKind.mcu_analog_pedals ∷ FrameKind.mcu_inputs ∷ FrameKind.protium_state
    ∷ FrameKind.protium_power ∷ FrameKind.protium_thermal ∷ FrameKind.protium_hydrogen
    ∷ FrameKind.protium_setpoints ∷ FrameKind.protium_stasis ∷ FrameKind.protium_misc ∷ []

-- 0.1 Hz
abbrev pub kinds_10s : List FrameKind
kinds_10s = FrameKind.mcu_analog_unassigned ∷ []

abbrev pub schedule : List FrameKind
schedule = kinds_10ms ++ (kinds_100ms ++ (kinds_1s ++ kinds_10s))

-- The message first, if there is one.
abbrev pub with_message : Option Message → List Message → List Message
with_message none ms = ms
with_message (some m) ms = m ∷ ms

-- The messages of those kinds that are asked for and have data.
abbrev pub asked :
    (FrameKind → Bool) → ((p : Part) → Option (Held p)) → List FrameKind → List Message
asked is_asked part [] = []
asked is_asked part (k ∷ ks) =
    let rest = asked is_asked part ks in
    if is_asked k then with_message (message_by k part) rest else rest

asked-append :
    (is_asked : FrameKind → Bool) (part : (p : Part) → Option (Held p)) (ks ls : List FrameKind)
    → asked is_asked part (ks ++ ls) ≡ asked is_asked part ks ++ asked is_asked part ls
asked-append is_asked part [] ls = refl
asked-append is_asked part (k ∷ ks) ls = ground (arith, asked-append is_asked part ks ls)

module _ (a b : ℕ) (d : MasterData) where
  abbrev at : List FrameKind → List Message
  at ks = asked (λ k. is_round k a b) (λ p. held p d) ks

  at_10ms : at kinds_10ms ≡ every_10ms d
  at_10ms = ground arith

  at_100ms : at kinds_100ms ≡ when (a % 10 == 0) (every_100ms d)
  at_100ms = ground arith

  at_1s : at kinds_1s ≡ when (a % 100 == 0) (every_1s d)
  at_1s = ground arith

  at_10s : at kinds_10s ≡ when (b % 1000 == 0) (every_10s d)
  at_10s = ground arith

  at-append : (ks ls : List FrameKind) → at (ks ++ ls) ≡ at ks ++ at ls
  at-append ks ls = asked-append (λ k. is_round k a b) (λ p. held p d) ks ls

  -- What a tick has to send is what the table asks for.
  pub due-asked : due a b d ≡ asked (λ k. is_round k a b) (λ p. held p d) schedule
  due-asked = sym (
      at-append kinds_10ms (kinds_100ms ++ (kinds_1s ++ kinds_10s))
      ∙ ap₂ ◌++◌ at_10ms (
          at-append kinds_100ms (kinds_1s ++ kinds_10s)
          ∙ ap₂ ◌++◌ at_100ms (at-append kinds_1s kinds_10s ∙ ap₂ ◌++◌ at_1s at_10s)))
