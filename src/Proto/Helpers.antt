-- ===== src/Proto/Helpers.antt =====
-- proto/master_helpers.h: digital inputs out of a raw register, and what each bit becomes.
use Prim.Native.Nat.{bit_and}
use zephyr_can_converter_uni.Prelude.{
  ℕ, ◌+◌, ◌*◌, ◌%◌, ◌^◌, ◌≡◌, Bool, true, false, not, arith, zero, suc, ◌<◌, ◌==◌, if◌then◌else◌,
}
use zephyr_can_converter_uni.Prelude.Bits.{mask, shift, bit_and-mask}
use zephyr_can_converter_uni.Proto.{DigitalInputs, digital_inputs_zero}

-- `(raw & (1u << k)) != 0u`
abbrev bit_set : ℕ → ℕ → Bool
bit_set raw k = not (bit_and raw (2 ^ k) == 0)

unfoldable pub digital_inputs_from_raw : ℕ → DigitalInputs
digital_inputs_from_raw raw = record digital_inputs_zero {
  gas_pedal = bit_set raw 0;
  start_button = bit_set raw 1;
  dead_mans_switch = bit_set raw 2;
  emergency_switch = bit_set raw 3;
  reset_button = bit_set raw 4;
  calibration_button = bit_set raw 5;
  leakage_detected = bit_set raw 6;
  shell_relay = bit_set raw 7;
}

abbrev pin : Bool → ℕ → ℕ
pin b w = if b then w else 0

-- The register that a board with these inputs shows, by the header's table of DIN pins.
abbrev pub raw_of_inputs : DigitalInputs → ℕ
raw_of_inputs d =
    pin d.gas_pedal 1
    + pin d.start_button 2
    + pin d.dead_mans_switch 4
    + pin d.emergency_switch 8
    + pin d.reset_button 16
    + pin d.calibration_button 32
    + pin d.leakage_detected 64
    + pin d.shell_relay 128

pin-bit : (w b : ℕ) → b < 2 → pin (not (w * b == 0)) w ≡ w * b
pin-bit w zero h = ground arith
pin-bit w (suc zero) h = ground arith
pin-bit w (suc (suc b)) h = absurd (omega arith)

-- What one input contributes to the register.
pin-mask : (k raw : ℕ) → pin (not (bit_and raw (mask k) == 0)) (mask k) ≡ mask k * (shift k raw % 2)
pin-mask k raw = rw (bit_and-mask k raw) (pin-bit (mask k) (shift k raw % 2) (omega arith))

-- Reading a register and writing the inputs back gives the register's low byte: every one of the
-- eight inputs is taken from its own bit, and the upper bits are ignored.
pub raw_of_inputs-digital_inputs_from_raw :
    (raw : ℕ) → raw_of_inputs (digital_inputs_from_raw raw) ≡ raw % 256
unfolding digital_inputs_from_raw
raw_of_inputs-digital_inputs_from_raw raw = omega (
  arith,
  pin-mask 0 raw,
  pin-mask 1 raw,
  pin-mask 2 raw,
  pin-mask 3 raw,
  pin-mask 4 raw,
  pin-mask 5 raw,
  pin-mask 6 raw,
  pin-mask 7 raw,
)

mask-pos : (k : ℕ) → 0 < mask k
mask-pos zero = omega arith
mask-pos (suc k) = omega (arith, mask-pos k)

-- A bit that shows an input is read back as that input.
bit_set-eq :
    (k raw : ℕ) (b : Bool) → shift k raw % 2 ≡ pin b 1 → not (bit_and raw (mask k) == 0) ≡ b
bit_set-eq k raw true h = rw (bit_and-mask k raw, h) (ground (arith, mask-pos k))
bit_set-eq k raw false h = rw (bit_and-mask k raw, h) (ground arith)

pin-weight : (b : Bool) (w : ℕ) → (pin b w ≡ w * pin b 1) × (pin b 1 < 2)
pin-weight true w = omega arith
pin-weight false w = omega arith

-- The other way round: a register composed of eight inputs is read back as the same inputs.
pub digital_inputs_from_raw-raw_of_inputs :
    (d : DigitalInputs) → digital_inputs_from_raw (raw_of_inputs d) ≡ d
unfolding digital_inputs_from_raw
digital_inputs_from_raw-raw_of_inputs d = λ i. record {
  gas_pedal = bit_set-eq 0 raw d.gas_pedal (omega (arith, pin-weight)) i;
  start_button = bit_set-eq 1 raw d.start_button (omega (arith, pin-weight)) i;
  dead_mans_switch = bit_set-eq 2 raw d.dead_mans_switch (omega (arith, pin-weight)) i;
  emergency_switch = bit_set-eq 3 raw d.emergency_switch (omega (arith, pin-weight)) i;
  reset_button = bit_set-eq 4 raw d.reset_button (omega (arith, pin-weight)) i;
  calibration_button = bit_set-eq 5 raw d.calibration_button (omega (arith, pin-weight)) i;
  leakage_detected = bit_set-eq 6 raw d.leakage_detected (omega (arith, pin-weight)) i;
  shell_relay = bit_set-eq 7 raw d.shell_relay (omega (arith, pin-weight)) i;
}
  where
    raw : ℕ
    raw = raw_of_inputs d
