-- ===== src/Tests/Sample/Faults.antt =====
-- The frame of the faults packed bit by bit.
use zephyr_can_converter_uni.Prelude.{ℕ, ◌+◌, ◌*◌, ◌/◌, ◌%◌, ◌≡◌, List, [], ◌∷◌, arith}
use zephyr_can_converter_uni.Candef.{McuFaults}
use zephyr_can_converter_uni.Frames.Receive.{IsFlags}

abbrev pub pack_faults : McuFaults → List ℕ
pack_faults r =
    (r.emergency_switch
      + r.emergency_dead_mans_switch * 2
      + r.emergency_leakage_detected * 4
      + r.error_fc_v_low * 8
      + r.error_fc_v_high * 16
      + r.error_fc_c_low * 32
      + r.error_fc_c_high * 64
      + r.error_sc_v_low * 128)
    ∷ (r.error_sc_v_high
        + r.error_sc_c_low * 2
        + r.error_sc_c_high * 4
        + r.error_mc_v_low * 8
        + r.error_mc_v_high * 16
        + r.error_mc_c_low * 32
        + r.error_mc_c_high * 64
        + r.error_ab_v_low * 128)
    ∷ (r.error_ab_v_high + r.error_ab_c_low * 2 + r.error_ab_c_high * 4)
    ∷ []

abbrev bits_of : ℕ → ℕ → ℕ → McuFaults
bits_of a b c = record {
  emergency_switch = a / 1 % 2;
  emergency_dead_mans_switch = a / 2 % 2;
  emergency_leakage_detected = a / 4 % 2;
  error_fc_v_low = a / 8 % 2;
  error_fc_v_high = a / 16 % 2;
  error_fc_c_low = a / 32 % 2;
  error_fc_c_high = a / 64 % 2;
  error_sc_v_low = a / 128 % 2;
  error_sc_v_high = b / 1 % 2;
  error_sc_c_low = b / 2 % 2;
  error_sc_c_high = b / 4 % 2;
  error_mc_v_low = b / 8 % 2;
  error_mc_v_high = b / 16 % 2;
  error_mc_c_low = b / 32 % 2;
  error_mc_c_high = b / 64 % 2;
  error_ab_v_low = b / 128 % 2;
  error_ab_v_high = c / 1 % 2;
  error_ab_c_low = c / 2 % 2;
  error_ab_c_high = c / 4 % 2;
}

abbrev pub unpack_faults : List ℕ → McuFaults
unpack_faults [] = bits_of 0 0 0
unpack_faults (a ∷ []) = bits_of a 0 0
unpack_faults (a ∷ b ∷ []) = bits_of a b 0
unpack_faults (a ∷ b ∷ c ∷ rest) = bits_of a b c

-- The sample packing loses nothing.
pub unpack-pack_faults : (r : McuFaults) → IsFlags r → unpack_faults (pack_faults r) ≡ r
unpack-pack_faults r f = λ i. record {
  emergency_switch = same_emergency_switch i;
  emergency_dead_mans_switch = same_emergency_dead_mans_switch i;
  emergency_leakage_detected = same_emergency_leakage_detected i;
  error_fc_v_low = same_error_fc_v_low i;
  error_fc_v_high = same_error_fc_v_high i;
  error_fc_c_low = same_error_fc_c_low i;
  error_fc_c_high = same_error_fc_c_high i;
  error_sc_v_low = same_error_sc_v_low i;
  error_sc_v_high = same_error_sc_v_high i;
  error_sc_c_low = same_error_sc_c_low i;
  error_sc_c_high = same_error_sc_c_high i;
  error_mc_v_low = same_error_mc_v_low i;
  error_mc_v_high = same_error_mc_v_high i;
  error_mc_c_low = same_error_mc_c_low i;
  error_mc_c_high = same_error_mc_c_high i;
  error_ab_v_low = same_error_ab_v_low i;
  error_ab_v_high = same_error_ab_v_high i;
  error_ab_c_low = same_error_ab_c_low i;
  error_ab_c_high = same_error_ab_c_high i;
}
  where
    same_emergency_switch : (unpack_faults (pack_faults r)).emergency_switch ≡ r.emergency_switch
    same_emergency_switch = omega arith

    same_emergency_dead_mans_switch :
        (unpack_faults (pack_faults r)).emergency_dead_mans_switch ≡ r.emergency_dead_mans_switch
    same_emergency_dead_mans_switch = omega arith

    same_emergency_leakage_detected :
        (unpack_faults (pack_faults r)).emergency_leakage_detected ≡ r.emergency_leakage_detected
    same_emergency_leakage_detected = omega arith

    same_error_fc_v_low : (unpack_faults (pack_faults r)).error_fc_v_low ≡ r.error_fc_v_low
    same_error_fc_v_low = omega arith

    same_error_fc_v_high : (unpack_faults (pack_faults r)).error_fc_v_high ≡ r.error_fc_v_high
    same_error_fc_v_high = omega arith

    same_error_fc_c_low : (unpack_faults (pack_faults r)).error_fc_c_low ≡ r.error_fc_c_low
    same_error_fc_c_low = omega arith

    same_error_fc_c_high : (unpack_faults (pack_faults r)).error_fc_c_high ≡ r.error_fc_c_high
    same_error_fc_c_high = omega arith

    same_error_sc_v_low : (unpack_faults (pack_faults r)).error_sc_v_low ≡ r.error_sc_v_low
    same_error_sc_v_low = omega arith

    same_error_sc_v_high : (unpack_faults (pack_faults r)).error_sc_v_high ≡ r.error_sc_v_high
    same_error_sc_v_high = omega arith

    same_error_sc_c_low : (unpack_faults (pack_faults r)).error_sc_c_low ≡ r.error_sc_c_low
    same_error_sc_c_low = omega arith

    same_error_sc_c_high : (unpack_faults (pack_faults r)).error_sc_c_high ≡ r.error_sc_c_high
    same_error_sc_c_high = omega arith

    same_error_mc_v_low : (unpack_faults (pack_faults r)).error_mc_v_low ≡ r.error_mc_v_low
    same_error_mc_v_low = omega arith

    same_error_mc_v_high : (unpack_faults (pack_faults r)).error_mc_v_high ≡ r.error_mc_v_high
    same_error_mc_v_high = omega arith

    same_error_mc_c_low : (unpack_faults (pack_faults r)).error_mc_c_low ≡ r.error_mc_c_low
    same_error_mc_c_low = omega arith

    same_error_mc_c_high : (unpack_faults (pack_faults r)).error_mc_c_high ≡ r.error_mc_c_high
    same_error_mc_c_high = omega arith

    same_error_ab_v_low : (unpack_faults (pack_faults r)).error_ab_v_low ≡ r.error_ab_v_low
    same_error_ab_v_low = omega arith

    same_error_ab_v_high : (unpack_faults (pack_faults r)).error_ab_v_high ≡ r.error_ab_v_high
    same_error_ab_v_high = omega arith

    same_error_ab_c_low : (unpack_faults (pack_faults r)).error_ab_c_low ≡ r.error_ab_c_low
    same_error_ab_c_low = omega arith

    same_error_ab_c_high : (unpack_faults (pack_faults r)).error_ab_c_high ≡ r.error_ab_c_high
    same_error_ab_c_high = omega arith
