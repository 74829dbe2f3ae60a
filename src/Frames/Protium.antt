-- ===== src/Frames/Protium.antt =====
-- The Protium frame encoders of src/can_converter_frames.c.
use zephyr_can_converter_uni.Prelude.{◌+◌, u32}
use zephyr_can_converter_uni.Proto.{ProtiumValues, ProtiumOperatingState}
use zephyr_can_converter_uni.Candef.{Signal}
use zephyr_can_converter_uni.Platform.{Platform}
use zephyr_can_converter_uni.Frames.{Tx, pack_and_enqueue}

module _ (pf : Platform) where
  open pf use {candef}
  open candef use {widen, from_uint, encode}

  unfoldable pub send_protium_state : ProtiumOperatingState → Tx pf → Tx pf
  send_protium_state operating_state tx = record sent {
    frame_counts = record (sent.frame_counts) {
      protium_state = u32 (sent.frame_counts.protium_state + 1);
    };
  }
    where
      sent : Tx pf
      sent =
          pack_and_enqueue pf candef.protium_state
            (record {
              operating_state =
                  encode Signal.protium_state_operating_state (from_uint operating_state);
            })
            tx

  unfoldable pub send_protium_power : ProtiumValues → Tx pf → Tx pf
  send_protium_power v tx = record sent {
    frame_counts = record (sent.frame_counts) {
      protium_power = u32 (sent.frame_counts.protium_power + 1);
    };
  }
    where
      sent : Tx pf
      sent =
          pack_and_enqueue pf candef.protium_power
            (record {
              fc_v = encode Signal.protium_power_fc_v (widen v.fc_v);
              fc_a = encode Signal.protium_power_fc_a (widen v.fc_a);
              fc_w = encode Signal.protium_power_fc_w (widen v.fc_w);
              energy = encode Signal.protium_power_energy (widen v.energy);
            })
            tx

  unfoldable pub send_protium_thermal : ProtiumValues → Tx pf → Tx pf
  send_protium_thermal v tx = record sent {
    frame_counts = record (sent.frame_counts) {
      protium_thermal = u32 (sent.frame_counts.protium_thermal + 1);
    };
  }
    where
      sent : Tx pf
      sent =
          pack_and_enqueue pf candef.protium_thermal
            (record {
              fct1 = encode Signal.protium_thermal_fct1 (widen v.fct1);
              fct2 = encode Signal.protium_thermal_fct2 (widen v.fct2);
              fan = encode Signal.protium_thermal_fan (widen v.fan);
              blw = encode Signal.protium_thermal_blw (widen v.blw);
            })
            tx

  unfoldable pub send_protium_hydrogen : ProtiumValues → Tx pf → Tx pf
  send_protium_hydrogen v tx = record sent {
    frame_counts = record (sent.frame_counts) {
      protium_hydrogen = u32 (sent.frame_counts.protium_hydrogen + 1);
    };
  }
    where
      sent : Tx pf
      sent =
          pack_and_enqueue pf candef.protium_hydrogen
            (record {
              h2_p1 = encode Signal.protium_hydrogen_h2_p1 (widen v.h2p1);
              h2_p2 = encode Signal.protium_hydrogen_h2_p2 (widen v.h2p2);
              tank_p = encode Signal.protium_hydrogen_tank_p (widen v.tank_p);
              tank_t = encode Signal.protium_hydrogen_tank_t (widen v.tank_t);
            })
            tx

  unfoldable pub send_protium_setpoints : ProtiumValues → Tx pf → Tx pf
  send_protium_setpoints v tx = record sent {
    frame_counts = record (sent.frame_counts) {
      protium_setpoints = u32 (sent.frame_counts.protium_setpoints + 1);
    };
  }
    where
      sent : Tx pf
      sent =
          pack_and_enqueue pf candef.protium_setpoints
            (record {
              v_set = encode Signal.protium_setpoints_v_set (widen v.v_set);
              i_set = encode Signal.protium_setpoints_i_set (widen v.i_set);
              ucb_v = encode Signal.protium_setpoints_ucb_v (widen v.ucb_v);
              number_of_cells =
                  encode Signal.protium_setpoints_number_of_cells (widen v.number_of_cell);
            })
            tx

  unfoldable pub send_protium_stasis : ProtiumValues → Tx pf → Tx pf
  send_protium_stasis v tx = record sent {
    frame_counts = record (sent.frame_counts) {
      protium_stasis = u32 (sent.frame_counts.protium_stasis + 1);
    };
  }
    where
      sent : Tx pf
      sent =
          pack_and_enqueue pf candef.protium_stasis
            (record {
              stasis_selector =
                  encode Signal.protium_stasis_stasis_selector (widen v.stasis_selector);
              stasis_v1 = encode Signal.protium_stasis_stasis_v1 (widen v.stasis_v1);
              stasis_v2 = encode Signal.protium_stasis_stasis_v2 (widen v.stasis_v2);
              batt_v = encode Signal.protium_stasis_batt_v (widen v.batt_v);
            })
            tx

  unfoldable pub send_protium_misc : ProtiumValues → Tx pf → Tx pf
  send_protium_misc v tx = record sent {
    frame_counts = record (sent.frame_counts) {
      protium_misc = u32 (sent.frame_counts.protium_misc + 1);
    };
  }
    where
      sent : Tx pf
      sent =
          pack_and_enqueue pf candef.protium_misc
            (record {
              ip = encode Signal.protium_misc_ip (widen v.ip);
              tp = encode Signal.protium_misc_tp (widen v.tp);
            })
            tx
