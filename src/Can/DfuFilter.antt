-- ===== src/Can/DfuFilter.antt =====
-- The receive filter of src/can_converter_can.c and the identifiers of src/can_converter_dfu.h. The
-- matching itself is Zephyr's and the controller's, so it is a parameter.
use Prim.Native.Nat.{bit_and}
use zephyr_can_converter_uni.Prelude.{ℕ, ◌<◌, ◌≡◌, ◌∙◌, Bool, ◌||◌, ◌==◌, arith}
use zephyr_can_converter_uni.Prelude.Bits.{bit_and-ones_even}
use zephyr_can_converter_uni.Platform.{CanFrame, Platform}

-- struct can_filter of zephyr/drivers/can.h
pub record CanFilter : Type 0 where
  pub id : ℕ
  pub mask : ℕ
  pub flags : ℕ

-- Zephyr's documented rule for a frame of the format that the filter asks for: the bits of the
-- identifier under the mask are those of the filter.
pub record Filtering : Type 0 where
  pub matches : CanFilter → CanFrame → Bool
  pub matches_format :
      (filter : CanFilter) (frame : CanFrame)
      → frame.flags ≡ filter.flags
      → matches filter frame ≡ (bit_and frame.id filter.mask == bit_and filter.id filter.mask)

-- CCU_DFU_CMD_ID and CCU_DFU_DATA_ID
abbrev pub ccu_dfu_cmd_id : ℕ
ccu_dfu_cmd_id = 2016

abbrev pub ccu_dfu_data_id : ℕ
ccu_dfu_data_id = 2017

-- CCU_DFU_RSP_ID
abbrev pub ccu_dfu_rsp_id : ℕ
ccu_dfu_rsp_id = 2018

module _ (pf : Platform) where
  open pf use {can_frame_ide}

  -- the mask is 0x1FFFFFFE
  unfoldable pub dfu_filter : CanFilter
  dfu_filter = record { id = ccu_dfu_cmd_id; mask = 536870910; flags = can_frame_ide }

  -- Of the extended frames, with their 29-bit identifiers, the filter lets through those with the
  -- identifier of a command or of data, and no other.
  pub matches-dfu_filter :
      (filtering : Filtering) (frame : CanFrame)
      → frame.flags ≡ can_frame_ide
      → frame.id < 536870912
      → filtering.matches dfu_filter frame
        ≡ (frame.id == ccu_dfu_cmd_id || frame.id == ccu_dfu_data_id)
  unfolding dfu_filter
  matches-dfu_filter filtering frame extended small =
      filtering.matches_format dfu_filter frame extended
      ∙ rw (bit_and-ones_even 28 frame.id small) (ground arith)
