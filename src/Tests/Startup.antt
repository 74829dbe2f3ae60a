-- ===== src/Tests/Startup.antt =====
-- Tests of the module Startup.
use zephyr_can_converter_uni.Prelude.{ℕ, ◌≡◌, ◌⊎◌, refl, arith, some, length, All}
use zephyr_can_converter_uni.Startup.{
  main, ccu_can_init, ccu_rs485_init, ccu_board_init, ccu_dfu_init,
}
use zephyr_can_converter_uni.Startup.Order.{
  Activity, Part, CanRun, IsSetUp, late_part, uses, uses-IsSetUp, late_part-late,
}

length-main : length main ≡ 20
unfolding main ccu_can_init ccu_rs485_init ccu_board_init ccu_dfu_init
length-main = refl

-- As soon as the threads of the CAN bus are started.
tx_thread-CanRun : CanRun 10 Activity.tx_thread
unfolding main ccu_can_init ccu_rs485_init ccu_board_init ccu_dfu_init
tx_thread-CanRun = omega arith

uses-IsSetUp_example :
    All (λ p. IsSetUp 10 p ⊎ (late_part Activity.tx_thread ≡ some p)) (uses Activity.tx_thread)
uses-IsSetUp_example = uses-IsSetUp 10 Activity.tx_thread tx_thread-CanRun

late_part-late_example :
    (n : ℕ) × CanRun n Activity.dfu_frame × (¬ IsSetUp n Part.dfu) × IsSetUp (length main) Part.dfu
late_part-late_example = late_part-late Activity.dfu_frame Part.dfu refl
