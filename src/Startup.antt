-- ===== src/Startup.antt =====
-- The start of the firmware: `main` of src/main.c and the functions that it calls, as the sequence of
-- their calls into Zephyr and the submodules. What a call is given besides the object it is about
-- (device pointers, stacks, the handlers) is told by its constructor or by the constants below.
pub mod Order
use zephyr_can_converter_uni.Prelude.{ℕ, List, [], ◌∷◌, ◌++◌}
use zephyr_can_converter_uni.Can.{Led, Work, StatusLed}
use zephyr_can_converter_uni.Can.DfuFilter.{ccu_dfu_cmd_id, ccu_dfu_data_id, ccu_dfu_rsp_id}

pub data Thread : Type 0 where
  can_tx can_periodic rs485_parser : Thread

-- What K_THREAD_STACK_DEFINE and k_thread_create are given.
pub record ThreadConfig : Type 0 where
  pub stack_size : ℕ
  pub priority : ℕ

unfoldable pub parser_config : ThreadConfig
parser_config = record { stack_size = 2048; priority = 5 }

unfoldable pub thread_config : Thread → ThreadConfig
thread_config can_tx = record { stack_size = 2048; priority = 5 }
thread_config can_periodic = record { stack_size = 2048; priority = 5 }
thread_config rs485_parser = parser_config

-- struct can_dfu_cfg of can_dfu.h, its identifiers
pub record CanDfuConfig : Type 0 where
  pub cmd_id : ℕ
  pub data_id : ℕ
  pub rsp_id : ℕ

unfoldable pub ccu_dfu_cfg : CanDfuConfig
ccu_dfu_cfg = record { cmd_id = ccu_dfu_cmd_id; data_id = ccu_dfu_data_id; rsp_id = ccu_dfu_rsp_id }

-- rs485_ctx_t of rs485.h, its numbers, with the depth of its queue
pub record Rs485Config : Type 0 where
  pub rx_queue_depth : ℕ
  pub rx_idle_timeout_us : ℕ

unfoldable pub rs485 : Rs485Config
rs485 = record { rx_queue_depth = 16; rx_idle_timeout_us = 5000 }

pub data Call : Type 0 where
  can_init : Call
  gpio_init : Led → Call
  k_work_init_delayable : Work → Call
  can_set_state_change_callback : Call
  can_add_rx_filter : Call
  can_dfu_init : CanDfuConfig → Call
  k_thread_create : Thread → ThreadConfig → Call
  k_thread_name_set : Thread → Call
  rs485_init : Rs485Config → Call
  status_led_init : Call
  test_button_init : Call
  boot_write_img_confirmed : Call
  status_led_set : StatusLed → Call

abbrev start_thread : Thread → List Call
start_thread t = Call.k_thread_create t (thread_config t) ∷ Call.k_thread_name_set t ∷ []

unfoldable pub ccu_dfu_init : List Call
ccu_dfu_init = Call.can_dfu_init ccu_dfu_cfg ∷ []

unfoldable pub ccu_can_init : List Call
unfolding ccu_dfu_init
ccu_can_init =
    Call.can_init
    ∷ Call.gpio_init Led.can_rx
    ∷ Call.gpio_init Led.can_tx
    ∷ Call.k_work_init_delayable Work.tx_led_off
    ∷ Call.k_work_init_delayable Work.rx_led_off
    ∷ Call.k_work_init_delayable Work.bus_off_recovery
    ∷ Call.can_set_state_change_callback
    ∷ Call.can_add_rx_filter
    ∷ (ccu_dfu_init ++ (start_thread Thread.can_tx ++ start_thread Thread.can_periodic))

unfoldable pub ccu_rs485_init : List Call
ccu_rs485_init = Call.rs485_init rs485 ∷ start_thread Thread.rs485_parser

unfoldable pub ccu_board_init : List Call
ccu_board_init = Call.status_led_init ∷ Call.test_button_init ∷ []

unfoldable pub main : List Call
unfolding ccu_can_init ccu_rs485_init ccu_board_init
main =
    ccu_can_init
    ++ (ccu_rs485_init
        ++ (ccu_board_init
            ++ Call.boot_write_img_confirmed ∷ Call.status_led_set StatusLed.operational ∷ []))
