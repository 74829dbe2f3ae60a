-- ===== src/Startup/Order.antt =====
-- The order of the calls of `main` in src/main.c against what the threads and call backs use.
use zephyr_can_converter_uni.Prelude.{
  ℕ, suc, ◌<◌, ◌≡◌, ◌⊎◌, refl, Bool, false, List, [], ◌∷◌, Option, none, some, arith, length, All,
  inl, inr, ◌==◌, if◌then◌else◌,
}
use zephyr_can_converter_uni.Can.{Led, Work}
use zephyr_can_converter_uni.Startup.{Call, Thread, main}

-- What runs besides `main` once a call of `main` has made it possible, at any time from then on:
-- delays and the priorities of the threads are left aside.
pub data Activity : Type 0 where
  tx_thread periodic_thread parser_thread : Activity
  state_change recovery : Activity
  dfu_frame dfu_hook : Activity
  tx_led_off rx_led_off : Activity
  test_button : Activity

-- What is set up, and the number of each for comparisons.
pub data Part : Type 0 where
  can_device tx_led rx_led tx_work rx_work recovery_work : Part
  state_callback rx_filter dfu tx_started periodic_started : Part
  rs485 parser_started status_led button : Part

abbrev number : Part → ℕ
number Part.can_device = 0
number Part.tx_led = 1
number Part.rx_led = 2
number Part.tx_work = 3
number Part.rx_work = 4
number Part.recovery_work = 5
number Part.state_callback = 6
number Part.rx_filter = 7
number Part.dfu = 8
number Part.tx_started = 9
number Part.periodic_started = 10
number Part.rs485 = 11
number Part.parser_started = 12
number Part.status_led = 13
number Part.button = 14

-- The part that a call sets up.
abbrev pub sets_up : Call → Option Part
sets_up Call.can_init = some Part.can_device
sets_up (Call.gpio_init Led.can_tx) = some Part.tx_led
sets_up (Call.gpio_init Led.can_rx) = some Part.rx_led
sets_up (Call.k_work_init_delayable Work.tx_led_off) = some Part.tx_work
sets_up (Call.k_work_init_delayable Work.rx_led_off) = some Part.rx_work
sets_up (Call.k_work_init_delayable Work.bus_off_recovery) = some Part.recovery_work
sets_up Call.can_set_state_change_callback = some Part.state_callback
sets_up Call.can_add_rx_filter = some Part.rx_filter
sets_up (Call.can_dfu_init config) = some Part.dfu
sets_up (Call.k_thread_create Thread.can_tx config) = some Part.tx_started
sets_up (Call.k_thread_create Thread.can_periodic config) = some Part.periodic_started
sets_up (Call.k_thread_create Thread.rs485_parser config) = some Part.parser_started
sets_up (Call.rs485_init config) = some Part.rs485
sets_up Call.status_led_init = some Part.status_led
sets_up Call.test_button_init = some Part.button
sets_up _ = none

-- The part whose set-up makes the activity possible.
abbrev pub needs_first : Activity → Part
needs_first Activity.tx_thread = Part.tx_started
needs_first Activity.periodic_thread = Part.periodic_started
needs_first Activity.parser_thread = Part.parser_started
needs_first Activity.state_change = Part.state_callback
needs_first Activity.recovery = Part.state_callback
needs_first Activity.dfu_frame = Part.rx_filter
needs_first Activity.dfu_hook = Part.dfu
needs_first Activity.tx_led_off = Part.tx_started
needs_first Activity.rx_led_off = Part.rx_filter
needs_first Activity.test_button = Part.button

-- What the activity's code calls into.
abbrev pub uses : Activity → List Part
uses Activity.tx_thread = Part.can_device ∷ Part.tx_led ∷ Part.tx_work ∷ []
uses Activity.periodic_thread = Part.dfu ∷ []
uses Activity.parser_thread = Part.rs485 ∷ []
uses Activity.state_change = Part.status_led ∷ Part.recovery_work ∷ []
uses Activity.recovery = Part.can_device ∷ Part.recovery_work ∷ Part.status_led ∷ []
uses Activity.dfu_frame = Part.rx_led ∷ Part.rx_work ∷ Part.dfu ∷ []
uses Activity.dfu_hook = Part.status_led ∷ []
uses Activity.tx_led_off = Part.tx_led ∷ []
uses Activity.rx_led_off = Part.rx_led ∷ []
uses Activity.test_button = Part.status_led ∷ Part.rx_led ∷ Part.tx_led ∷ Part.rs485 ∷ []

abbrev is_set_up_by : Part → Option Part → Bool
is_set_up_by p none = false
is_set_up_by p (some q) = number p == number q

-- How many calls are made before the one that sets the part up.
abbrev pub position : Part → List Call → ℕ
position p [] = 0
position p (c ∷ cs) = if is_set_up_by p (sets_up c) then 0 else suc (position p cs)

-- After the first `n` calls of `main` the part is set up.
abbrev pub IsSetUp : ℕ → Part → Type 0
IsSetUp n p = position p main < n

abbrev pub CanRun : ℕ → Activity → Type 0
CanRun n a = IsSetUp n (needs_first a)

-- What may be missing when an activity runs early.
abbrev pub late_part : Activity → Option Part
late_part Activity.state_change = some Part.status_led
late_part Activity.recovery = some Part.status_led
late_part Activity.dfu_hook = some Part.status_led
late_part Activity.dfu_frame = some Part.dfu
late_part _ = none

-- At every moment of the start, whatever can run finds set up all that it uses, but for the parts
-- that are set up late: the status LED for the reports of the bus, the recovery from bus-off and the
-- hooks of the firmware update, and the firmware update for a frame that is received.
pub uses-IsSetUp :
    (n : ℕ) (a : Activity) → CanRun n a → All (λ p. IsSetUp n p ⊎ (late_part a ≡ some p)) (uses a)
unfolding main
uses-IsSetUp n Activity.state_change h = (inr refl, (inl (omega arith), tt))
uses-IsSetUp n Activity.recovery h = (inl (omega arith), (inl (omega arith), (inr refl, tt)))
uses-IsSetUp n Activity.dfu_hook h = (inr refl, tt)
uses-IsSetUp n Activity.dfu_frame h = (inl (omega arith), (inl (omega arith), (inr refl, tt)))
uses-IsSetUp n Activity.test_button h =
    (inl (omega arith), (inl (omega arith), (inl (omega arith), (inl (omega arith), tt))))
uses-IsSetUp n a h = ground arith

-- These parts are late indeed: delays and priorities aside, there is a moment at which the activity can
-- run and finds the part not set up; at the end of `main` it is.
pub late_part-late :
    (a : Activity) (p : Part)
    → late_part a ≡ some p
    → (n : ℕ) × CanRun n a × (¬ IsSetUp n p) × IsSetUp (length main) p
unfolding main
late_part-late Activity.state_change p h = (7, omega arith, (λ q. ground arith), ground arith)
late_part-late Activity.recovery p h = (7, omega arith, (λ q. ground arith), ground arith)
late_part-late Activity.dfu_hook p h = (9, omega arith, (λ q. ground arith), ground arith)
late_part-late Activity.dfu_frame p h = (8, omega arith, (λ q. ground arith), ground arith)
late_part-late Activity.tx_thread p h = cc
late_part-late a p h = absurd (ground arith)
