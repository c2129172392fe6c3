-- ===== src/Gpio.antt =====
-- components/commands/gpio.c: the command that configures, sets and reads a pin.
pub mod Modes
use rigcontrol.Common.{
  ℕ, suc, ◌+◌, ◌-◌, ◌^◌, Bool, true, false, not, Option, none, some, List, [], ◌∷◌, ◌++◌, ltb, ◌==◌,
  if◌then◌else◌,
}

-- An `int`.
pub data ℤ : Type 0 where
  pos : ℕ → ℤ
  negsuc : ℕ → ℤ

-- `enum GPIO_Mode`
pub data GpioMode : Type 0 where
  floating pull_down pull_up out : GpioMode

-- `gpio_config_t`: the mask of 64 bits, whether the mode is output, and the resistors; interrupts are
-- disabled in every case.
pub record GpioConfig : Type 0 where
  pub pin_bit_mask : ℕ
  pub output : Bool
  pub pull_up_en : Bool
  pub pull_down_en : Bool

-- The calls of the driver, and what is printed.
pub data GpioCall : Type 0 where
  gpio_reset_pin : ℤ → GpioCall
  gpio_set_drive_capability : ℤ → ℕ → GpioCall
  gpio_config : GpioConfig → GpioCall
  gpio_set_level : ℤ → Bool → GpioCall
  print_range print_ok print_failed print_exclusive print_usage : GpioCall
  print_level : ℤ → ℕ → GpioCall

-- How a function ends, with the calls that it made: it returns, `ESP_ERROR_CHECK` aborts, or the
-- shift has no value in C.
pub data Outcome : Type 0 where
  returned : ℤ → List GpioCall → Outcome
  aborted undefined : List GpioCall → Outcome

-- `pin < 0 || pin > 63`
abbrev pub in_range : ℤ → Bool
in_range (pos n) = ltb n 64
in_range (negsuc n) = false

-- `1 << pin` is an `int` of 32 bits, whose sign goes on in the 64 bits of the mask.
abbrev pub shifted : ℤ → Option ℕ
shifted (negsuc n) = none
shifted (pos n) =
    if ltb n 31 then some (2 ^ n) else if n == 31 then some (2 ^ 64 - 2 ^ 31) else none

abbrev pub config_of : GpioMode → ℕ → GpioConfig
config_of out mask = record {
  pin_bit_mask = mask;
  output = true;
  pull_up_en = false;
  pull_down_en = false;
}
config_of floating mask = record {
  pin_bit_mask = mask;
  output = false;
  pull_up_en = false;
  pull_down_en = false;
}
config_of pull_down mask = record {
  pin_bit_mask = mask;
  output = false;
  pull_up_en = false;
  pull_down_en = true;
}
config_of pull_up mask = record {
  pin_bit_mask = mask;
  output = false;
  pull_up_en = true;
  pull_down_en = true;
}

-- GPIO_DRIVE_CAP_2 and GPIO_DRIVE_CAP_0.
abbrev pub capability : GpioMode → ℕ
capability out = 2
capability _ = 0

abbrev pub is_zero_int : ℤ → Bool
is_zero_int (pos n) = n == 0
is_zero_int (negsuc n) = false

-- `config_ok`, `set_ok` and `level` are what the driver gives. A mode behind the four does not come.
module _ (config_ok set_ok : Bool) (level_of : ℤ → ℕ) where
  abbrev pub configure : ℤ → GpioMode → Option ℕ → Outcome
  configure pin mode none = undefined (gpio_reset_pin pin ∷ [])
  configure pin mode (some mask) =
      let calls =
        gpio_reset_pin pin
        ∷ gpio_set_drive_capability pin (capability mode)
        ∷ gpio_config (config_of mode mask)
        ∷ [] in
      if config_ok then returned (pos 0) (calls ++ print_ok ∷ []) else aborted calls

  unfoldable pub set_gpio_mode : ℤ → GpioMode → Outcome
  set_gpio_mode pin mode =
      if in_range pin
      then configure pin mode (shifted pin)
      else returned (negsuc 0) (gpio_reset_pin pin ∷ print_range ∷ [])

  unfoldable pub get_gpio_level : ℤ → Outcome
  get_gpio_level pin = returned (pos 0) (print_level pin (level_of pin) ∷ [])

  unfoldable pub set_gpio_level : ℤ → ℤ → Outcome
  set_gpio_level pin level =
      let call = gpio_set_level pin (not (is_zero_int level)) in
      if set_ok
      then returned (pos 0) (call ∷ print_level pin (level_of pin) ∷ [])
      else returned (negsuc 0) (call ∷ print_failed ∷ [])

-- `gpio_args`: how often each option was given, and the values.
pub record GpioArgs : Type 0 where
  pub pin : ℤ
  pub level : Option ℤ
  pub out_count : ℕ
  pub pull_up_count : ℕ
  pub pull_down_count : ℕ
  pub floating_count : ℕ

-- The results of the functions are not looked at.
abbrev pub then_zero : Outcome → Outcome
then_zero (returned status calls) = returned (pos 0) calls
then_zero (aborted calls) = aborted calls
then_zero (undefined calls) = undefined calls

module _ (config_ok set_ok : Bool) (level_of : ℤ → ℕ) where
  abbrev pub use_level : ℤ → Option ℤ → Outcome
  unfolding set_gpio_level get_gpio_level
  use_level pin (some level) = set_gpio_level config_ok set_ok level_of pin level
  use_level pin none = get_gpio_level config_ok set_ok level_of pin

  -- `none` is a parse with errors.
  unfoldable pub gpio : Option GpioArgs → Outcome
  unfolding set_gpio_mode use_level
  gpio none = returned (pos 1) (print_usage ∷ [])
  gpio (some args) =
      let set_mode = λ (mode : GpioMode). set_gpio_mode config_ok set_ok level_of args.pin mode in
      if ltb 1 (args.out_count + args.pull_down_count + args.pull_up_count + args.floating_count)
      then returned (negsuc 0) (print_exclusive ∷ [])
      else then_zero (
          if ltb 0 args.out_count
          then set_mode out
          else if ltb 0 args.pull_down_count
          then set_mode pull_down
          else if ltb 0 args.pull_up_count
          then set_mode pull_up
          else if ltb 0 args.floating_count
          then set_mode floating
          else use_level args.pin args.level)
