-- ===== src/Gpio/Modes.antt =====
-- What the command does for each of its options.
use rigcontrol.Common.{
  ℕ, ◌^◌, ◌<◌, ◌≡◌, refl, arith, Bool, true, false, Option, some, [], ◌∷◌, ltb, lt→ltb,
}
use rigcontrol.Gpio.{
  ℤ, pos, GpioMode, floating, pull_down, pull_up, out, GpioConfig, gpio_reset_pin,
  gpio_set_drive_capability, gpio_config, print_ok, returned, config_of, capability, set_gpio_mode,
  GpioArgs, gpio,
}

abbrev given : GpioMode → GpioMode → ℕ
given out out = 1
given pull_up pull_up = 1
given pull_down pull_down = 1
given floating floating = 1
given _ _ = 0

-- The command line with the one option, and a level that may be given as well.
abbrev pub with_option : GpioMode → ℤ → Option ℤ → GpioArgs
with_option mode pin level = record {
  pin = pin;
  level = level;
  out_count = given mode out;
  pull_up_count = given mode pull_up;
  pull_down_count = given mode pull_down;
  floating_count = given mode floating;
}

-- The resistors that are enabled, and whether the pin is an output: pull_up enables both resistors.
abbrev pub Configures : GpioMode → GpioConfig → Type 0
Configures out c = (c.output ≡ true) × (c.pull_up_en ≡ false) × (c.pull_down_en ≡ false)
Configures floating c = (c.output ≡ false) × (c.pull_up_en ≡ false) × (c.pull_down_en ≡ false)
Configures pull_down c = (c.output ≡ false) × (c.pull_up_en ≡ false) × (c.pull_down_en ≡ true)
Configures pull_up c = (c.output ≡ false) × (c.pull_up_en ≡ true) × (c.pull_down_en ≡ true)

module _ (set_ok : Bool) (level_of : ℤ → ℕ) where
  configure-Configures :
      (mode : GpioMode) (n : ℕ)
      → n < 31
      → (c : GpioConfig) × (set_gpio_mode true set_ok level_of (pos n) mode
          ≡ returned (pos 0) (
              gpio_reset_pin (pos n)
              ∷ gpio_set_drive_capability (pos n) (capability mode)
              ∷ gpio_config c
              ∷ print_ok
              ∷ []))
        × (c.pin_bit_mask ≡ 2 ^ n)
        × Configures mode c
  unfolding set_gpio_mode
  configure-Configures mode n h =
      let small : ltb n 31 ≡ true = lt→ltb n 31 h in
      let within : ltb n 64 ≡ true = lt→ltb n 64 (omega (arith, h)) in
      by_mode mode (rw (small, within, set_gpio_mode) refl)
    where
      by_mode :
          (mode : GpioMode)
          → set_gpio_mode true set_ok level_of (pos n) mode
            ≡ returned (pos 0) (
                gpio_reset_pin (pos n)
                ∷ gpio_set_drive_capability (pos n) (capability mode)
                ∷ gpio_config (config_of mode (2 ^ n))
                ∷ print_ok
                ∷ [])
          → (c : GpioConfig) × (set_gpio_mode true set_ok level_of (pos n) mode
              ≡ returned (pos 0) (
                  gpio_reset_pin (pos n)
                  ∷ gpio_set_drive_capability (pos n) (capability mode)
                  ∷ gpio_config c
                  ∷ print_ok
                  ∷ []))
            × (c.pin_bit_mask ≡ 2 ^ n)
            × Configures mode c
      by_mode out e = (_, e, refl, (refl, refl, refl))
      by_mode floating e = (_, e, refl, (refl, refl, refl))
      by_mode pull_down e = (_, e, refl, (refl, refl, refl))
      by_mode pull_up e = (_, e, refl, (refl, refl, refl))

  -- With one option and a pin below 31 the command resets that pin, sets its drive capability and
  -- configures no other one, as the option says, whether or not a level is given; pull_up enables the
  -- pull-down resistor as well.
  pub gpio-Configures :
      (mode : GpioMode) (n : ℕ) (level : Option ℤ)
      → n < 31
      → (c : GpioConfig) × (gpio true set_ok level_of (some (with_option mode (pos n) level))
          ≡ returned (pos 0) (
              gpio_reset_pin (pos n)
              ∷ gpio_set_drive_capability (pos n) (capability mode)
              ∷ gpio_config c
              ∷ print_ok
              ∷ []))
        × (c.pin_bit_mask ≡ 2 ^ n)
        × Configures mode c
  unfolding gpio
  gpio-Configures out n level h =
      let (c, e, m, k) = configure-Configures out n h in (c, rw e refl, m, k)
  gpio-Configures floating n level h =
      let (c, e, m, k) = configure-Configures floating n h in (c, rw e refl, m, k)
  gpio-Configures pull_down n level h =
      let (c, e, m, k) = configure-Configures pull_down n h in (c, rw e refl, m, k)
  gpio-Configures pull_up n level h =
      let (c, e, m, k) = configure-Configures pull_up n h in (c, rw e refl, m, k)
