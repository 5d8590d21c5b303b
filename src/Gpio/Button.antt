-- ===== src/Gpio/Button.antt =====
-- lkml/gpio/gpio.c: the load and the unload.
use bbblack.Base.{ℕ, List, [], ◌∷◌, ◌++◌}
use bbblack.Base.Int.{ℤ, pos}
use bbblack.Base.Word.{to_u32}

pub data Call : Type 0 where
  gpio_request : ℕ → ℤ → Call
  gpio_direction_input : ℕ → Call
  gpio_export : ℕ → Call
  gpio_set_debounce : ℕ → ℕ → Call
  gpio_to_irq : ℕ → Call
  gpio_unexport : ℕ → Call
  gpio_free : ℕ → Call
  free_irq : ℕ → Call

-- The globals, and the calls in order
pub record Module : Type 0 where
  pub button : ℕ
  pub irq_number : ℕ
  pub calls : List Call

abbrev pub initial : Module
initial = record { button = 115; irq_number = 0; calls = [] }

-- The arguments are what `gpio_request` and `gpio_to_irq` return; the latter may be an error number.
unfoldable pub gpio_init : ℤ → ℤ → Module → ℤ × Module
gpio_init requested irq m = (
  pos 0,
  record m {
    irq_number = to_u32 irq;
    calls =
        m.calls
        ++ (gpio_request m.button requested
            ∷ gpio_direction_input m.button
            ∷ gpio_export m.button
            ∷ gpio_set_debounce m.button 200
            ∷ gpio_to_irq m.button
            ∷ []);
  },
)

unfoldable pub gpio_exit : Module → Module
gpio_exit m = record m {
  calls = m.calls ++ (gpio_unexport m.button ∷ gpio_free m.button ∷ free_irq m.irq_number ∷ []);
}

-- IRQ_HANDLED; no call gives the handler to the kernel.
abbrev pub gpio_handler : ℕ → ℕ
gpio_handler irq = 1
