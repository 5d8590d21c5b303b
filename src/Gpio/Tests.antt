-- ===== src/Gpio/Tests.antt =====
-- lkml/gpio/gpio.c: a load whose request of the line is refused.
use bbblack.Base.{◌≡◌, refl, [], ◌∷◌}
use bbblack.Base.Int.{pos, negsuc}
use bbblack.Gpio.Button.{initial, gpio_init, gpio_exit}
use bbblack.Gpio.Balance.{line, exported, irq, obtained, given_back}

refused_line :
    (given_back (gpio_exit (gpio_init (negsuc 15) (pos 99) initial).1).calls
      ≡ exported 115 ∷ line 115 ∷ irq 99 ∷ [])
    × (obtained (gpio_exit (gpio_init (negsuc 15) (pos 99) initial).1).calls ≡ exported 115 ∷ [])
unfolding gpio_init gpio_exit
refused_line = (refl, refl)
