-- ===== src/Gpio/Balance.antt =====
-- lkml/gpio/gpio.c: what the load obtains and the unload gives back.
use bbblack.Base.{ℕ, ◌≡◌, refl, if◌then◌else◌, List, [], ◌∷◌}
use bbblack.Base.Int.{ℤ, pos, is_nonzero}
use bbblack.Base.Word.{to_u32}
use bbblack.Gpio.Button.{
  Call, gpio_request, gpio_export, gpio_unexport, gpio_free, free_irq, initial, gpio_init,
  gpio_exit,
}

pub data Resource : Type 0 where
  line exported irq : ℕ → Resource

-- A line is obtained by a request that returns 0.
abbrev pub obtained : List Call → List Resource
obtained [] = []
obtained (gpio_request n ret ∷ cs) =
    let rest = obtained cs in if is_nonzero ret then rest else line n ∷ rest
obtained (gpio_export n ∷ cs) = exported n ∷ obtained cs
obtained (_ ∷ cs) = obtained cs

abbrev pub given_back : List Call → List Resource
given_back [] = []
given_back (gpio_unexport n ∷ cs) = exported n ∷ given_back cs
given_back (gpio_free n ∷ cs) = line n ∷ given_back cs
given_back (free_irq n ∷ cs) = irq n ∷ given_back cs
given_back (_ ∷ cs) = given_back cs

-- Whatever the kernel answers, the load returns 0, and load and unload give back the line and its
-- export, and an interrupt, of which none was asked for; the line was obtained only if its request
-- returned 0.
pub gpio_exit-gpio_init :
    (requested irq_number : ℤ)
    → let (ret, m) = gpio_init requested irq_number initial in
      let t = gpio_exit m in
      (ret ≡ pos 0)
      × (given_back t.calls ≡ exported 115 ∷ line 115 ∷ irq (to_u32 irq_number) ∷ [])
      × (obtained t.calls
          ≡ (if is_nonzero requested then exported 115 ∷ [] else line 115 ∷ exported 115 ∷ []))
unfolding gpio_init gpio_exit
gpio_exit-gpio_init requested irq_number = (refl, refl, refl)
