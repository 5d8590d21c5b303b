-- ===== src/Grabber/Idle.antt =====
-- lkml/v4l2-app/grabber.c: `main`, in which the calls for capturing are commented out.
use bbblack.Base.{ℕ, ◌≡◌, refl, List, [], ◌∷◌, arith}
use bbblack.Base.Int.{ℤ}
use bbblack.Grabber.Types.{Kernel}
use bbblack.Grabber.Main.{
  Opt, flag, device, help, memory_mapped, read_calls, user_pointers, output, format, count, unknown,
  parse_option, parse_options, main, initial,
}
use bbblack.Base.Run.{On}
use bbblack.Grabber.Quiet.{
  captures, IsQuiet, quietly, ◌then_quiet◌, open_device-IsQuiet, init_device-IsQuiet,
}

module _ {W : Type 0} (K : Kernel W) (fuel : ℕ) (strtol : List ℕ → ℤ × ℕ) where
  parse_option-IsQuiet : (o : Opt) → IsQuiet {W = W} (parse_option strtol o)
  unfolding parse_option
  parse_option-IsQuiet (count text) = quietly (λ s. ground arith)
  parse_option-IsQuiet flag = quietly (λ s. refl)
  parse_option-IsQuiet (device n) = quietly (λ s. refl)
  parse_option-IsQuiet help = quietly (λ s. refl)
  parse_option-IsQuiet memory_mapped = quietly (λ s. refl)
  parse_option-IsQuiet read_calls = quietly (λ s. refl)
  parse_option-IsQuiet user_pointers = quietly (λ s. refl)
  parse_option-IsQuiet output = quietly (λ s. refl)
  parse_option-IsQuiet format = quietly (λ s. refl)
  parse_option-IsQuiet unknown = quietly (λ s. refl)

  parse_options-IsQuiet : (os : List Opt) → IsQuiet {W = W} (parse_options strtol os)
  unfolding parse_options
  parse_options-IsQuiet [] = quietly (λ s. refl)
  parse_options-IsQuiet (o ∷ os) = parse_option-IsQuiet o then_quiet (λ _. parse_options-IsQuiet os)

  -- Whatever the options are and whatever the kernel answers, and however the run ends, the
  -- program makes no call that captures a frame: it queues and takes no buffer, starts no stream,
  -- waits for no frame, reads none, and hands none on to the output.
  pub captures-main :
      (os : List Opt) (w : W)
      → On
          (λ _ t. captures t.calls ≡ 0)
          (λ t. captures t.calls ≡ 0)
          (main strtol K fuel os (initial w))
  unfolding main
  captures-main os w =
      (parse_options-IsQuiet os then_quiet (λ _.
          open_device-IsQuiet K fuel
          then_quiet (λ _. init_device-IsQuiet K fuel then_quiet (λ _. quietly (λ s. refl))))).stays
        (initial w)
