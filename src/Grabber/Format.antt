-- ===== src/Grabber/Format.antt =====
-- lkml/v4l2-app/grabber.c with lkml/v4l2/vid4linux.c: the option that forces a format, on the fake
-- driver.
use bbblack.Base.{ℕ, suc, ◌+◌, ◌≡◌, List, [], ◌∷◌, arith}
use bbblack.Base.Int.{ℤ}
use bbblack.FakeVid.State.{FakeVidDevice}
use bbblack.FakeVid.Format.{s_fmt_vid_cap}
use bbblack.Grabber.Types.{PixFormat, s_fmt, Kernel, Env}
use bbblack.Grabber.Setup.{init_device, open_device}
use bbblack.Grabber.Main.{
  Opt, flag, device, help, memory_mapped, read_calls, user_pointers, output, format, count, unknown,
  parse_option, parse_options, main, initial,
}
use bbblack.Base.Run.{On, On-map, On-and_then}
use bbblack.Grabber.Forced.{IsReply, SameChoice, open_device_keep, init_device_refused}

-- How often the option that forces the format is given
abbrev pub times_forced : List Opt → ℕ
times_forced [] = 0
times_forced (format ∷ os) = suc (times_forced os)
times_forced (_ ∷ os) = times_forced os

times_forced-cons :
    (o : Opt) (os : List Opt) → times_forced (o ∷ os) ≡ times_forced (o ∷ []) + times_forced os
times_forced-cons format os = omega arith
times_forced-cons (count text) os = omega arith
times_forced-cons flag os = omega arith
times_forced-cons (device n) os = omega arith
times_forced-cons help os = omega arith
times_forced-cons memory_mapped os = omega arith
times_forced-cons read_calls os = omega arith
times_forced-cons user_pointers os = omega arith
times_forced-cons output os = omega arith
times_forced-cons unknown os = omega arith

module _ {W : Type 0} (strtol : List ℕ → ℤ × ℕ) where
  -- After the options `os`, if the program goes on
  abbrev Parsed : List Opt → Env W → Env W → Type 0
  Parsed os s t = t.force_format ≡ times_forced os + s.force_format

  parse_option_lem :
      (o : Opt) (s : Env W) → On (λ _ t. Parsed (o ∷ []) s t) (λ _. Unit) (parse_option strtol o s)
  unfolding parse_option
  parse_option_lem (count text) s = ground arith
  parse_option_lem flag s = omega arith
  parse_option_lem (device n) s = omega arith
  parse_option_lem help s = tt
  parse_option_lem memory_mapped s = omega arith
  parse_option_lem read_calls s = omega arith
  parse_option_lem user_pointers s = omega arith
  parse_option_lem output s = omega arith
  parse_option_lem format s = omega arith
  parse_option_lem unknown s = tt

  parse_options_lem :
      (os : List Opt) (s : Env W)
      → On (λ _ t. Parsed os s t) (λ _. Unit) (parse_options strtol os s)
  unfolding parse_options
  parse_options_lem [] s = omega arith
  parse_options_lem (o ∷ os) s =
      On-and_then (λ _ t. Parsed (o ∷ []) s t) (λ _ t. Parsed (o ∷ os) s t) (λ _. Unit)
        (parse_option strtol o s) _ (parse_option_lem o s)
        (λ _ t e.
          On-map (λ _ u. Parsed os t u) (λ _ u. Parsed (o ∷ os) s u) (λ _. Unit) (λ _. Unit)
            (parse_options strtol os t) (parse_options_lem os t)
            (λ _ u e'. omega (arith, e, e', times_forced-cons o os)) (λ u x. tt))

  -- With the option -f the program cannot set the fake driver up. If the kernel answers VIDIOC_S_FMT as
  -- that driver's handler does, and the options force the format once or more, then `main` does not
  -- come to its `return 0`, whatever the kernel answers otherwise.
  pub main-s_fmt_vid_cap :
      (K : Kernel W) (fuel n : ℕ) (os : List Opt) (w : W) (dev : FakeVidDevice)
      → ((fd : ℤ) (f : PixFormat) (v : W)
          → IsReply (s_fmt_vid_cap dev).0 (K.ioctl fd (s_fmt f) v).0)
      → times_forced os ≡ suc n
      → On (λ _ _. ⊥) (λ _. Unit) (main strtol K fuel os (initial w))
  unfolding main
  main-s_fmt_vid_cap K fuel n os w dev fake e =
      On-and_then (λ _ t. Parsed os (initial w) t) (λ _ _. ⊥) (λ _. Unit)
        (parse_options strtol os (initial w)) _ (parse_options_lem os (initial w))
        (λ _ t e1.
          On-and_then (λ _. SameChoice t) (λ _ _. ⊥) (λ _. Unit) (open_device K fuel t) _
            ((open_device_keep K fuel).keeps t)
            (λ _ u (e2, _).
              On-and_then (λ _ _. ⊥) (λ _ _. ⊥) (λ _. Unit) (init_device K fuel u) _
                (init_device_refused K fuel dev fake n u (omega (arith, e, e1, e2)))
                (λ _ v h. absurd h)))
