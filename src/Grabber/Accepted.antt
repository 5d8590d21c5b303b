-- ===== src/Grabber/Accepted.antt =====
-- lkml/v4l2-app/grabber.c with lkml/v4l2/vid4linux.c: a whole run of the program on the fake driver.
use Prim.Native.Nat.{bit_and}
use mathlib.Core.Path.{subst⁻¹}
use bbblack.Base.{
  ℕ, zero, suc, ◌<◌, ◌≡◌, refl, ◌∙◌, false, List, [], ◌∷◌, arith, map, append-nil, All, ◌==◌,
}
use bbblack.Base.Int.{ℤ}
use bbblack.Base.Run.{On, On-map, On-and_then, Triple, runs_by, ◌then_runs◌}
use bbblack.FakeVid.State.{FakeVidDevice}
use bbblack.FakeVid.Format.{querycap as fake_querycap}
use bbblack.Grabber.Types.{
  IoMethod, read, mmap, userptr, Request, querycap, cropcap, s_crop, g_fmt, Rect, Reply, failed,
  done, Kernel, Call, Env, Prog, and_then, pure,
}
use bbblack.Grabber.Frames.{xioctl, require}
use bbblack.Grabber.Setup.{
  needed, check_capabilities, reset_crop, choose_format, init_by, init_device, identified, opened,
  open_device,
}
use bbblack.Grabber.Main.{
  Opt, flag, device, help, memory_mapped, read_calls, user_pointers, output, format, count, unknown,
  parse_option, parse_options, main, initial,
}
use bbblack.Grabber.Retry.{Interrupts, Answered, xioctl_lem}
use bbblack.Grabber.Memory.{
  memory, memory-append, IsNeeded, memory-replicate, Provides, Required, require-Required,
}
use bbblack.Grabber.Balance.{obtain, Counted, Obtained, init_by-Obtained}
use bbblack.Grabber.Plain.{word_of, IsPlain, OnFakeDriver}

module _ {W : Type 0} (K : Kernel W) (patience : W → ℕ) where
  module _ (I : Interrupts K patience) (P : Provides K patience) (name : List ℕ)
      (dev : FakeVidDevice) (D : OnFakeDriver K patience name dev) (fuel : ℕ) where
    -- Before the buffers are set up: nothing is obtained, and there is fuel for the requests.
    abbrev Going : Env W → Type 0
    Going s = (s.force_format ≡ 0) × (memory s.calls ≡ []) × (patience s.world < fuel)

    abbrev Goes : {A : Type 0} → Prog W A → Type 0
    Goes m = Triple Going m (λ _. Going) (λ _. ⊥)

    module _ (strtol : List ℕ → ℤ × ℕ) where
      parse_option-Goes : (o : Opt) → IsPlain strtol o → Goes (parse_option strtol o)
      unfolding parse_option
      parse_option-Goes (count text) h = runs_by (λ s p. rw h p)
      parse_option-Goes flag h = runs_by (λ s p. p)
      parse_option-Goes (device n) h = runs_by (λ s p. p)
      parse_option-Goes memory_mapped h = runs_by (λ s p. p)
      parse_option-Goes read_calls h = runs_by (λ s p. p)
      parse_option-Goes user_pointers h = runs_by (λ s p. p)
      parse_option-Goes output h = runs_by (λ s p. p)
      parse_option-Goes help h = absurd h
      parse_option-Goes unknown h = absurd h
      parse_option-Goes format h = absurd h

      parse_options-Goes :
          (os : List Opt) → All (IsPlain strtol) os → Goes (parse_options strtol os)
      unfolding parse_options
      parse_options-Goes [] h = runs_by (λ s p. p)
      parse_options-Goes (o ∷ os) (h, hs) =
          parse_option-Goes o h then_runs (λ _. parse_options-Goes os hs)

    open_device-Goes : Goes (open_device K fuel)
    unfolding open_device identified opened
    open_device-Goes = runs_by λ s (f, m, lt).
        let (v, got, le) = D.stat_is_chr s.dev_name s.world in
        let (n, u, got', le') = D.open_file s.dev_name v in
        rw (got, got') (f, memory-append s.calls (Call.open_file n ∷ []) ∙ rw m refl, omega arith)

    require-Goes :
        (r : Request) (s : Env W)
        → IsNeeded r
        → Going s
        → On
            (λ out t.
              Going t
              × (t.io ≡ s.io)
              × ((w : W) × (ret : ℕ) × ((K.ioctl s.fd r w).0 ≡ done ret out)))
            (λ _. ⊥)
            (require K fuel r s)
    require-Goes r s needed (f, m, lt) =
        On-map (Required K patience I P fuel r s) _ (λ _. ⊥) (λ _. ⊥) (require K fuel r s)
          (require-Required K patience I P fuel r s needed lt)
          (λ out t ((io, bufs, arr, len, mem, forced, le), from).
            ((forced ∙ f, mem ∙ m, omega arith), io, from))
          (λ t e. e)

    xioctl-Goes : (r : Request) → Goes (xioctl K fuel r)
    xioctl-Goes r = runs_by λ s (f, m, lt).
        On-map (Answered K patience r s) _ (λ _. ⊥) (λ _. ⊥) (xioctl K fuel r s)
          (xioctl_lem K patience fuel r s I lt)
          (λ reply t (settled, le, (n, w, q, u)). (
            rw u f,
            rw u (rw (memory-append, memory-replicate) (append-nil (memory s.calls)) ∙ m),
            omega arith,
          ))
          (λ t e. e)

    is_capable :
        (io : IoMethod)
        → (bit_and (word_of (fake_querycap name).1.capabilities) (needed K fuel io) == 0) ≡ false
    unfolding fake_querycap
    is_capable read = refl
    is_capable mmap = refl
    is_capable userptr = refl

    check_capabilities-Goes : Goes (check_capabilities K fuel)
    unfolding check_capabilities fake_querycap
    check_capabilities-Goes = runs_by λ s p.
        On-and_then _ (λ _. Going) (λ _. ⊥) (require K fuel querycap s) _
          (require-Goes querycap s tt p)
          (λ caps t (q, io, (w, ret, replied)).
            rw (D.capabilities s.fd w ret caps replied) (rw (is_capable t.io) q))

    reset_crop-Goes : (reply : Reply Rect) → Goes (reset_crop K fuel reply)
    unfolding reset_crop
    reset_crop-Goes (failed e) = runs_by (λ s p. p)
    reset_crop-Goes (done zero rect) = xioctl-Goes (s_crop rect) then_runs (λ _. runs_by (λ s p. p))
    reset_crop-Goes (done (suc r) rect) = runs_by (λ s p. p)

    choose_format-Goes :
        (n : ℕ) (s : Env W)
        → n ≡ 0
        → Going s
        → On (λ _ t. Going t × (t.io ≡ s.io)) (λ _. ⊥) (choose_format K fuel n s)
    unfolding choose_format
    choose_format-Goes zero s e p =
        On-map _ _ (λ _. ⊥) (λ _. ⊥) (require K fuel g_fmt s) (require-Goes g_fmt s tt p)
          (λ out t (q, io, from). (q, io)) (λ t e. e)
    choose_format-Goes (suc n) s e p = cc

    -- The memory of a program that has set up its buffers, by its way of input
    abbrev pub SetUp : Env W → Type 0
    SetUp t =
        (memory t.calls ≡ Call.malloc t.array_addr ∷ map (obtain t.io) t.buffers)
        × Counted K patience I P fuel t.io t

    init_by-SetUp :
        (io : IoMethod) (size : ℕ) (s : Env W)
        → s.io ≡ io
        → Going s
        → On (λ _. SetUp) (λ _. ⊥) (init_by K fuel io size s)
    init_by-SetUp io size s e (f, m, lt) =
        On-map (λ _ t. Obtained K patience I P fuel io s t) _ (λ _. ⊥) (λ _. ⊥)
          (init_by K fuel io size s) (init_by-Obtained K patience I P fuel io size s lt)
          (λ _ t (io', mem, counted).
            subst⁻¹
              (λ i.
                (memory t.calls ≡ Call.malloc t.array_addr ∷ map (obtain i) t.buffers)
                × Counted K patience I P fuel i t)
              (io' ∙ e) (rw m at mem, counted))
          (λ t e. e)

    set_buffers-SetUp :
        Triple Going
          (λ s. and_then (choose_format K fuel s.force_format s) (init_by K fuel s.io))
          (λ _. SetUp)
          (λ _. ⊥)
    set_buffers-SetUp = runs_by λ s p.
        On-and_then (λ _ t. Going t × (t.io ≡ s.io)) (λ _. SetUp) (λ _. ⊥)
          (choose_format K fuel s.force_format s) (init_by K fuel s.io)
          (choose_format-Goes s.force_format s p.0 p)
          (λ size t (q, io). init_by-SetUp s.io size t io q)

    init_device-SetUp : Triple Going (init_device K fuel) (λ _. SetUp) (λ _. ⊥)
    unfolding init_device
    init_device-SetUp = check_capabilities-Goes then_runs (λ _.
        xioctl-Goes cropcap
        then_runs (λ reply. reset_crop-Goes reply then_runs (λ _. set_buffers-SetUp)))

    returns_zero : Triple {A = ℕ} SetUp (pure 0) (λ ret t. (ret ≡ 0) × SetUp t) (λ _. ⊥)
    returns_zero = runs_by (λ s p. (refl, p))

    -- What a whole run obtains
    pub main_obtains :
        (strtol : List ℕ → ℤ × ℕ) (os : List Opt) (w : W)
        → All (IsPlain strtol) os
        → patience w < fuel
        → On (λ ret t. (ret ≡ 0) × SetUp t) (λ _. ⊥) (main strtol K fuel os (initial w))
    unfolding main
    main_obtains strtol os w plain lt =
        (parse_options-Goes strtol os plain then_runs (λ _.
            open_device-Goes then_runs (λ _. init_device-SetUp then_runs (λ _. returns_zero)))).runs
          (initial w) (refl, refl, lt)
