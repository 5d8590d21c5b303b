-- ===== src/Grabber/Fits.antt =====
-- lkml/v4l2-app/grabber.c with lkml/v4l2/vid4linux.c: the size of the buffers that the program
-- allocates, and the size that the driver asks for.
use bbblack.Base.{
  ℕ, zero, suc, ◌*◌, ◌<◌, ◌^◌, ◌≡◌, refl, ◌∙◌, sym, inl, inr, List, [], ◌∷◌, arith, All, Bool-cases,
  ◌==◌,
}
use mathlib.Core.Path.{subst}
use bbblack.Base.Run.{On, On-also, On-map, On-and_then, and_then, Triple, runs_by, ◌then_runs◌}
use bbblack.Grabber.Types.{
  IoMethod, read, mmap, userptr, g_fmt, cropcap, Reply, failed, done, Buffer, Kernel, Env, Prog,
  pure,
}
use bbblack.Grabber.Setup.{init_by, choose_format, init_device}
use bbblack.Grabber.Main.{
  Opt, flag, device, help, memory_mapped, read_calls, user_pointers, output, format, count, unknown,
  parse_option, parse_options, main, initial,
}
use bbblack.Grabber.Asks.{Retries, asked, require_ind}
use bbblack.Grabber.Forced.{
  SameChoice, KeepsFormat, xioctl_keep, check_capabilities_keep, reset_crop_keep, open_device_keep,
}
use bbblack.Grabber.Format.{times_forced}
use bbblack.Base.Int.{ℤ, pos}
use bbblack.Base.Word.{u32_mod, to_u32, to_int}
use bbblack.FakeVid.State.{FakeVidDevice, Vb2}
use bbblack.FakeVid.Queue.{image_size, buf_prepare}
use bbblack.FakeVid.Format.{g_fmt_vid_cap}
use bbblack.FakeVid.FormatLaws.{sizeimage-eq-image_size}
use bbblack.Grabber.Memory.{Provides}
use bbblack.Grabber.Retry.{Interrupts}
use bbblack.Grabber.Plain.{IsPlain, plain_unforced, OnFakeDriver}
use bbblack.Grabber.Accepted.{SetUp, main_obtains}
use bbblack.Grabber.Sized.{AllSized, Sized, init_by-Sized}

-- The way of input that the options choose: the last one given
abbrev pub method : IoMethod → List Opt → IoMethod
method io [] = io
method io (memory_mapped ∷ os) = method mmap os
method io (read_calls ∷ os) = method read os
method io (user_pointers ∷ os) = method userptr os
method io (_ ∷ os) = method io os

-- A buffer for which `buf_prepare` of the driver returns 0
abbrev pub IsAccepted : FakeVidDevice → Buffer → Type 0
IsAccepted dev b =
    (vb2 : Vb2) (i : ℕ) → vb2.plane_size i ≡ b.length → (buf_prepare vb2 dev i).0 ≡ pos 0

accepted :
    (dev : FakeVidDevice) (bs : List Buffer)
    → AllSized (image_size dev) bs
    → All (IsAccepted dev) bs
unfolding buf_prepare image_size
accepted dev [] h = tt
accepted dev (b ∷ bs) (h, hs) = ((λ vb2 i e. ground arith), accepted dev bs hs)

-- By the way of input: the buffers that the program allocates are accepted.
abbrev pub Fits : {W : Type 0} → FakeVidDevice → IoMethod → Env W → Type 0
Fits dev mmap t = Unit
Fits dev _ t = All (IsAccepted dev) t.buffers

Sized-Fits :
    {W : Type 0} (dev : FakeVidDevice) (io : IoMethod) (t : Env W)
    → Sized io (image_size dev) t
    → Fits dev io t
Sized-Fits dev mmap t h = tt
Sized-Fits dev read t h = accepted dev t.buffers h
Sized-Fits dev userptr t h = accepted dev t.buffers h

module _ {W : Type 0} where
  abbrev Chosen : IoMethod → Env W → Type 0
  Chosen io s = (s.force_format ≡ 0) × (s.io ≡ io)

  choice_kept :
      {A : Type 0} {m : Prog W A} (io : IoMethod)
      → KeepsFormat m
      → Triple (Chosen io) m (λ _. Chosen io) (λ _. Unit)
  choice_kept {m = m} io h = runs_by λ s (f, i).
      On-map (λ _. SameChoice s) (λ _. Chosen io) (λ _. Unit) (λ _. Unit) (m s) (h.keeps s)
        (λ a t (f', i'). (f' ∙ f, i' ∙ i)) (λ t u. u)

  module _ (strtol : List ℕ → ℤ × ℕ) where
    parsed :
        (os : List Opt) (io : IoMethod)
        → times_forced os ≡ 0
        → Triple
            (Chosen io)
            (parse_options {W = W} strtol os)
            (λ _. Chosen (method io os))
            (λ _. Unit)
    unfolding parse_options parse_option
    parsed [] io h = runs_by (λ s p. p)
    parsed (flag ∷ os) io h = runs_by (λ s p. (parsed os io h).runs s p)
    parsed (device n ∷ os) io h =
        runs_by (λ s p. (parsed os io h).runs (record s { dev_name = n }) p)
    parsed (help ∷ os) io h = runs_by (λ s p. tt)
    parsed (memory_mapped ∷ os) io h =
        runs_by (λ s (f, i). (parsed os mmap h).runs (record s { io = mmap }) (f, refl))
    parsed (read_calls ∷ os) io h =
        runs_by (λ s (f, i). (parsed os read h).runs (record s { io = read }) (f, refl))
    parsed (user_pointers ∷ os) io h =
        runs_by (λ s (f, i). (parsed os userptr h).runs (record s { io = userptr }) (f, refl))
    parsed (output ∷ os) io h =
        runs_by (λ s p. (parsed os io h).runs (record s { out_buf = suc s.out_buf }) p)
    parsed (format ∷ os) io h = absurd (omega arith)
    parsed (count text ∷ os) io h = runs_by λ s p. elim (Bool-cases ((strtol text).1 == 0)) [
      | inl q ↦
          rw q
            ((parsed os io h).runs (record s { frame_count = to_int (to_u32 (strtol text).0) }) p)
      | inr q ↦ rw q tt
    ]
    parsed (unknown ∷ os) io h = runs_by (λ s p. tt)

  module _ (K : Kernel W) (fuel size : ℕ)
      (tells : (fd : ℤ) (w : W) (ret out : ℕ) → (K.ioctl fd g_fmt w).0 ≡ done ret out → out ≡ size)
      (io : IoMethod) where
    told :
        (reply : Reply ℕ) (s t : Env W)
        → (K.ioctl s.fd g_fmt s.world).0 ≡ reply
        → Chosen io t
        → Retries (Chosen io) (λ _. Unit) (λ out t. (out ≡ size) × Chosen io t) reply t
    told (failed e) s t q p = ((λ _. p), tt)
    told (done r out) s t q p = (tells s.fd s.world r out q, p)

    choose_format_lem :
        (n : ℕ)
        → n ≡ 0
        → Triple
            (Chosen io)
            (choose_format K fuel n)
            (λ out t. (out ≡ size) × Chosen io t)
            (λ _. Unit)
    unfolding choose_format
    choose_format_lem zero e = runs_by (
        require_ind K fuel g_fmt (Chosen io) (λ _. Unit) (λ out t. (out ≡ size) × Chosen io t)
          (λ s p. tt) (λ s p. told (K.ioctl s.fd g_fmt s.world).0 s (asked K g_fmt s).1 refl p))
    choose_format_lem (suc n) e = cc

    buffers-Sized :
        Triple
          (Chosen io)
          (λ s. and_then (choose_format K fuel s.force_format s) (init_by K fuel s.io))
          (λ _. Sized io size)
          (λ _. Unit)
    buffers-Sized = runs_by λ s p.
        On-and_then (λ out t. (out ≡ size) × Chosen io t) (λ _. Sized io size) (λ _. Unit)
          (choose_format K fuel s.force_format s) (init_by K fuel s.io)
          ((choose_format_lem s.force_format p.0).runs s p)
          (λ out t (e, q).
            subst (λ i. On (λ _. Sized io size) (λ _. Unit) (init_by K fuel i out t)) (sym p.1)
              (subst (λ n. On (λ _. Sized io size) (λ _. Unit) (init_by K fuel io n t)) (sym e)
                ((init_by-Sized K fuel io size).runs t tt)))

    init_device-Sized : Triple (Chosen io) (init_device K fuel) (λ _. Sized io size) (λ _. Unit)
    unfolding init_device
    init_device-Sized = choice_kept io (check_capabilities_keep K fuel) then_runs (λ _.
        choice_kept io (xioctl_keep K fuel cropcap) then_runs (λ reply.
          choice_kept io (reset_crop_keep K fuel reply) then_runs (λ _. buffers-Sized)))

  main-Sized :
      (K : Kernel W) (fuel size : ℕ)
      (tells : (fd : ℤ) (w : W) (ret out : ℕ) → (K.ioctl fd g_fmt w).0 ≡ done ret out → out ≡ size)
      (strtol : List ℕ → ℤ × ℕ) (os : List Opt) (w : W)
      → times_forced os ≡ 0
      → On (λ _. Sized (method mmap os) size) (λ _. Unit) (main strtol K fuel os (initial w))
  unfolding main
  main-Sized K fuel size tells strtol os w h =
      let io = method mmap os in
      (parsed strtol os mmap h then_runs (λ _.
          choice_kept io (open_device_keep K fuel) then_runs (λ _.
            init_device-Sized K fuel size tells io
            then_runs (λ _. runs_by {A = ℕ} {m = pure 0} (λ s p. p))))).runs
        (initial w) (refl, refl)

  -- On the fake driver a whole run of the program returns 0, has obtained the array and its buffers and
  -- nothing else, and each buffer that it allocated itself is one that the driver's `buf_prepare`
  -- accepts. It is for options with which the program goes on and does not force a format, a device that
  -- is there, a kernel that has memory to give, more fuel than it has patience, and a format for which the
  -- driver's sizes agree and do not overflow.
  pub main_sets_up :
      (K : Kernel W) (patience : W → ℕ) (I : Interrupts K patience) (P : Provides K patience)
      (name : List ℕ) (dev : FakeVidDevice) (D : OnFakeDriver K patience name dev) (fuel : ℕ)
      (strtol : List ℕ → ℤ × ℕ) (os : List Opt) (w : W)
      → All (IsPlain strtol) os
      → patience w < fuel
      → dev.fmt.depth ≡ 8 * dev.pixelsize
      → dev.width * dev.pixelsize < 2 ^ 29
      → dev.width * dev.height < u32_mod
      → On
          (λ ret t.
            ((ret ≡ 0) × SetUp K patience I P name dev D fuel t) × Fits dev (method mmap os) t)
          (λ _. ⊥)
          (main strtol K fuel os (initial w))
  main_sets_up K patience I P name dev D fuel strtol os w plain lt depth small fits =
      let same : (g_fmt_vid_cap dev).1.sizeimage ≡ image_size dev =
        sizeimage-eq-image_size dev depth small fits in
      On-also (λ _. Fits dev (method mmap os))
        (λ ret t. (ret ≡ 0) × SetUp K patience I P name dev D fuel t) (λ _. Unit)
        (main strtol K fuel os (initial w))
        (On-map (λ _. Sized (method mmap os) (image_size dev)) (λ _. Fits dev (method mmap os))
          (λ _. Unit) (λ _. Unit) (main strtol K fuel os (initial w))
          (main-Sized K fuel (image_size dev) (λ fd v ret out e. D.format fd v ret out e ∙ same)
            strtol os w (plain_unforced strtol os plain))
          (λ _ t p. Sized-Fits dev (method mmap os) t p) (λ t u. u))
        (main_obtains K patience I P name dev D fuel strtol os w plain lt)
