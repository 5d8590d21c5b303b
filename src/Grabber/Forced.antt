-- ===== src/Grabber/Forced.antt =====
-- lkml/v4l2-app/grabber.c with lkml/v4l2/vid4linux.c: the set-up of a format, on the fake driver.
use bbblack.Base.{
  ℕ, zero, suc, ◌≡◌, refl, ◌∙◌, Bool, true, false, Option, none, some, [], ◌∷◌, ◌++◌, arith, inl,
  inr, Bool-cases,
}
use bbblack.Base.Int.{ℤ, pos, negsuc}
use bbblack.FakeVid.State.{FakeVidDevice}
use bbblack.FakeVid.Format.{s_fmt_vid_cap}
use bbblack.Grabber.Types.{
  Rect, PixFormat, Request, querycap, cropcap, s_crop, s_fmt, Reply, failed, done, is_interrupted,
  Kernel, Call, Env, Prog, and_then,
}
use bbblack.Grabber.Frames.{attempts, xioctl, require, or_exit}
use bbblack.Grabber.Setup.{
  check_capabilities, reset_crop, choose_format, init_device, identified, opened, open_device,
}
use bbblack.Base.Run.{On, On-map, On-and_then}

-- What a program sees of an ioctl whose handler returned `ret`: a negative value becomes -1, with the
-- error in `errno`.
abbrev pub IsReply : {A : Type 0} → ℤ → Reply A → Type 0
IsReply (pos n) (done r a) = r ≡ n
IsReply (negsuc n) (failed e) = e ≡ suc n
IsReply _ _ = ⊥

module _ {W : Type 0} where
  -- What the options chose is the same.
  abbrev pub SameChoice : Env W → Env W → Type 0
  SameChoice s t = (t.force_format ≡ s.force_format) × (t.io ≡ s.io)

  -- A part keeps what the options chose, if it returns.
  pub record KeepsFormat {A : Type 0} (m : Prog W A) : Type 0 where
    pub keeps : (s : Env W) → On (λ _. SameChoice s) (λ _. Unit) (m s)

  keep :
      {A : Type 0} {m : Prog W A}
      → ((s : Env W) → On (λ _. SameChoice s) (λ _. Unit) (m s))
      → KeepsFormat m
  keep h = record { keeps = h }

  infixl 6 ◌then_keep◌
  ◌then_keep◌ :
      {A B : Type 0} {m : Prog W A} {k : A → Prog W B}
      → KeepsFormat m
      → ((a : A) → KeepsFormat (k a))
      → KeepsFormat (λ s. and_then (m s) k)
  ◌then_keep◌ {m = m} {k = k} h f = keep (λ s.
      On-and_then (λ _. SameChoice s) (λ _. SameChoice s) (λ _. Unit) (m s) k (h.keeps s)
        (λ a t (e, i).
          On-map (λ _. SameChoice t) (λ _. SameChoice s) (λ _. Unit) (λ _. Unit) (k a t)
            ((f a).keeps t) (λ b u (e', i'). (e' ∙ e, i' ∙ i)) (λ u x. tt)))

  module _ (K : Kernel W) where
    attempts_keep :
        (n : ℕ) (r : Request) (s : Env W) → On (λ _. SameChoice s) (λ _. Unit) (attempts K n r s)
    unfolding attempts
    attempts_keep zero r s = tt
    attempts_keep (suc n) r s =
        let t : Env W = record s {
          world = (K.ioctl s.fd r s.world).1;
          calls = s.calls ++ (Call.ioctl r ∷ []);
        } in
        elim (Bool-cases (is_interrupted (K.ioctl s.fd r s.world).0)) [
          | inl q ↦ rw (q, attempts) (attempts_keep n r t)
          | inr q ↦ rw (q, attempts) (refl, refl)
        ]

    module _ (fuel : ℕ) where
      pub xioctl_keep : (r : Request) → KeepsFormat (xioctl K fuel r)
      unfolding xioctl
      xioctl_keep r = keep (λ s. attempts_keep fuel r s)

      pub or_exit_keep : {A : Type 0} (reply : Reply A) → KeepsFormat (or_exit K fuel reply)
      unfolding or_exit
      or_exit_keep (failed e) = keep (λ s. tt)
      or_exit_keep (done r a) = keep (λ s. (refl, refl))

      pub check_capabilities_keep : KeepsFormat (check_capabilities K fuel)
      unfolding check_capabilities require
      check_capabilities_keep =
          (xioctl_keep querycap then_keep or_exit_keep) then_keep (λ caps. keep (λ s. ground arith))

      pub reset_crop_keep : (reply : Reply Rect) → KeepsFormat (reset_crop K fuel reply)
      unfolding reset_crop
      reset_crop_keep (failed e) = keep (λ s. (refl, refl))
      reset_crop_keep (done zero r) =
          xioctl_keep (s_crop r) then_keep (λ _. keep (λ s. (refl, refl)))
      reset_crop_keep (done (suc n) r) = keep (λ s. (refl, refl))

      opened_keep : (p : Option ℕ) → KeepsFormat (opened K fuel p)
      unfolding opened
      opened_keep none = keep (λ s. tt)
      opened_keep (some n) = keep (λ s. (refl, refl))

      identified_keep : (p : Option Bool) → KeepsFormat (identified K fuel p)
      unfolding identified
      identified_keep none = keep (λ s. tt)
      identified_keep (some false) = keep (λ s. tt)
      identified_keep (some true) = keep (λ s.
          let (p, w) = K.open_file s.dev_name s.world in
          (opened_keep p).keeps (record s { world = w }))

      pub open_device_keep : KeepsFormat (open_device K fuel)
      unfolding open_device
      open_device_keep = keep (λ s.
          let (p, w) = K.stat_is_chr s.dev_name s.world in
          (identified_keep p).keeps (record s { world = w }))

      module _ (dev : FakeVidDevice)
          (fake : (fd : ℤ) (f : PixFormat) (w : W)
            → IsReply (s_fmt_vid_cap dev).0 (K.ioctl fd (s_fmt f) w).0) where
        attempts_refused :
            (n : ℕ) (f : PixFormat) (s : Env W)
            → On
                (λ reply _. IsReply (s_fmt_vid_cap dev).0 reply)
                (λ _. Unit)
                (attempts K n (s_fmt f) s)
        unfolding attempts
        attempts_refused zero f s = tt
        attempts_refused (suc n) f s =
            let t : Env W = record s {
              world = (K.ioctl s.fd (s_fmt f) s.world).1;
              calls = s.calls ++ (Call.ioctl (s_fmt f) ∷ []);
            } in
            elim (Bool-cases (is_interrupted (K.ioctl s.fd (s_fmt f) s.world).0)) [
              | inl q ↦ rw (q, attempts) (attempts_refused n f t)
              | inr q ↦ rw (q, attempts) (fake s.fd f s.world)
            ]

        or_exit_refused :
            {A : Type 0} (reply : Reply A) (s : Env W)
            → IsReply (s_fmt_vid_cap dev).0 reply
            → On (λ _ _. ⊥) (λ _. Unit) (or_exit K fuel reply s)
        unfolding or_exit s_fmt_vid_cap
        or_exit_refused (failed e) s h = tt
        or_exit_refused (done r a) s h = h

        choose_format_refused :
            (n : ℕ) (s : Env W) → On (λ _ _. ⊥) (λ _. Unit) (choose_format K fuel (suc n) s)
        unfolding choose_format require xioctl
        choose_format_refused n s =
            let f : PixFormat = record { width = 640; height = 480 } in
            On-and_then (λ reply _. IsReply (s_fmt_vid_cap dev).0 reply) (λ _ _. ⊥) (λ _. Unit)
              (attempts K fuel (s_fmt f) s) (or_exit K fuel) (attempts_refused fuel f s)
              (λ reply t h. or_exit_refused reply t h)

        forced_refused :
            (force n : ℕ) (s : Env W)
            → force ≡ suc n
            → On (λ _ _. ⊥) (λ _. Unit) (choose_format K fuel force s)
        forced_refused zero n s e = absurd (omega arith)
        forced_refused (suc k) n s e = choose_format_refused k s

        pub init_device_refused :
            (n : ℕ) (s : Env W)
            → s.force_format ≡ suc n
            → On (λ _ _. ⊥) (λ _. Unit) (init_device K fuel s)
        unfolding init_device
        init_device_refused n s e =
            On-and_then (λ _. SameChoice s) (λ _ _. ⊥) (λ _. Unit) (check_capabilities K fuel s) _
              (check_capabilities_keep.keeps s)
              (λ _ t (e1, _).
                On-and_then (λ _. SameChoice t) (λ _ _. ⊥) (λ _. Unit) (xioctl K fuel cropcap t) _
                  ((xioctl_keep cropcap).keeps t)
                  (λ reply u (e2, _).
                    On-and_then (λ _. SameChoice u) (λ _ _. ⊥) (λ _. Unit)
                      (reset_crop K fuel reply u) _ ((reset_crop_keep reply).keeps u)
                      (λ _ v (e3, _).
                        On-and_then (λ _ _. ⊥) (λ _ _. ⊥) (λ _. Unit)
                          (choose_format K fuel v.force_format v) _
                          (forced_refused v.force_format n v (e3 ∙ (e2 ∙ (e1 ∙ e))))
                          (λ size w h. absurd h))))
