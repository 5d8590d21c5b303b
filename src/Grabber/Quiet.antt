-- ===== src/Grabber/Quiet.antt =====
-- lkml/v4l2-app/grabber.c: the calls that capture frames, and the parts of the set-up.
use bbblack.Base.{
  ℕ, zero, suc, ◌+◌, ◌*◌, ◌≡◌, refl, ◌∙◌, Bool, true, false, Option, none, some, List, [], ◌∷◌,
  ◌++◌, arith, ltb, inl, inr, Bool-cases,
}
use bbblack.Grabber.Types.{
  IoMethod, read, mmap, userptr, Rect, Request, querycap, cropcap, s_crop, s_fmt, g_fmt, reqbufs,
  querybuf, qbuf, dqbuf, streamon, clear, mapped, user, Reply, failed, done, is_interrupted, Kernel,
  Call, Env, Prog, and_then,
}
use bbblack.Grabber.Frames.{attempts, xioctl, require, or_exit}
use bbblack.Grabber.Setup.{
  set_buffer, malloc, not_null, calloc, init_read, mapped_at, add_buffer, map_buffers, init_mmap,
  allocate_buffers, init_userp, init_by, check_capabilities, reset_crop, choose_format, init_device,
  identified, opened, open_device,
}
use bbblack.Base.Run.{On, On-map, Keeps, Keeps->>=}

-- The requests that move frames
abbrev pub moves_frames : Request → ℕ
moves_frames (qbuf b) = 1
moves_frames (dqbuf b) = 1
moves_frames streamon = 1
moves_frames _ = 0

-- How many calls serve the capturing of frames
abbrev pub captures : List Call → ℕ
captures [] = 0
captures (Call.ioctl r ∷ cs) = moves_frames r + captures cs
captures (Call.read ∷ cs) = suc (captures cs)
captures (Call.select ∷ cs) = suc (captures cs)
captures (Call.process_image a n ∷ cs) = suc (captures cs)
captures (_ ∷ cs) = captures cs

captures-append : (cs ds : List Call) → captures (cs ++ ds) ≡ captures cs + captures ds
captures-append [] ds = omega arith
captures-append (Call.ioctl r ∷ cs) ds = omega (arith, captures-append cs ds)
captures-append (Call.read ∷ cs) ds = omega (arith, captures-append cs ds)
captures-append (Call.select ∷ cs) ds = omega (arith, captures-append cs ds)
captures-append (Call.process_image a n ∷ cs) ds = omega (arith, captures-append cs ds)
captures-append (Call.mmap b ∷ cs) ds = captures-append cs ds
captures-append (Call.munmap b ∷ cs) ds = captures-append cs ds
captures-append (Call.malloc b ∷ cs) ds = captures-append cs ds
captures-append (Call.free b ∷ cs) ds = captures-append cs ds
captures-append (Call.open_file b ∷ cs) ds = captures-append cs ds
captures-append (Call.close b ∷ cs) ds = captures-append cs ds

module _ {W : Type 0} where
  abbrev pub Quiet : Env W → Env W → Type 0
  Quiet s t = captures t.calls ≡ captures s.calls

  Quiet-trans : (s t u : Env W) → Quiet s t → Quiet t u → Quiet s u
  Quiet-trans s t u p q = q ∙ p

  -- A part that never captures, however it ends
  pub record IsQuiet {A : Type 0} (m : Prog W A) : Type 0 where
    pub stays : Keeps Quiet m

  infixl 6 ◌then_quiet◌
  pub ◌then_quiet◌ :
      {A B : Type 0} {m : Prog W A} {k : A → Prog W B}
      → IsQuiet m
      → ((a : A) → IsQuiet (k a))
      → IsQuiet (λ s. and_then (m s) k)
  ◌then_quiet◌ {m = m} {k = k} h f = record {
    stays = Keeps->>= Quiet Quiet-trans m k h.stays (λ a. (f a).stays);
  }

  pub quietly :
      {A : Type 0} {m : Prog W A}
      → ((s : Env W) → On (λ _ t. Quiet s t) (λ t. Quiet s t) (m s))
      → IsQuiet m
  quietly h = record { stays = h }

  module _ (K : Kernel W) where
    attempts-Quiet :
        (n : ℕ) (r : Request) (s : Env W)
        → moves_frames r ≡ 0
        → On (λ _ t. Quiet s t) (λ t. Quiet s t) (attempts K n r s)
    unfolding attempts
    attempts-Quiet zero r s e = refl
    attempts-Quiet (suc n) r s e =
        let t : Env W = record s {
          world = (K.ioctl s.fd r s.world).1;
          calls = s.calls ++ (Call.ioctl r ∷ []);
        } in
        let same : Quiet s t = omega (arith, captures-append s.calls (Call.ioctl r ∷ []), e) in
        elim (Bool-cases (is_interrupted (K.ioctl s.fd r s.world).0)) [
          | inl q ↦
              rw (q, attempts)
                (On-map (λ _ u. Quiet t u) (λ _ u. Quiet s u) (λ u. Quiet t u) (λ u. Quiet s u)
                  (attempts K n r t) (attempts-Quiet n r t e) (λ _ u q. q ∙ same) (λ u q. q ∙ same))
          | inr q ↦ rw (q, attempts) same
        ]

    module _ (fuel : ℕ) where
      xioctl-IsQuiet : (r : Request) → moves_frames r ≡ 0 → IsQuiet (xioctl K fuel r)
      unfolding xioctl
      xioctl-IsQuiet r e = quietly (λ s. attempts-Quiet fuel r s e)

      or_exit-IsQuiet : {A : Type 0} (reply : Reply A) → IsQuiet (or_exit K fuel reply)
      unfolding or_exit
      or_exit-IsQuiet (failed e) = quietly (λ s. refl)
      or_exit-IsQuiet (done r a) = quietly (λ s. refl)

      require-IsQuiet : (r : Request) → moves_frames r ≡ 0 → IsQuiet (require K fuel r)
      unfolding require
      require-IsQuiet r e = xioctl-IsQuiet r e then_quiet or_exit-IsQuiet

      not_null-IsQuiet : (p : Option ℕ) → IsQuiet (not_null K fuel p)
      unfolding not_null
      not_null-IsQuiet none = quietly (λ s. refl)
      not_null-IsQuiet (some a) =
          quietly (λ s. omega (arith, captures-append s.calls (Call.malloc a ∷ [])))

      malloc-IsQuiet : (size : ℕ) → IsQuiet (malloc K fuel size)
      unfolding malloc
      malloc-IsQuiet size = quietly (λ s.
          let (p, w) = K.allocate size s.world in
          (not_null-IsQuiet p).stays (record s { world = w }))

      calloc-IsQuiet : (n : ℕ) → IsQuiet (calloc K fuel n)
      unfolding calloc
      calloc-IsQuiet n = malloc-IsQuiet (n * 8) then_quiet (λ a. quietly (λ s. refl))

      init_read-IsQuiet : (size : ℕ) → IsQuiet (init_read K fuel size)
      unfolding init_read
      init_read-IsQuiet size =
          calloc-IsQuiet 1
          then_quiet (λ _. malloc-IsQuiet size then_quiet (λ a. quietly (λ s. refl)))

      mapped_at-IsQuiet : (len : ℕ) (p : Option ℕ) → IsQuiet (mapped_at K fuel len p)
      unfolding mapped_at add_buffer
      mapped_at-IsQuiet len none = quietly (λ s. refl)
      mapped_at-IsQuiet len (some a) = quietly (λ s.
          omega
            (arith, captures-append s.calls (Call.mmap (record { start = a; length = len }) ∷ [])))

      map_buffers-IsQuiet : (n : ℕ) → IsQuiet (map_buffers K fuel n)
      unfolding map_buffers
      map_buffers-IsQuiet zero = quietly (λ s. refl)
      map_buffers-IsQuiet (suc n) = quietly (λ s.
          (require-IsQuiet (querybuf (record (clear mapped) { index = s.n_buffers })) refl
              then_quiet (λ buf. quietly (λ t.
                  let (a, w) = K.map_memory buf.length buf.offset t.world in
                  (mapped_at-IsQuiet buf.length a then_quiet (λ _. map_buffers-IsQuiet n)).stays
                    (record t { world = w })))).stays
            s)

      init_mmap-IsQuiet : IsQuiet (init_mmap K fuel)
      unfolding init_mmap
      init_mmap-IsQuiet = require-IsQuiet (reqbufs mapped 4) refl then_quiet (λ count.
          elim (Bool-cases (ltb count 2)) [
            | inl q ↦ rw q (quietly (λ s. refl))
            | inr q ↦ rw q (
                calloc-IsQuiet count then_quiet (λ _.
                  quietly (λ s. (map_buffers-IsQuiet count).stays (record s { n_buffers = 0 }))))
          ])

      allocate_buffers-IsQuiet : (n size : ℕ) → IsQuiet (allocate_buffers K fuel n size)
      unfolding allocate_buffers add_buffer
      allocate_buffers-IsQuiet zero size = quietly (λ s. refl)
      allocate_buffers-IsQuiet (suc n) size = malloc-IsQuiet size then_quiet (λ a. quietly (λ s.
          (allocate_buffers-IsQuiet n size).stays (record s {
            buffers = set_buffer s.n_buffers (record { start = a; length = size }) s.buffers;
            n_buffers = suc s.n_buffers;
          })))

      init_userp-IsQuiet : (size : ℕ) → IsQuiet (init_userp K fuel size)
      unfolding init_userp
      init_userp-IsQuiet size = require-IsQuiet (reqbufs user 4) refl then_quiet (λ _.
          calloc-IsQuiet 4 then_quiet (λ _.
            quietly (λ s. (allocate_buffers-IsQuiet 4 size).stays (record s { n_buffers = 0 }))))

      init_by-IsQuiet : (io : IoMethod) (size : ℕ) → IsQuiet (init_by K fuel io size)
      unfolding init_by
      init_by-IsQuiet read size = init_read-IsQuiet size
      init_by-IsQuiet mmap size = init_mmap-IsQuiet
      init_by-IsQuiet userptr size = init_userp-IsQuiet size

      check_capabilities-IsQuiet : IsQuiet (check_capabilities K fuel)
      unfolding check_capabilities
      check_capabilities-IsQuiet =
          require-IsQuiet querycap refl then_quiet (λ caps. quietly (λ s. ground arith))

      reset_crop-IsQuiet : (reply : Reply Rect) → IsQuiet (reset_crop K fuel reply)
      unfolding reset_crop
      reset_crop-IsQuiet (failed e) = quietly (λ s. refl)
      reset_crop-IsQuiet (done zero r) =
          xioctl-IsQuiet (s_crop r) refl then_quiet (λ _. quietly (λ s. refl))
      reset_crop-IsQuiet (done (suc n) r) = quietly (λ s. refl)

      choose_format-IsQuiet : (force : ℕ) → IsQuiet (choose_format K fuel force)
      unfolding choose_format
      choose_format-IsQuiet zero = require-IsQuiet g_fmt refl
      choose_format-IsQuiet (suc n) =
          require-IsQuiet (s_fmt (record { width = 640; height = 480 })) refl

      pub init_device-IsQuiet : IsQuiet (init_device K fuel)
      unfolding init_device
      init_device-IsQuiet = check_capabilities-IsQuiet then_quiet (λ _.
          xioctl-IsQuiet cropcap refl then_quiet (λ reply. reset_crop-IsQuiet reply then_quiet (λ _.
            quietly (λ s.
              (choose_format-IsQuiet s.force_format
                  then_quiet (λ size. init_by-IsQuiet s.io size)).stays
                s))))

      opened-IsQuiet : (p : Option ℕ) → IsQuiet (opened K fuel p)
      unfolding opened
      opened-IsQuiet none = quietly (λ s. refl)
      opened-IsQuiet (some n) =
          quietly (λ s. omega (arith, captures-append s.calls (Call.open_file n ∷ [])))

      identified-IsQuiet : (p : Option Bool) → IsQuiet (identified K fuel p)
      unfolding identified
      identified-IsQuiet none = quietly (λ s. refl)
      identified-IsQuiet (some false) = quietly (λ s. refl)
      identified-IsQuiet (some true) = quietly (λ s.
          let (p, w) = K.open_file s.dev_name s.world in
          (opened-IsQuiet p).stays (record s { world = w }))

      pub open_device-IsQuiet : IsQuiet (open_device K fuel)
      unfolding open_device
      open_device-IsQuiet = quietly (λ s.
          let (p, w) = K.stat_is_chr s.dev_name s.world in
          (identified-IsQuiet p).stays (record s { world = w }))
