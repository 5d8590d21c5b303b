-- ===== src/Grabber/Retry.antt =====
-- lkml/v4l2-app/grabber.c: the retry loop of `xioctl`.
use bbblack.Base.{
  ℕ, zero, suc, ◌≤◌, ◌<◌, ◌≡◌, refl, true, false, inl, inr, Bool-cases, [], ◌∷◌, ◌++◌, arith,
  replicate, append_assoc,
}
use bbblack.Base.Int.{ℤ}
use bbblack.Grabber.Types.{Request, Out, Reply, is_interrupted, Kernel, Call, Env}
use bbblack.Grabber.Frames.{attempts, xioctl}
use bbblack.Base.Run.{On, On-map}

module _ {W : Type 0} (K : Kernel W) (patience : W → ℕ) where
  -- Signals arrive finitely often: an interrupted request leaves less `patience`, no request leaves
  -- more.
  pub record Interrupts : Type 0 where
    pub request : (fd : ℤ) (r : Request) (w : W) → patience (K.ioctl fd r w).1 ≤ patience w
    pub interrupted :
        (fd : ℤ) (r : Request) (w : W)
        → is_interrupted (K.ioctl fd r w).0 ≡ true
        → patience (K.ioctl fd r w).1 < patience w

  -- What `xioctl` has done when it returns: it asked one or more times, the reply is the last one and
  -- is no interruption, and no global is changed.
  abbrev pub Answered : (r : Request) → Env W → Reply (Out r) → Env W → Type 0
  Answered r s reply t =
      (is_interrupted reply ≡ false)
      × (patience t.world ≤ patience s.world)
      × ((n : ℕ) × (w : W) × ((K.ioctl s.fd r w).0 ≡ reply)
          × (t ≡ record s {
            world = (K.ioctl s.fd r w).1;
            calls = s.calls ++ replicate (suc n) (Call.ioctl r);
          }))

  attempts_lem :
      Interrupts
      → (n : ℕ) (r : Request) (s : Env W) → patience s.world < n
      → On (Answered r s) (λ _. ⊥) (attempts K n r s)
  unfolding attempts
  attempts_lem I zero r s h = absurd (omega arith)
  attempts_lem I (suc n) r s h =
      let t : Env W = record s {
        world = (K.ioctl s.fd r s.world).1;
        calls = s.calls ++ (Call.ioctl r ∷ []);
      } in
      elim (Bool-cases (is_interrupted (K.ioctl s.fd r s.world).0)) [
        | inl q ↦
            let less = I.interrupted s.fd r s.world q in
            rw (q, attempts)
              (On-map (Answered r t) (Answered r s) (λ _. ⊥) (λ _. ⊥) (attempts K n r t)
                (attempts_lem I n r t (omega arith))
                (λ reply u (settled, le, (k, w, e, u')).
                  (settled, omega arith, (suc k, w, e, rw u' (rw append_assoc refl))))
                (λ u e. e))
        | inr q ↦ rw (q, attempts) (q, I.request s.fd r s.world, (0, s.world, refl, refl))
      ]

  -- `xioctl` returns, if the kernel's patience, which every interruption reduces, is less than the
  -- fuel. It has made the request one or more times in a row, and nothing else; its value is the
  -- kernel's last reply, which is no interruption; and no global is changed.
  pub xioctl_lem :
      (fuel : ℕ) (r : Request) (s : Env W)
      → Interrupts
      → patience s.world < fuel
      → On (Answered r s) (λ _. ⊥) (xioctl K fuel r s)
  unfolding xioctl
  xioctl_lem fuel r s I h = attempts_lem I fuel r s h
