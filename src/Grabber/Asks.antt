-- ===== src/Grabber/Asks.antt =====
-- lkml/v4l2-app/grabber.c: what holds after a request that is repeated while it is interrupted.
use bbblack.Base.{ℕ, zero, suc, ◌≡◌, true, inl, inr, Bool-cases, [], ◌∷◌, ◌++◌, ==_iff}
use bbblack.Base.Run.{On, On-and_then}
use bbblack.Grabber.Types.{
  Request, Out, Reply, failed, done, is_interrupted, Kernel, eintr, Call, Env,
}
use bbblack.Grabber.Frames.{attempts, xioctl, require, or_exit}

module _ {W : Type 0} where
  -- After a reply: a request that failed leaves `P`, another leads to `Good`.
  abbrev pub After :
      {A : Type 0} → (Env W → Type 0) → (A → Env W → Type 0) → Reply A → Env W → Type 0
  After P Good (failed e) t = P t
  After P Good (done r a) t = Good a t

  -- After a reply: an interrupted request leaves `P`, one that failed `Ends`, another leads to `Good`.
  abbrev pub Retries :
      {A : Type 0}
      → (Env W → Type 0)
      → (Env W → Type 0)
      → (A → Env W → Type 0)
      → Reply A
      → Env W
      → Type 0
  Retries P Ends Good (failed e) t = (e ≡ eintr → P t) × Ends t
  Retries P Ends Good (done r a) t = Good a t

  abbrev pub calling : Call → W → Env W → Env W
  calling c w s = record s { world = w; calls = s.calls ++ (c ∷ []) }

  abbrev pub recording : Call → Env W → Env W
  recording c s = record s { calls = s.calls ++ (c ∷ []) }

  module _ (K : Kernel W) where
    -- One round of the loop of `xioctl`
    abbrev pub asked : (r : Request) → Env W → Reply (Out r) × Env W
    asked r s = let (reply, w) = K.ioctl s.fd r s.world in (reply, calling (Call.ioctl r) w s)

    interrupted :
        {A : Type 0} (P Ends : Env W → Type 0) (Good : A → Env W → Type 0) (reply : Reply A)
        (t : Env W)
        → is_interrupted reply ≡ true
        → Retries P Ends Good reply t
        → P t
    interrupted P Ends Good (failed e) t q (again, ends) = again ((==_iff e eintr).0 q)
    interrupted P Ends Good (done r a) t q p = cc

    settled :
        {A : Type 0} (P Ends : Env W → Type 0) (Good : A → Env W → Type 0) (reply : Reply A)
        (t : Env W)
        → Retries P Ends Good reply t
        → After Ends Good reply t
    settled P Ends Good (failed e) t (again, ends) = ends
    settled P Ends Good (done r a) t p = p

    attempts_ind :
        (n : ℕ) (r : Request) (P Ends : Env W → Type 0) (Good : Out r → Env W → Type 0)
        → ((s : Env W) → P s → Ends s)
        → ((s : Env W) → P s → Retries P Ends Good (asked r s).0 (asked r s).1)
        → (s : Env W) → P s
        → On (After Ends Good) Ends (attempts K n r s)
    unfolding attempts
    attempts_ind zero r P Ends Good ends step s p = ends s p
    attempts_ind (suc n) r P Ends Good ends step s p =
        let (reply, t) = asked r s in
        elim (Bool-cases (is_interrupted reply)) [
          | inl q ↦
              rw (q, attempts)
                (attempts_ind n r P Ends Good ends step t
                  (interrupted P Ends Good reply t q (step s p)))
          | inr q ↦ rw (q, attempts) (settled P Ends Good reply t (step s p))
        ]

    Retries-After :
        {A : Type 0} (P Ends : Env W → Type 0) (Good : A → Env W → Type 0) (reply : Reply A)
        (t : Env W)
        → ((u : Env W) → P u → Ends u)
        → After P Good reply t
        → Retries P Ends Good reply t
    Retries-After P Ends Good (failed e) t ends p = (λ _. p, ends t p)
    Retries-After P Ends Good (done r a) t ends p = p

    -- Where every reply that fails keeps `P`
    pub attempts_keep :
        (n : ℕ) (r : Request) (P : Env W → Type 0) (Good : Out r → Env W → Type 0)
        → ((s : Env W) → P s → After P Good (asked r s).0 (asked r s).1)
        → (s : Env W) → P s
        → On (After P Good) P (attempts K n r s)
    attempts_keep n r P Good step =
        attempts_ind n r P P Good (λ s p. p)
          (λ s p. Retries-After P P Good (asked r s).0 (asked r s).1 (λ u p. p) (step s p))

    or_exit_ind :
        {A : Type 0} (fuel : ℕ) (Good : A → Env W → Type 0) (Ends : Env W → Type 0)
        (reply : Reply A) (t : Env W)
        → After Ends Good reply t
        → On Good Ends (or_exit K fuel reply t)
    unfolding or_exit
    or_exit_ind fuel Good Ends (failed e) t h = h
    or_exit_ind fuel Good Ends (done r a) t h = h

    pub require_ind :
        (fuel : ℕ) (r : Request) (P Ends : Env W → Type 0) (Good : Out r → Env W → Type 0)
        → ((s : Env W) → P s → Ends s)
        → ((s : Env W) → P s → Retries P Ends Good (asked r s).0 (asked r s).1)
        → (s : Env W) → P s
        → On Good Ends (require K fuel r s)
    unfolding require xioctl
    require_ind fuel r P Ends Good ends step s p =
        On-and_then (After Ends Good) Good Ends (attempts K fuel r s) (or_exit K fuel)
          (attempts_ind fuel r P Ends Good ends step s p) (or_exit_ind fuel Good Ends)

    pub require_keep :
        (fuel : ℕ) (r : Request) (P Ends : Env W → Type 0) (Good : Out r → Env W → Type 0)
        → ((s : Env W) → P s → Ends s)
        → ((s : Env W) → P s → After P Good (asked r s).0 (asked r s).1)
        → (s : Env W) → P s
        → On Good Ends (require K fuel r s)
    require_keep fuel r P Ends Good ends step =
        require_ind fuel r P Ends Good ends
          λ s p. Retries-After P Ends Good (asked r s).0 (asked r s).1 ends (step s p)
