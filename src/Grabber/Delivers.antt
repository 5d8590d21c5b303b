-- ===== src/Grabber/Delivers.antt =====
-- lkml/v4l2-app/grabber.c: a device that delivers frames, and the requests made of it.
use bbblack.Base.{
  ℕ, zero, suc, ◌≤◌, ◌<◌, ◌≡◌, ◌≢◌, refl, ◌∙◌, ◌⊎◌, true, false, inl, inr, Bool-cases, none, List,
  [], ◌∷◌, ◌++◌, arith, get_elem?, length,
}
use bbblack.Base.Int.{ℤ}
use bbblack.Grabber.Types.{
  mmap, Request, qbuf, dqbuf, clear, mapped, V4l2Buffer, Out, Reply, failed, done, is_interrupted,
  Kernel, Call, Env, eagain, eintr,
}
use bbblack.Grabber.Frames.{attempts}
use bbblack.Base.Run.{On, On-map}

module _ {W : Type 0} (patience : W → ℕ) where
  -- What a reply may be: a failure with an error that `E` allows costs patience, and no reply gives any.
  abbrev pub Serves : {A : Type 0} → (ℕ → Type 0) → (ℕ → A → Type 0) → W → Reply A × W → Type 0
  Serves E Good w (failed e, v) = E e × (patience v < patience w)
  Serves E Good w (done r a, v) = Good r a × (patience v ≤ patience w)

  -- A device with `n` mapped buffers that delivers frames. A call is interrupted, or finds no frame
  -- yet, finitely often, no call fails otherwise, `select` is never out of time, and a buffer that is
  -- taken is one of the `n`.
  pub record Delivers (K : Kernel W) (n : ℕ) : Type 0 where
    pub select : (fd : ℤ) (w : W) → Serves (λ e. e ≡ eintr) (λ r _. r ≢ 0) w (K.select fd w)
    pub dequeue :
        (fd : ℤ) (w : W)
        → Serves
            (λ e. (e ≡ eintr) ⊎ (e ≡ eagain))
            (λ r (buf : V4l2Buffer). buf.index < n)
            w
            (K.ioctl fd (dqbuf (clear mapped)) w)
    pub requeue :
        (fd : ℤ) (buf : V4l2Buffer) (w : W)
        → Serves (λ e. (e ≡ eintr) ⊎ ⊥) (λ _ _. Unit) w (K.ioctl fd (qbuf buf) w)

  -- The globals that `read_frame` reads
  abbrev pub Same : Env W → Env W → Type 0
  Same s t = (t.io ≡ s.io) × (t.n_buffers ≡ s.n_buffers) × (t.buffers ≡ s.buffers)

  interrupted-less :
      {A : Type 0} (E : ℕ → Type 0) (Good : ℕ → A → Type 0) (w : W) (p : Reply A × W)
      → is_interrupted p.0 ≡ true
      → Serves E Good w p
      → patience p.1 < patience w
  interrupted-less E Good w (failed e, v) q (h, less) = less
  interrupted-less E Good w (done r a, v) q h = cc

  settled :
      {A : Type 0} (E : ℕ → Type 0) (Good : ℕ → A → Type 0) (w : W) (p : Reply A × W)
      → is_interrupted p.0 ≡ false
      → Serves (λ e. (e ≡ eintr) ⊎ E e) Good w p
      → Serves E Good w p
  settled E Good w (failed e, v) q (inl h, less) = absurd (ground arith)
  settled E Good w (failed e, v) q (inr h, less) = (h, less)
  settled E Good w (done r a, v) q h = h

  Serves-mono :
      {A : Type 0} (E : ℕ → Type 0) (Good : ℕ → A → Type 0) (w w' : W) (p : Reply A × W)
      → patience w' ≤ patience w
      → Serves E Good w' p
      → Serves E Good w p
  Serves-mono E Good w w' (failed e, v) le (h, less) = (h, omega arith)
  Serves-mono E Good w w' (done r a, v) le (h, less) = (h, omega arith)

  module _ (K : Kernel W) where
    pub attempts-Serves :
        (n : ℕ) (r : Request) (E : ℕ → Type 0) (Good : ℕ → Out r → Type 0) (s : Env W)
        → ((w : W) → Serves (λ e. (e ≡ eintr) ⊎ E e) Good w (K.ioctl s.fd r w))
        → patience s.world < n
        → On
            (λ reply t. Same s t × Serves E Good s.world (reply, t.world))
            (λ _. ⊥)
            (attempts K n r s)
    unfolding attempts
    attempts-Serves zero r E Good s h lt = absurd (omega arith)
    attempts-Serves (suc n) r E Good s h lt =
        let t : Env W = record s {
          world = (K.ioctl s.fd r s.world).1;
          calls = s.calls ++ (Call.ioctl r ∷ []);
        } in
        elim (Bool-cases (is_interrupted (K.ioctl s.fd r s.world).0)) [
          | inl q ↦
              let less =
                interrupted-less (λ e. (e ≡ eintr) ⊎ E e) Good s.world (K.ioctl s.fd r s.world) q
                  (h s.world) in
              rw (q, attempts)
                (On-map (λ reply u. Same t u × Serves E Good t.world (reply, u.world))
                  (λ reply u. Same s u × Serves E Good s.world (reply, u.world)) (λ _. ⊥) (λ _. ⊥)
                  (attempts K n r t) (attempts-Serves n r E Good t h (omega arith))
                  (λ reply u (same, fine).
                    (same, Serves-mono E Good s.world t.world (reply, u.world) (omega arith) fine))
                  (λ u e. e))
          | inr q ↦
              rw (q, attempts)
                ((refl, refl, refl), settled E Good s.world (K.ioctl s.fd r s.world) q (h s.world))
        ]

  -- The state in which the stream runs
  abbrev pub Streams : ℕ → Env W → Type 0
  Streams n s = (s.io ≡ mmap) × (s.n_buffers ≡ n) × (length s.buffers ≡ n)

  pub Streams-Same : (n : ℕ) (s t : Env W) → Streams n s → Same s t → Streams n t
  Streams-Same n s t (io, count, len) (io', count', bufs) = (io' ∙ io, count' ∙ count, rw bufs len)

  pub get_elem?-lt : {A : Type 0} (xs : List A) (i : ℕ) → i < length xs → get_elem? xs i ≢ none
  get_elem?-lt [] i h e = absurd (omega arith)
  get_elem?-lt (x ∷ xs) zero h e = cc
  get_elem?-lt (x ∷ xs) (suc i) h e = get_elem?-lt xs i (omega arith) e
