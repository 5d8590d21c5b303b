-- ===== src/Grabber/Takes.antt =====
-- lkml/v4l2-app/grabber.c: counting the frames that a part of the program takes.
use bbblack.Base.{
  ℕ, zero, suc, ◌+◌, ◌≤◌, ◌≡◌, refl, inl, inr, Bool-cases, List, [], ◌∷◌, ◌++◌, arith, ◌==◌,
  if◌then◌else◌,
}
use bbblack.Grabber.Types.{Request, is_interrupted, Kernel, Call, Env, Outcome, Prog, and_then}
use bbblack.Grabber.Frames.{attempts}
use bbblack.Base.Run.{On, On-map, On-and_then}

-- The frames processed
abbrev pub images : List Call → ℕ
images [] = 0
images (Call.process_image a n ∷ cs) = suc (images cs)
images (_ ∷ cs) = images cs

pub images-append : (cs ds : List Call) → images (cs ++ ds) ≡ images cs + images ds
images-append [] ds = omega arith
images-append (Call.process_image a n ∷ cs) ds = omega (arith, images-append cs ds)
images-append (Call.ioctl r ∷ cs) ds = images-append cs ds
images-append (Call.read ∷ cs) ds = images-append cs ds
images-append (Call.select ∷ cs) ds = images-append cs ds
images-append (Call.mmap b ∷ cs) ds = images-append cs ds
images-append (Call.munmap b ∷ cs) ds = images-append cs ds
images-append (Call.malloc b ∷ cs) ds = images-append cs ds
images-append (Call.free b ∷ cs) ds = images-append cs ds
images-append (Call.open_file b ∷ cs) ds = images-append cs ds
images-append (Call.close b ∷ cs) ds = images-append cs ds

-- The frames that `read_frame` took, by its value
abbrev pub taken : ℕ → ℕ
taken got = if got == 0 then 0 else 1

module _ {W : Type 0} (K : Kernel W) where
  -- The part takes `k` frames if it returns, and no more than `most` in any case.
  abbrev pub Takes : {A : Type 0} → (A → ℕ) → ℕ → Env W → Outcome A × Env W → Type 0
  Takes k most s =
      On (λ a t. images t.calls ≡ images s.calls + k a)
        (λ t. images t.calls ≤ images s.calls + most)

  -- From another state, with `i` frames more
  pub Takes-from :
      {A : Type 0} (i : ℕ) (k l : A → ℕ) (most : ℕ) (s t : Env W) (p : Outcome A × Env W)
      → ((a : A) → l a ≡ i + k a)
      → images t.calls ≡ images s.calls + i
      → Takes k most t p
      → Takes l (i + most) s p
  Takes-from i k l most s t p more e h =
      On-map (λ a u. images u.calls ≡ images t.calls + k a)
        (λ a u. images u.calls ≡ images s.calls + l a) (λ u. images u.calls ≤ images t.calls + most)
        (λ u. images u.calls ≤ images s.calls + (i + most)) p h (λ b u e'. omega (arith, more b))
        (λ u e'. omega arith)

  pub attempts-Takes : (n : ℕ) (r : Request) (s : Env W) → Takes (λ _. 0) 0 s (attempts K n r s)
  unfolding attempts
  attempts-Takes zero r s = omega arith
  attempts-Takes (suc n) r s =
      let t : Env W = record s {
        world = (K.ioctl s.fd r s.world).1;
        calls = s.calls ++ (Call.ioctl r ∷ []);
      } in
      let same : images t.calls ≡ images s.calls =
        omega (arith, images-append s.calls (Call.ioctl r ∷ [])) in
      elim (Bool-cases (is_interrupted (K.ioctl s.fd r s.world).0)) [
        | inl q ↦
            rw (q, attempts)
              (Takes-from 0 (λ _. 0) (λ _. 0) 0 s t (attempts K n r t) (λ _. refl) (omega arith)
                (attempts-Takes n r t))
        | inr q ↦ rw (q, attempts) (omega arith)
      ]

  -- A part that takes `i` frames, and another
  pub Takes-and_then :
      {A B : Type 0} (i : ℕ) (k l : B → ℕ) (most : ℕ) (s : Env W) (p : Outcome A × Env W)
      (f : A → Prog W B)
      → ((b : B) → l b ≡ i + k b)
      → Takes (λ _. i) i s p
      → ((a : A) (t : Env W) → Takes k most t (f a t))
      → Takes l (i + most) s (and_then p f)
  Takes-and_then i k l most s p f more h g =
      On-and_then (λ _ t. images t.calls ≡ images s.calls + i)
        (λ b t. images t.calls ≡ images s.calls + l b)
        (λ t. images t.calls ≤ images s.calls + (i + most)) p f
        (On-map (λ _ t. images t.calls ≡ images s.calls + i)
          (λ _ t. images t.calls ≡ images s.calls + i) (λ t. images t.calls ≤ images s.calls + i)
          (λ t. images t.calls ≤ images s.calls + (i + most)) p h (λ a t e. e) (λ t e. omega arith))
        (λ a t e. Takes-from i k l most s t (f a t) more e (g a t))
