-- ===== src/Grabber/Sized.antt =====
-- lkml/v4l2-app/grabber.c: the size of the buffers that the program allocates.
use bbblack.Base.{
  ℕ, zero, suc, ◌*◌, ◌≡◌, refl, none, some, Option, List, [], ◌∷◌, ◌++◌, arith, append-nil, length,
  length-append, replicate, All, All-append,
}
use bbblack.Base.Run.{On, On-any, and_then, Triple, runs_by, ◌then_runs◌}
use bbblack.Grabber.Types.{
  IoMethod, read, mmap, userptr, reqbufs, user, Buffer, Kernel, Call, Env, Prog,
}
use bbblack.Grabber.Frames.{require}
use bbblack.Grabber.Setup.{
  set_buffer, zero_buffer, not_null, malloc, calloc, add_buffer, allocate_buffers, init_read,
  init_mmap, init_userp, init_by,
}
use bbblack.Grabber.Memory.{set_buffer-append}

abbrev pub AllSized : ℕ → List Buffer → Type 0
AllSized size = All (λ b. b.length ≡ size)

-- What the set-up of the buffers leaves, if it returns: those that the program allocates have the size.
abbrev pub Sized : {W : Type 0} → IoMethod → ℕ → Env W → Type 0
Sized mmap size t = Unit
Sized _ size t = All (λ b. b.length ≡ size) t.buffers

module _ {W : Type 0} (K : Kernel W) (fuel : ℕ) where
  not_null-On :
      {B : Type 0} (Q : B → Env W → Type 0) (k : ℕ → Prog W B) (p : Option ℕ) (s : Env W)
      → ((a : ℕ) → On Q (λ _. Unit) (k a (record s { calls = s.calls ++ (Call.malloc a ∷ []) })))
      → On Q (λ _. Unit) (and_then (not_null K fuel p s) k)
  unfolding not_null
  not_null-On Q k none s h = tt
  not_null-On Q k (some a) s h = h a

  allocated :
      (n size : ℕ) (pre rest : List Buffer) (s : Env W)
      → s.buffers ≡ pre ++ rest
      → s.n_buffers ≡ length pre
      → length rest ≡ n
      → AllSized size pre
      → On (λ _ t. AllSized size t.buffers) (λ _. Unit) (allocate_buffers K fuel n size s)
  unfolding allocate_buffers malloc add_buffer
  allocated zero size pre [] s e c len h = rw (e, append-nil pre) h
  allocated zero size pre (x ∷ rest) s e c len h = absurd (omega arith)
  allocated (suc n) size pre [] s e c len h = absurd (omega arith)
  allocated (suc n) size pre (x ∷ rest) s e c len h =
      not_null-On (λ _ t. AllSized size t.buffers) _ (K.allocate size s.world).0
        (record s { world = (K.allocate size s.world).1 })
        (λ a.
          let b : Buffer = record { start = a; length = size } in
          let set : set_buffer s.n_buffers b s.buffers ≡ (pre ++ (b ∷ [])) ++ rest =
            rw (e, c) (set_buffer-append pre rest x b) in
          allocated n size (pre ++ (b ∷ [])) rest _ set
            (omega (arith, c, length-append pre (b ∷ []))) (omega arith)
            (All-append (λ b. b.length ≡ size) pre (b ∷ []) h (refl, tt)))

  malloc_keep :
      (P : List Buffer → Type 0) (size : ℕ)
      → Triple (λ s. P s.buffers) (malloc K fuel size) (λ _ t. P t.buffers) (λ _. Unit)
  unfolding malloc
  malloc_keep P size = runs_by λ s p.
      not_null_keep (K.allocate size s.world).0 (record s { world = (K.allocate size s.world).1 }) p
    where
      not_null_keep :
          (a : Option ℕ) (s : Env W)
          → P s.buffers
          → On (λ _ t. P t.buffers) (λ _. Unit) (not_null K fuel a s)
      not_null_keep none s p = tt
      not_null_keep (some a) s p = p

  calloc_lem :
      (n : ℕ)
      → Triple
          (λ _. Unit)
          (calloc K fuel n)
          (λ _ t. t.buffers ≡ replicate n zero_buffer)
          (λ _. Unit)
  unfolding calloc
  calloc_lem n = malloc_keep (λ _. Unit) (n * 8) then_runs (λ a. runs_by (λ s p. refl))

  init_read-Sized :
      (size : ℕ) → Triple (λ _. Unit) (init_read K fuel size) (λ _. Sized read size) (λ _. Unit)
  unfolding init_read
  init_read-Sized size = calloc_lem 1 then_runs (λ _.
      malloc_keep (λ bs. bs ≡ replicate 1 zero_buffer) size
      then_runs (λ a. runs_by (λ s e. rw e (refl, tt))))

  init_userp-Sized :
      (size : ℕ) → Triple (λ _. Unit) (init_userp K fuel size) (λ _. Sized userptr size) (λ _. Unit)
  unfolding init_userp
  init_userp-Sized size =
      runs_by (λ s _. On-any (require K fuel (reqbufs user 4) s)) then_runs (λ _.
        calloc_lem 4 then_runs (λ _. runs_by (λ s e.
          allocated 4 size [] (replicate 4 zero_buffer) (record s { n_buffers = 0 }) e refl refl
            tt)))

  pub init_by-Sized :
      (io : IoMethod) (size : ℕ)
      → Triple (λ _. Unit) (init_by K fuel io size) (λ _. Sized io size) (λ _. Unit)
  unfolding init_by
  init_by-Sized mmap size = runs_by (λ s _. On-any (init_mmap K fuel s))
  init_by-Sized read size = init_read-Sized size
  init_by-Sized userptr size = init_userp-Sized size
