-- ===== src/Grabber/Balance.antt =====
-- lkml/v4l2-app/grabber.c: the memory that each way of set-up has obtained when it returns.
use bbblack.Base.{
  ℕ, ◌*◌, ◌≤◌, ◌<◌, ◌≡◌, refl, ◌∙◌, false, [], ◌∷◌, ◌++◌, arith, append_assoc, map, replicate,
  length, length-replicate, ltb,
}
use bbblack.Grabber.Types.{
  IoMethod, read, mmap, userptr, reqbufs, mapped, user, Buffer, Kernel, Call, Env,
}
use bbblack.Grabber.Frames.{require}
use bbblack.Grabber.Setup.{
  zero_buffer, malloc, not_null, calloc, init_read, map_buffers, init_mmap, allocate_buffers,
  init_userp, init_by,
}
use bbblack.Base.Run.{On, On-map, On-and_then}
use bbblack.Grabber.Retry.{Interrupts}
use bbblack.Grabber.Memory.{
  memory, memory-append, Provides, Required, Filled, require-Required, map_buffers-Filled,
  allocate_buffers-Filled,
}

-- What is obtained for each buffer, and how it is given back
abbrev pub obtain : IoMethod → Buffer → Call
obtain mmap b = Call.mmap b
obtain _ b = Call.malloc b.start

abbrev pub give_back : IoMethod → Buffer → Call
give_back mmap b = Call.munmap b
give_back _ b = Call.free b.start

module _ {W : Type 0} (K : Kernel W) (patience : W → ℕ) (I : Interrupts K patience)
    (P : Provides K patience) (fuel : ℕ) where
  -- `n_buffers` counts the buffers of the two methods that stream.
  abbrev pub Counted : IoMethod → Env W → Type 0
  Counted read t = length t.buffers ≡ 1
  Counted _ t = t.n_buffers ≡ length t.buffers

  -- The array and its buffers were obtained, and nothing else.
  abbrev pub Obtained : IoMethod → Env W → Env W → Type 0
  Obtained io s t =
      (t.io ≡ s.io)
      × (memory t.calls ≡ memory s.calls ++ (Call.malloc t.array_addr ∷ map (obtain io) t.buffers))
      × Counted io t

  init_read-Obtained :
      (size : ℕ) (s : Env W) → On (λ _ t. Obtained read s t) (λ _. ⊥) (init_read K fuel size s)
  unfolding init_read calloc malloc not_null
  init_read-Obtained size s =
      let (a, v, got, le) = P.allocate 8 s.world in
      let (b, w, got', le') = P.allocate size v in
      rw (got, got')
        (
          refl,
          rw (memory-append, memory-append)
              (append_assoc (memory s.calls) (Call.malloc a ∷ []) (Call.malloc b ∷ [])),
          refl,
        )

  -- From the array that was obtained at `u` to the buffers in it
  Filled-Obtained :
      (io : IoMethod) (s u t : Env W)
      → u.io ≡ s.io
      → memory u.calls ≡ memory s.calls ++ (Call.malloc u.array_addr ∷ [])
      → Filled K patience I P fuel (obtain io) [] u t
      → (t.io ≡ s.io)
        × (memory t.calls
            ≡ memory s.calls ++ (Call.malloc t.array_addr ∷ map (obtain io) t.buffers))
        × (t.n_buffers ≡ length t.buffers)
  Filled-Obtained io s u t e mem (new, bufs, count, e', arr, mem', le) = (
    e' ∙ e,
    rw (arr, bufs)
        (mem'
          ∙ rw mem (
              append_assoc (memory s.calls) (Call.malloc u.array_addr ∷ []) (map (obtain io) new))),
    count,
  )

  init_userp-Obtained :
      (size : ℕ) (s : Env W)
      → patience s.world < fuel
      → On (λ _ t. Obtained userptr s t) (λ _. ⊥) (init_userp K fuel size s)
  unfolding init_userp calloc malloc not_null
  init_userp-Obtained size s lt =
      On-and_then (Required K patience I P fuel (reqbufs user 4) s) (λ _ t. Obtained userptr s t)
        (λ _. ⊥) (require K fuel (reqbufs user 4) s) _
        (require-Required K patience I P fuel (reqbufs user 4) s tt lt)
        (λ count t ((io, bufs, arr, cnt, mem, _, le), _).
          let (a, v, got, le') = P.allocate 32 t.world in
          let u : Env W = record t {
            world = v;
            calls = t.calls ++ (Call.malloc a ∷ []);
            buffers = replicate 4 zero_buffer;
            array_addr = a;
            n_buffers = 0;
          } in
          rw got (
            On-map (λ _ w. Filled K patience I P fuel (obtain userptr) [] u w)
              (λ _ w. Obtained userptr s w) (λ _. ⊥) (λ _. ⊥) (allocate_buffers K fuel 4 size u)
              (allocate_buffers-Filled K patience I P fuel 4 size [] (replicate 4 zero_buffer) u
                refl refl refl)
              (λ _ w h.
                Filled-Obtained userptr s u w io
                  (memory-append t.calls (Call.malloc a ∷ []) ∙ rw mem refl) h)
              (λ w h. h)))

  init_mmap-Obtained :
      (s : Env W)
      → patience s.world < fuel
      → On (λ _ t. Obtained mmap s t) (λ _. ⊥) (init_mmap K fuel s)
  unfolding init_mmap calloc malloc not_null
  init_mmap-Obtained s lt =
      On-and_then (Required K patience I P fuel (reqbufs mapped 4) s) (λ _ t. Obtained mmap s t)
        (λ _. ⊥) (require K fuel (reqbufs mapped 4) s) _
        (require-Required K patience I P fuel (reqbufs mapped 4) s tt lt)
        (λ count t ((io, bufs, arr, cnt, mem, _, le), (w0, ret, q)).
          let two : 2 ≤ count = P.enough s.fd w0 ret count q in
          let go : ltb count 2 ≡ false = ground arith in
          let (a, v, got, le') = P.allocate (count * 8) t.world in
          let u : Env W = record t {
            world = v;
            calls = t.calls ++ (Call.malloc a ∷ []);
            buffers = replicate count zero_buffer;
            array_addr = a;
            n_buffers = 0;
          } in
          rw (go, got)
            (On-map (λ _ w. Filled K patience I P fuel (obtain mmap) [] u w)
              (λ _ w. Obtained mmap s w) (λ _. ⊥) (λ _. ⊥) (map_buffers K fuel count u)
              (map_buffers-Filled K patience I P fuel count [] (replicate count zero_buffer) u refl
                refl (length-replicate count zero_buffer) (omega arith))
              (λ _ w h.
                Filled-Obtained mmap s u w io
                  (memory-append t.calls (Call.malloc a ∷ []) ∙ rw mem refl) h)
              (λ w h. h)))

  pub init_by-Obtained :
      (io : IoMethod) (size : ℕ) (s : Env W)
      → patience s.world < fuel
      → On (λ _ t. Obtained io s t) (λ _. ⊥) (init_by K fuel io size s)
  unfolding init_by
  init_by-Obtained read size s lt = init_read-Obtained size s
  init_by-Obtained mmap size s lt = init_mmap-Obtained s lt
  init_by-Obtained userptr size s lt = init_userp-Obtained size s lt
