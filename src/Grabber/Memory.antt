-- ===== src/Grabber/Memory.antt =====
-- lkml/v4l2-app/grabber.c: the memory that the three ways of set-up obtain, and that
-- `uninit_device` gives back.
use bbblack.Base.{
  ℕ, zero, suc, ◌≤◌, ◌<◌, ◌≡◌, refl, ◌∙◌, sym, ap, true, some, List, [], ◌∷◌, ◌++◌, arith,
  append_assoc, append-nil, map, replicate, get_elem?, length, length-append,
}
use bbblack.Base.Int.{ℤ}
use bbblack.Grabber.Types.{
  Request, cropcap, s_crop, s_fmt, reqbufs, querybuf, clear, mapped, Buffer, Out, Reply, failed,
  done, Kernel, Call, Env, eintr,
}
use bbblack.Grabber.Frames.{xioctl, require, or_exit}
use bbblack.Grabber.Setup.{
  set_buffer, malloc, not_null, add_buffer, mapped_at, map_buffers, allocate_buffers,
}
use bbblack.Base.Run.{On, On-map, On-and_then}
use bbblack.Grabber.Retry.{Interrupts, Answered, xioctl_lem}

-- The calls that obtain memory or give it back
abbrev pub memory : List Call → List Call
memory [] = []
memory (Call.mmap b ∷ cs) = Call.mmap b ∷ memory cs
memory (Call.munmap b ∷ cs) = Call.munmap b ∷ memory cs
memory (Call.malloc a ∷ cs) = Call.malloc a ∷ memory cs
memory (Call.free a ∷ cs) = Call.free a ∷ memory cs
memory (_ ∷ cs) = memory cs

pub memory-append : (cs ds : List Call) → memory (cs ++ ds) ≡ memory cs ++ memory ds
memory-append [] ds = refl
memory-append (Call.mmap b ∷ cs) ds = ap (λ l. Call.mmap b ∷ l) (memory-append cs ds)
memory-append (Call.munmap b ∷ cs) ds = ap (λ l. Call.munmap b ∷ l) (memory-append cs ds)
memory-append (Call.malloc b ∷ cs) ds = ap (λ l. Call.malloc b ∷ l) (memory-append cs ds)
memory-append (Call.free b ∷ cs) ds = ap (λ l. Call.free b ∷ l) (memory-append cs ds)
memory-append (Call.ioctl r ∷ cs) ds = memory-append cs ds
memory-append (Call.read ∷ cs) ds = memory-append cs ds
memory-append (Call.select ∷ cs) ds = memory-append cs ds
memory-append (Call.process_image a n ∷ cs) ds = memory-append cs ds
memory-append (Call.open_file n ∷ cs) ds = memory-append cs ds
memory-append (Call.close n ∷ cs) ds = memory-append cs ds

pub memory-replicate : (n : ℕ) (r : Request) → memory (replicate n (Call.ioctl r)) ≡ []
memory-replicate zero r = refl
memory-replicate (suc n) r = memory-replicate n r

pub set_buffer-append :
    (pre rest : List Buffer) (x b : Buffer)
    → set_buffer (length pre) b (pre ++ (x ∷ rest)) ≡ (pre ++ (b ∷ [])) ++ rest
set_buffer-append [] rest x b = refl
set_buffer-append (p ∷ pre) rest x b = ap (λ l. p ∷ l) (set_buffer-append pre rest x b)

pub get_elem?-append :
    (pre rest : List Buffer) (b : Buffer) → get_elem? (pre ++ (b ∷ rest)) (length pre) ≡ some b
get_elem?-append [] rest b = refl
get_elem?-append (p ∷ pre) rest b = get_elem?-append pre rest b

-- The requests that a set-up cannot do without; a device need not crop, or change its format.
abbrev pub IsNeeded : Request → Type 0
IsNeeded cropcap = ⊥
IsNeeded (s_crop rect) = ⊥
IsNeeded (s_fmt f) = ⊥
IsNeeded _ = Unit

module _ {W : Type 0} (K : Kernel W) (patience : W → ℕ) where
  -- A kernel with memory to give. Requests that the program needs fail only by being interrupted, the device has two or more
  -- buffers to map, memory is there, and what is mapped can be munmapped.
  pub record Provides : Type 0 where
    pub request :
        (fd : ℤ) (r : Request) (w : W) (e : ℕ)
        → IsNeeded r
        → (K.ioctl fd r w).0 ≡ failed e
        → e ≡ eintr
    pub enough :
        (fd : ℤ) (w : W) (ret count : ℕ)
        → (K.ioctl fd (reqbufs mapped 4) w).0 ≡ done ret count
        → 2 ≤ count
    pub allocate :
        (size : ℕ) (w : W)
        → (a : ℕ) × (v : W) × (K.allocate size w ≡ (some a, v)) × (patience v ≤ patience w)
    pub map_memory :
        (len offset : ℕ) (w : W)
        → (a : ℕ) × (v : W) × (K.map_memory len offset w ≡ (some a, v)) × (patience v ≤ patience w)
    pub unmap_memory :
        (addr len : ℕ) (w : W)
        → (v : W) × (K.unmap_memory addr len w ≡ (true, v)) × (patience v ≤ patience w)

  -- Nothing but the kernel's state and the requests made has changed.
  abbrev pub Frame : Env W → Env W → Type 0
  Frame s t =
      (t.io ≡ s.io)
      × (t.buffers ≡ s.buffers)
      × (t.array_addr ≡ s.array_addr)
      × (t.n_buffers ≡ s.n_buffers)
      × (memory t.calls ≡ memory s.calls)
      × (t.force_format ≡ s.force_format)
      × (patience t.world ≤ patience s.world)

  module _ (I : Interrupts K patience) (P : Provides) (fuel : ℕ) where
    -- What `require` has done: the value is the kernel's.
    abbrev pub Required : (r : Request) → Env W → Out r → Env W → Type 0
    Required r s out t = Frame s t × ((w : W) × (ret : ℕ) × ((K.ioctl s.fd r w).0 ≡ done ret out))

    or_exit-Required :
        (r : Request) (s : Env W) (reply : Reply (Out r)) (t : Env W)
        → IsNeeded r
        → Answered K patience r s reply t
        → On (Required r s) (λ _. ⊥) (or_exit K fuel reply t)
    unfolding or_exit
    or_exit-Required r s (failed e) t needed (settled, le, (n, w, q, u)) =
        absurd (let isn : e ≡ eintr = P.request s.fd r w e needed q in ground arith)
    or_exit-Required r s (done ret out) t needed (settled, le, (n, w, q, u)) = (
      (
        rw u refl,
        rw u refl,
        rw u refl,
        rw u refl,
        rw u (rw (memory-append, memory-replicate) (append-nil (memory s.calls))),
        rw u refl,
        le,
      ),
      (w, ret, q),
    )

    pub require-Required :
        (r : Request) (s : Env W)
        → IsNeeded r
        → patience s.world < fuel
        → On (Required r s) (λ _. ⊥) (require K fuel r s)
    unfolding require
    require-Required r s needed lt =
        On-and_then (Answered K patience r s) (Required r s) (λ _. ⊥) (xioctl K fuel r s)
          (or_exit K fuel) (xioctl_lem K patience fuel r s I lt)
          (λ reply t h. or_exit-Required r s reply t needed h)

    -- The loops fill the array from `pre` on, obtaining each buffer by `obtain`.
    abbrev pub Filled : (Buffer → Call) → List Buffer → Env W → Env W → Type 0
    Filled obtain pre s t =
        (new : List Buffer) × (t.buffers ≡ pre ++ new)
        × (t.n_buffers ≡ length t.buffers)
        × (t.io ≡ s.io)
        × (t.array_addr ≡ s.array_addr)
        × (memory t.calls ≡ memory s.calls ++ map obtain new)
        × (patience t.world ≤ patience s.world)

    Filled-cons :
        (obtain : Buffer → Call) (pre : List Buffer) (b : Buffer) (s u t : Env W)
        → u.io ≡ s.io
        → u.array_addr ≡ s.array_addr
        → memory u.calls ≡ memory s.calls ++ (obtain b ∷ [])
        → patience u.world ≤ patience s.world
        → Filled obtain (pre ++ (b ∷ [])) u t
        → Filled obtain pre s t
    Filled-cons obtain pre b s u t io arr mem le (new, bufs, count, io', arr', mem', le') = (
      b ∷ new,
      bufs ∙ append_assoc pre (b ∷ []) new,
      count,
      io' ∙ io,
      arr' ∙ arr,
      mem' ∙ rw mem (append_assoc (memory s.calls) (obtain b ∷ []) (map obtain new)),
      omega arith,
    )

    pub map_buffers-Filled :
        (n : ℕ) (pre rest : List Buffer) (s : Env W)
        → s.buffers ≡ pre ++ rest
        → s.n_buffers ≡ length pre
        → length rest ≡ n
        → patience s.world < fuel
        → On (λ _ t. Filled Call.mmap pre s t) (λ _. ⊥) (map_buffers K fuel n s)
    unfolding map_buffers mapped_at add_buffer
    map_buffers-Filled zero pre [] s e c len lt =
        ([], e, rw (e, append-nil pre) c, refl, refl, sym (append-nil _), omega arith)
    map_buffers-Filled zero pre (x ∷ rest) s e c len lt = absurd (omega arith)
    map_buffers-Filled (suc n) pre [] s e c len lt = absurd (omega arith)
    map_buffers-Filled (suc n) pre (x ∷ rest) s e c len lt =
        let r = querybuf (record (clear mapped) { index = s.n_buffers }) in
        On-and_then (Required r s) (λ _ t. Filled Call.mmap pre s t) (λ _. ⊥) (require K fuel r s) _
          (require-Required r s tt lt)
          (λ buf t ((io, bufs, arr, count, mem, _, le), _).
            let (a, v, got, le') = P.map_memory buf.length buf.offset t.world in
            let b : Buffer = record { start = a; length = buf.length } in
            let u : Env W = record t {
              world = v;
              calls = t.calls ++ (Call.mmap b ∷ []);
              buffers = set_buffer t.n_buffers b t.buffers;
              n_buffers = suc t.n_buffers;
            } in
            let set : u.buffers ≡ (pre ++ (b ∷ [])) ++ rest =
              rw (bufs, count, e, c) (set_buffer-append pre rest x b) in
            rw got (
              On-map (λ _ w. Filled Call.mmap (pre ++ (b ∷ [])) u w)
                (λ _ w. Filled Call.mmap pre s w) (λ _. ⊥) (λ _. ⊥) (map_buffers K fuel n u)
                (map_buffers-Filled n (pre ++ (b ∷ [])) rest u set
                  (omega (arith, count, c, length-append pre (b ∷ []))) (omega arith) (omega arith))
                (λ _ w h.
                  Filled-cons Call.mmap pre b s u w io arr
                    (memory-append t.calls (Call.mmap b ∷ []) ∙ rw mem refl) (omega arith) h)
                (λ w h. h)))

    pub allocate_buffers-Filled :
        (n size : ℕ) (pre rest : List Buffer) (s : Env W)
        → s.buffers ≡ pre ++ rest
        → s.n_buffers ≡ length pre
        → length rest ≡ n
        → On
            (λ _ t. Filled (λ b. Call.malloc b.start) pre s t)
            (λ _. ⊥)
            (allocate_buffers K fuel n size s)
    unfolding allocate_buffers malloc not_null add_buffer
    allocate_buffers-Filled zero size pre [] s e c len =
        ([], e, rw (e, append-nil pre) c, refl, refl, sym (append-nil _), omega arith)
    allocate_buffers-Filled zero size pre (x ∷ rest) s e c len = absurd (omega arith)
    allocate_buffers-Filled (suc n) size pre [] s e c len = absurd (omega arith)
    allocate_buffers-Filled (suc n) size pre (x ∷ rest) s e c len =
        let (a, v, got, le) = P.allocate size s.world in
        let b : Buffer = record { start = a; length = size } in
        let u : Env W = record s {
          world = v;
          calls = s.calls ++ (Call.malloc a ∷ []);
          buffers = set_buffer s.n_buffers b s.buffers;
          n_buffers = suc s.n_buffers;
        } in
        let set : u.buffers ≡ (pre ++ (b ∷ [])) ++ rest =
          rw (e, c) (set_buffer-append pre rest x b) in
        let obtain : Buffer → Call = λ b. Call.malloc b.start in
        rw got (
          On-map (λ _ w. Filled obtain (pre ++ (b ∷ [])) u w) (λ _ w. Filled obtain pre s w)
            (λ _. ⊥) (λ _. ⊥) (allocate_buffers K fuel n size u)
            (allocate_buffers-Filled n size (pre ++ (b ∷ [])) rest u set
              (omega (arith, c, length-append pre (b ∷ []))) (omega arith))
            (λ _ w h.
              Filled-cons obtain pre b s u w refl refl (memory-append s.calls (Call.malloc a ∷ []))
                (omega arith) h)
            (λ w h. h))
