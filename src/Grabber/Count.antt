-- ===== src/Grabber/Count.antt =====
-- lkml/v4l2-app/grabber.c: how many frames `mainloop` takes, whatever the kernel answers.
use bbblack.Base.{
  ℕ, zero, suc, ◌+◌, ◌≤◌, ◌≡◌, refl, true, false, inl, inr, Bool-cases, Option-cases, List, [], ◌∷◌,
  ◌++◌, arith, ltb, ◌==◌, if◌then◌else◌, get_elem?, ◌==◌, ◌&&◌,
}
use bbblack.Base.Word.{to_u32}
use bbblack.Grabber.Types.{
  IoMethod, read, mmap, userptr, Request, qbuf, dqbuf, clear, mapped, user, Buffer, V4l2Buffer,
  Reply, failed, done, Kernel, Call, Env, Prog, ◌>>◌, emit, pure,
}
use bbblack.Grabber.Frames.{
  attempts, xioctl, require, or_exit, not_yet, read_method, mmap_method, userptr_method, frame_by,
  read_frame, selected, next_frame, grab_frames, mainloop, find_buffer, buffer_at,
}
use bbblack.Base.Run.{On, On-map, On-and_then}
use bbblack.Grabber.Takes.{
  images, images-append, taken, Takes, Takes-from, Takes-and_then, attempts-Takes,
}

module _ {W : Type 0} (K : Kernel W) (fuel : ℕ) where
  or_exit-Takes :
      {A : Type 0} (reply : Reply A) (s : Env W) → Takes K (λ _. 0) 0 s (or_exit K fuel reply s)
  unfolding or_exit
  or_exit-Takes (failed e) s = omega arith
  or_exit-Takes (done r a) s = omega arith

  require-Takes : (r : Request) (s : Env W) → Takes K (λ _. 0) 0 s (require K fuel r s)
  unfolding require xioctl
  require-Takes r s =
      Takes-and_then K 0 (λ _. 0) (λ _. 0) 0 s (attempts K fuel r s) (or_exit K fuel) (λ _. refl)
        (attempts-Takes K fuel r s) (or_exit-Takes)

  -- The end of `read_frame` for the two methods that queue the buffer again
  processed-Takes :
      (addr n : ℕ) (buf : V4l2Buffer) (s : Env W)
      → Takes K taken 1 s
          ((emit (Call.process_image addr n) >> require K fuel (qbuf buf) >> pure 1) s)
  processed-Takes addr n buf s =
      let t : Env W = record s { calls = s.calls ++ (Call.process_image addr n ∷ []) } in
      let one : images t.calls ≡ images s.calls + 1 =
        omega (arith, images-append s.calls (Call.process_image addr n ∷ [])) in
      On-and_then (λ _ u. images u.calls ≡ images s.calls + 1)
        (λ got u. images u.calls ≡ images s.calls + taken got)
        (λ u. images u.calls ≤ images s.calls + 1) (require K fuel (qbuf buf) t) (λ _. pure 1)
        (Takes-from K 1 (λ _. 0) (λ _. 1) 0 s t (require K fuel (qbuf buf) t) (λ _. refl) one
          (require-Takes (qbuf buf) t))
        (λ a u e. e)

  read_method-Takes :
      (b : Buffer) (reply : Reply Unit) (s : Env W)
      → Takes K taken 1 s (read_method K fuel b reply s)
  unfolding read_method not_yet
  read_method-Takes b (failed e) s = ground arith
  read_method-Takes b (done r u) s = grind (arith, images-append)

  mmap_method-Takes :
      (reply : Reply V4l2Buffer) (s : Env W) → Takes K taken 1 s (mmap_method K fuel reply s)
  unfolding mmap_method not_yet
  mmap_method-Takes (failed e) s = ground arith
  mmap_method-Takes (done r buf) s = elim (Bool-cases (ltb buf.index s.n_buffers)) [
    | inr q ↦ rw q (omega arith)
    | inl q ↦ elim (Option-cases (get_elem? s.buffers buf.index)) [
      | inl none_there ↦ rw (q, none_there) (omega arith)
      | inr (b, there) ↦ rw (q, there) (processed-Takes b.start buf.bytesused buf s)
    ]
  ]

  find_buffer-Takes :
      (addr len n i : ℕ) (s : Env W) → Takes K (λ _. 0) 0 s (find_buffer addr len n i s)
  unfolding find_buffer
  find_buffer-Takes addr len zero i s = omega arith
  find_buffer-Takes addr len (suc n) i s = elim (Option-cases (get_elem? s.buffers i)) [
    | inl none_there ↦ rw (buffer_at, none_there) (omega arith)
    | inr (b, there) ↦
        rw (buffer_at, there)
          (elim (addr == b.start && len == b.length)
            as (λ here.
              Takes K (λ _. 0) 0 s
                ((elim here as (λ _. Prog W ℕ) [
                  | true ↦ pure i
                  | false ↦ find_buffer addr len n (suc i)
                ])
                  s)) [ true ↦ omega arith | false ↦ find_buffer-Takes addr len n (suc i) s ])
  ]

  userptr_method-Takes :
      (reply : Reply V4l2Buffer) (s : Env W) → Takes K taken 1 s (userptr_method K fuel reply s)
  unfolding userptr_method not_yet
  userptr_method-Takes (failed e) s = ground arith
  userptr_method-Takes (done r buf) s =
      Takes-and_then K 0 taken taken 1 s (find_buffer buf.userptr buf.length s.n_buffers 0 s) _
        (λ got. omega arith) (find_buffer-Takes buf.userptr buf.length s.n_buffers 0 s)
        (λ i t. elim (Bool-cases (ltb i s.n_buffers)) [
          | inr q ↦ rw q (omega arith)
          | inl q ↦ rw q (processed-Takes buf.userptr buf.bytesused buf t)
        ])

  read-Takes :
      (bs : List Buffer) (s : Env W)
      → Takes K taken 1 s (frame_by K fuel read (record s { buffers = bs }))
  unfolding frame_by
  read-Takes [] s = omega arith
  read-Takes (b ∷ bs) s =
      let (reply, w) = K.read s.fd b.start b.length s.world in
      let t : Env W = record s {
        buffers = b ∷ bs;
        world = w;
        calls = s.calls ++ (Call.read ∷ []);
      } in
      Takes-from K 0 taken taken 1 s t (read_method K fuel b reply t) (λ got. omega arith)
        (omega (arith, images-append s.calls (Call.read ∷ []))) (read_method-Takes b reply t)

  read_frame-Takes : (io : IoMethod) (s : Env W) → Takes K taken 1 s (frame_by K fuel io s)
  unfolding frame_by xioctl
  read_frame-Takes read s = read-Takes s.buffers s
  read_frame-Takes mmap s =
      Takes-and_then K 0 taken taken 1 s (attempts K fuel (dqbuf (clear mapped)) s)
        (mmap_method K fuel) (λ got. omega arith) (attempts-Takes K fuel (dqbuf (clear mapped)) s)
        mmap_method-Takes
  read_frame-Takes userptr s =
      Takes-and_then K 0 taken taken 1 s (attempts K fuel (dqbuf (clear user)) s)
        (userptr_method K fuel) (λ got. omega arith) (attempts-Takes K fuel (dqbuf (clear user)) s)
        userptr_method-Takes

  selected-Takes :
      (reply : Reply Unit) (s : Env W)
      → Takes K (λ again. if again then 0 else 1) 1 s (selected K fuel reply s)
  unfolding selected read_frame
  selected-Takes (failed e) s = ground arith
  selected-Takes (done zero u) s = omega arith
  selected-Takes (done (suc r) u) s =
      On-and_then (λ got t. images t.calls ≡ images s.calls + taken got)
        (λ again t. images t.calls ≡ images s.calls + (if again then 0 else 1))
        (λ t. images t.calls ≤ images s.calls + 1) (frame_by K fuel s.io s) (λ got. pure (got == 0))
        (read_frame-Takes s.io s) (λ got t e. e)

  next_frame-Takes : (n : ℕ) (s : Env W) → Takes K (λ _. 1) 1 s (next_frame K fuel n s)
  unfolding next_frame
  next_frame-Takes zero s = omega arith
  next_frame-Takes (suc n) s =
      let (reply, w) = K.select s.fd s.world in
      let t : Env W = record s { world = w; calls = s.calls ++ (Call.select ∷ []) } in
      Takes-from K 0 (λ _. 1) (λ _. 1) 1 s t _ (λ _. refl)
        (omega (arith, images-append s.calls (Call.select ∷ [])))
        (On-and_then (λ again u. images u.calls ≡ images t.calls + (if again then 0 else 1))
          (λ _ u. images u.calls ≡ images t.calls + 1) (λ u. images u.calls ≤ images t.calls + 1)
          (selected K fuel reply t) _ (selected-Takes reply t)
          (λ again u e.
            elim again
                as (λ g.
                  images u.calls ≡ images t.calls + (if g then 0 else 1)
                  → Takes K (λ _. 1) 1 t
                      ((elim g as (λ _. Prog W Unit) [
                        | true ↦ next_frame K fuel n
                        | false ↦ pure tt
                      ])
                        u)) [
                          | true ↦ λ e'.
                              Takes-from K 0 (λ _. 1) (λ _. 1) 1 t u (next_frame K fuel n u)
                                (λ _. refl) e' (next_frame-Takes n u)
                          | false ↦ λ e'. e'
                        ]
              e))

  grab_frames-Takes :
      (count : ℕ) (s : Env W) → Takes K (λ _. count) count s (grab_frames K fuel count s)
  unfolding grab_frames
  grab_frames-Takes zero s = omega arith
  grab_frames-Takes (suc count) s =
      On-map (λ _ t. images t.calls ≡ images s.calls + suc count)
        (λ _ t. images t.calls ≡ images s.calls + suc count)
        (λ t. images t.calls ≤ images s.calls + (1 + count))
        (λ t. images t.calls ≤ images s.calls + suc count) (grab_frames K fuel (suc count) s)
        (Takes-and_then K 1 (λ _. count) (λ _. suc count) count s (next_frame K fuel fuel s)
          (λ _. grab_frames K fuel count) (λ _. omega arith) (next_frame-Takes fuel s)
          (λ _ t. grab_frames-Takes count t))
        (λ a t e. e) (λ t e. omega arith)

  -- Whatever the kernel answers and however long the program waits, `mainloop` returns only when it
  -- has processed exactly as many frames as `frame_count` says, read as an unsigned number, and it
  -- has never processed more.
  pub mainloop_frames :
      (s : Env W)
      → On
          (λ _ t. images t.calls ≡ images s.calls + to_u32 s.frame_count)
          (λ t. images t.calls ≤ images s.calls + to_u32 s.frame_count)
          (mainloop K fuel s)
  unfolding mainloop
  mainloop_frames s = grab_frames-Takes (to_u32 s.frame_count) s
