-- ===== src/Grabber/Frames.antt =====
-- lkml/v4l2-app/grabber.c: the requests, the frames, and the start and the end of a stream. The
-- two endless loops, in `xioctl` and around `select`, run on `fuel` turns.
use bbblack.Base.{
  ℕ, zero, suc, ◌==◌, ltb, ◌&&◌, if◌then◌else◌, Bool, true, false, none, some, [], ◌∷◌, ◌++◌,
  get_elem?,
}
use bbblack.Base.Word.{to_u32}
use bbblack.Grabber.Types.{
  IoMethod, read, mmap, userptr, Buffer, mapped, user, V4l2Buffer, clear, Request, qbuf, dqbuf,
  streamon, streamoff, Out, Reply, failed, done, eintr, eagain, is_interrupted, Kernel, Call, ok,
  aborts, out_of_fuel, Prog, ◌>>=◌, ◌>>◌, pure, exit_failure, fault, get, emit, kernel,
}

-- `assert`
abbrev pub assert : {W : Type 0} → Bool → Prog W Unit
assert true = pure tt
assert false = λ s. (aborts, s)

-- A branch of a `switch` by an index: an access outside `buffers` is a fault.
abbrev pub buffer_at : {W : Type 0} → ℕ → Prog W Buffer
buffer_at i s = elim (get_elem? s.buffers i) [ none ↦ fault s | some b ↦ pure b s ]

-- The search of `read_frame`, from position `i` on with `n` to go: the position of the first buffer
-- at an address, with a length, or the position at which the loop ends.
unfoldable pub find_buffer : {W : Type 0} → ℕ → ℕ → ℕ → ℕ → Prog W ℕ
find_buffer addr len zero i = pure i
find_buffer addr len (suc n) i = do
  b ← buffer_at i
  elim (addr == b.start && len == b.length) [
    | true ↦ pure i
    | false ↦ find_buffer addr len n (suc i)
  ]

module _ {W : Type 0} (K : Kernel W) where
  -- The loop of `xioctl`, for the turns that are left.
  unfoldable pub attempts : ℕ → (r : Request) → Prog W (Reply (Out r))
  attempts zero r s = (out_of_fuel, s)
  attempts (suc n) r s =
      let (reply, w) = K.ioctl s.fd r s.world in
      let t = record s { world = w; calls = s.calls ++ (Call.ioctl r ∷ []) } in
      elim (is_interrupted reply) [ true ↦ attempts n r t | false ↦ (ok reply, t) ]

module _ {W : Type 0} (K : Kernel W) (fuel : ℕ) where
  unfoldable pub xioctl : (r : Request) → Prog W (Reply (Out r))
  xioctl r = attempts K fuel r

  -- `if (-1 == xioctl(...)) errno_exit(...)`
  unfoldable pub or_exit : {A : Type 0} → Reply A → Prog W A
  or_exit (failed e) = exit_failure
  or_exit (done r a) = pure a

  unfoldable pub require : (r : Request) → Prog W (Out r)
  unfolding or_exit
  require r = xioctl r >>= or_exit

  -- The `switch` on `errno` after a read of a frame: no frame yet, or the end.
  unfoldable pub not_yet : ℕ → Prog W ℕ
  not_yet e = if e == eagain then pure 0 else exit_failure

  unfoldable pub read_method : Buffer → Reply Unit → Prog W ℕ
  unfolding not_yet
  read_method b (failed e) = not_yet e
  read_method b (done r u) = do emit (Call.process_image b.start b.length); pure 1

  unfoldable pub mmap_method : Reply V4l2Buffer → Prog W ℕ
  unfolding not_yet require
  mmap_method (failed e) = not_yet e
  mmap_method (done r buf) = do
    s ← get
    assert (ltb buf.index s.n_buffers)
    b ← buffer_at buf.index
    emit (Call.process_image b.start buf.bytesused)
    require (qbuf buf)
    pure 1

  unfoldable pub userptr_method : Reply V4l2Buffer → Prog W ℕ
  unfolding not_yet require
  userptr_method (failed e) = not_yet e
  userptr_method (done r buf) = do
    s ← get
    i ← find_buffer buf.userptr buf.length s.n_buffers 0
    assert (ltb i s.n_buffers)
    emit (Call.process_image buf.userptr buf.bytesused)
    require (qbuf buf)
    pure 1

  -- `read_frame`, by the value of `io`
  unfoldable pub frame_by : IoMethod → Prog W ℕ
  unfolding xioctl read_method mmap_method userptr_method
  frame_by read = do
    b ← buffer_at 0
    reply ← kernel (λ s. K.read s.fd b.start b.length)
    emit Call.read
    read_method b reply
  frame_by mmap = do reply ← xioctl (dqbuf (clear mapped)); mmap_method reply
  frame_by userptr = do reply ← xioctl (dqbuf (clear user)); userptr_method reply

  unfoldable pub read_frame : Prog W ℕ
  unfolding frame_by
  read_frame s = frame_by s.io s

  -- What the inner loop does with the result of `select`: whether it goes on.
  unfoldable pub selected : Reply Unit → Prog W Bool
  unfolding read_frame
  selected (failed e) = if e == eintr then pure true else exit_failure
  selected (done zero u) = exit_failure
  selected (done (suc r) u) = do got ← read_frame; pure (got == 0)

  -- The inner loop of `mainloop`, for the turns that are left.
  unfoldable pub next_frame : ℕ → Prog W Unit
  unfolding selected
  next_frame zero = λ s. (out_of_fuel, s)
  next_frame (suc n) = do
    reply ← kernel (λ s. K.select s.fd)
    emit Call.select
    again ← selected reply
    elim again [ true ↦ next_frame n | false ↦ pure tt ]

  -- `while (count-- > 0)`
  unfoldable pub grab_frames : ℕ → Prog W Unit
  unfolding next_frame
  grab_frames zero = pure tt
  grab_frames (suc count) = do next_frame fuel; grab_frames count

  unfoldable pub mainloop : Prog W Unit
  unfolding grab_frames
  mainloop s = grab_frames (to_u32 s.frame_count) s

  -- `stop_capturing`, by the value of `io`
  unfoldable pub stop_by : IoMethod → Prog W Unit
  unfolding require
  stop_by read = pure tt
  stop_by _ = require streamoff

  unfoldable pub stop_capturing : Prog W Unit
  unfolding stop_by
  stop_capturing s = stop_by s.io s

  -- The loops of `start_capturing`: the buffers from `i` on, `n` of them.
  unfoldable pub queue_mapped : ℕ → ℕ → Prog W Unit
  unfolding require
  queue_mapped zero i = pure tt
  queue_mapped (suc n) i = do
    require (qbuf (record (clear mapped) { index = i }))
    queue_mapped n (suc i)

  unfoldable pub queue_user : ℕ → ℕ → Prog W Unit
  unfolding require
  queue_user zero i = pure tt
  queue_user (suc n) i = do
    b ← buffer_at i
    require (qbuf (record (clear user) { index = i; userptr = b.start; length = b.length }))
    queue_user n (suc i)

  unfoldable pub start_by : IoMethod → ℕ → Prog W Unit
  unfolding require queue_mapped queue_user
  start_by read n = pure tt
  start_by mmap n = queue_mapped n 0 >> require streamon
  start_by userptr n = queue_user n 0 >> require streamon

  unfoldable pub start_capturing : Prog W Unit
  unfolding start_by
  start_capturing s = start_by s.io s.n_buffers s
