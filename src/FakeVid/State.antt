-- ===== src/FakeVid/State.antt =====
-- lkml/v4l2/vid4linux.c: the structures. A pointer to a `single_frame` is a number, which is also
-- the number of its `vb2_buffer`; `frames` is the memory in which they lie.
use bbblack.Base.{ℕ, Bool, Option, List, [], ◌∷◌}
use bbblack.Base.{◌==◌, if◌then◌else◌}

-- The pixel formats that the driver names, for their V4L2_PIX_FMT codes.
pub data Fourcc : Type 0 where
  rgb24 rgb555 yuyv uyvy : Fourcc

-- `struct fake_vid_fmt`; the name is its bytes.
pub record FakeVidFmt : Type 0 where
  pub name : List ℕ
  pub fourcc : Fourcc
  pub depth : ℕ

-- `struct single_frame`: the part of its `vb2_buffer` that the driver writes, and its format.
pub record SingleFrame : Type 0 where
  pub payload : ℕ
  pub timestamp : ℕ
  pub fmt : Option FakeVidFmt

-- The `task_struct` pointer that `kthread_run` returned, which may encode an error number.
pub data Kthread : Type 0 where
  null : Kthread
  task : ℕ → Kthread
  err_ptr : ℕ → Kthread

-- The last argument of `vb2_buffer_done`: VB2_BUF_STATE_DONE or VB2_BUF_STATE_ERROR.
pub data BufState : Type 0 where
  state_done state_error : BufState

-- Where the frame generation thread stands: it does not exist, it is about to test
-- `kthread_should_stop`, it has taken a buffer and dropped the lock, or it has returned.
pub data Pc : Type 0 where
  not_started : Pc
  loop_head : Pc
  holding : ℕ → Pc
  returned : Bool → Pc

-- `struct fake_vid_device` with its `dmaq`, the frames, the bytes of kernel memory, the position of
-- the thread, and the calls of `vb2_buffer_done` so far, in order.
pub record FakeVidDevice : Type 0 where
  pub active : List ℕ
  pub kthread : Kthread
  pub slock : Bool
  pub fmt : FakeVidFmt
  pub width : ℕ
  pub height : ℕ
  pub pixelsize : ℕ
  pub frames : ℕ → SingleFrame
  pub memory : ℕ → ℕ
  pub pc : Pc
  pub done : List (ℕ × BufState)

-- What videobuf2 says of a buffer: the kernel address of plane 0 (`none` for NULL), and its size.
pub record Vb2 : Type 0 where
  pub plane_vaddr : ℕ → Option ℕ
  pub plane_size : ℕ → ℕ

abbrev pub update {ℓ} : {A : Type ℓ} → (ℕ → A) → ℕ → A → ℕ → A
update f p v q = if p == q then v else f q

-- The buffer that the thread holds: taken off the list, and not handed back.
abbrev pub held : Pc → List ℕ
held (holding b) = b ∷ []
held _ = []
