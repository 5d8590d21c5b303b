-- ===== src/Grabber/Types.antt =====
-- lkml/v4l2-app/grabber.c: the file's globals, what it asks of the kernel, and how a run goes on.
use bbblack.Base.{ℕ, ◌==◌, Bool, false, Option, List, [], ◌∷◌, ◌++◌}
use bbblack.Base.Int.{ℤ}
pub use bbblack.Base.Run.{
  Outcome, ok, exits, aborts, faults, out_of_fuel, Run, and_then, ◌>>=◌, ◌>>◌, pure, fault, get,
  modify,
}

pub data IoMethod : Type 0 where
  read mmap userptr : IoMethod

-- `struct buffer`
pub record Buffer : Type 0 where
  pub start : ℕ
  pub length : ℕ

-- The values of `memory`: V4L2_MEMORY_MMAP and V4L2_MEMORY_USERPTR.
pub data Memory : Type 0 where
  mapped user : Memory

-- `struct v4l2_buffer`, of the one `type` that the program uses; CLEAR leaves zeros.
pub record V4l2Buffer : Type 0 where
  pub memory : Memory
  pub index : ℕ
  pub bytesused : ℕ
  pub userptr : ℕ
  pub offset : ℕ
  pub length : ℕ

abbrev pub clear : Memory → V4l2Buffer
clear m = record { memory = m; index = 0; bytesused = 0; userptr = 0; offset = 0; length = 0 }

pub record Rect : Type 0 where
  pub left : ℤ
  pub top : ℤ
  pub width : ℕ
  pub height : ℕ

-- A format that is asked for: V4L2_PIX_FMT_YUYV and V4L2_FIELD_INTERLACED are the only values.
pub record PixFormat : Type 0 where
  pub width : ℕ
  pub height : ℕ

-- The requests, with what the argument holds when the call is made.
pub data Request : Type 0 where
  querycap : Request
  cropcap : Request
  s_crop : Rect → Request
  s_fmt : PixFormat → Request
  g_fmt : Request
  reqbufs : Memory → ℕ → Request
  querybuf : V4l2Buffer → Request
  qbuf : V4l2Buffer → Request
  dqbuf : V4l2Buffer → Request
  streamon : Request
  streamoff : Request

-- What the program reads from the argument of a request that succeeded: the capabilities, the
-- default rectangle, the size of an image, the number of buffers, a buffer.
abbrev pub Out : Request → Type 0
Out querycap = ℕ
Out cropcap = Rect
Out (s_fmt f) = ℕ
Out g_fmt = ℕ
Out (reqbufs m n) = ℕ
Out (querybuf b) = V4l2Buffer
Out (dqbuf b) = V4l2Buffer
Out _ = Unit

-- The value -1 with `errno`, or another value with what the argument holds then. V4L2 documents
-- that a request that fails leaves its argument as it was.
pub data Reply (A : Type 0) : Type 0 where
  failed : ℕ → Reply A
  done : ℕ → A → Reply A

abbrev pub eintr : ℕ
eintr = 4

abbrev pub eagain : ℕ
eagain = 11

-- `-1 == r && EINTR == errno`
abbrev pub is_interrupted : {A : Type 0} → Reply A → Bool
is_interrupted (failed e) = e == eintr
is_interrupted (done r a) = false

-- The kernel and the C library over a state `W` of theirs.
pub record Kernel (W : Type 0) : Type 0 where
  pub ioctl : ℤ → (r : Request) → W → Reply (Out r) × W
  pub read : ℤ → ℕ → ℕ → W → Reply Unit × W
  pub select : ℤ → W → Reply Unit × W
  pub map_memory : ℕ → ℕ → W → Option ℕ × W
  pub unmap_memory : ℕ → ℕ → W → Bool × W
  pub allocate : ℕ → W → Option ℕ × W
  pub stat_is_chr : List ℕ → W → Option Bool × W
  pub open_file : List ℕ → W → Option ℕ × W
  pub close : ℤ → W → Bool × W

-- What a run does, in order. A call that maps, unmaps, allocates or opens nothing is not recorded.
pub data Call : Type 0 where
  ioctl : Request → Call
  read select : Call
  mmap : Buffer → Call
  munmap : Buffer → Call
  malloc : ℕ → Call
  free : ℕ → Call
  process_image : ℕ → ℕ → Call
  open_file : ℕ → Call
  close : ℤ → Call

-- The globals, the kernel's state and what was done so far. `buffers` points at `array_addr`.
pub record Env (W : Type 0) : Type 0 where
  pub dev_name : List ℕ
  pub io : IoMethod
  pub fd : ℤ
  pub buffers : List Buffer
  pub array_addr : ℕ
  pub n_buffers : ℕ
  pub out_buf : ℕ
  pub force_format : ℕ
  pub frame_count : ℤ
  pub world : W
  pub calls : List Call

abbrev pub Prog : Type 0 → Type 0 → Type 0
Prog W A = Run (Env W) A

module _ {W : Type 0} where
  -- `exit(EXIT_FAILURE)`, also at the end of `errno_exit`
  abbrev pub exit_failure : {A : Type 0} → Prog W A
  exit_failure s = (exits 1, s)

  abbrev pub emit : Call → Prog W Unit
  emit c s = (ok tt, record s { calls = s.calls ++ (c ∷ []) })

  -- A call of the kernel
  abbrev pub kernel : {A : Type 0} → (Env W → W → A × W) → Prog W A
  kernel f s = let (a, w) = f s s.world in (ok a, record s { world = w })
