-- ===== src/Grabber/Setup.antt =====
-- lkml/v4l2-app/grabber.c: opening and closing the device, and its set-up.
use bbblack.Base.{
  ℕ, zero, suc, ◌*◌, ◌==◌, ltb, if◌then◌else◌, Bool, true, false, Option, none, some, List, [], ◌∷◌,
  replicate,
}
use Prim.Native.Nat.{bit_and}
use bbblack.Base.Int.{pos, negsuc}
use bbblack.Grabber.Types.{
  IoMethod, read, mmap, userptr, Buffer, mapped, user, clear, Rect, querycap, cropcap, s_crop,
  s_fmt, g_fmt, reqbufs, querybuf, Reply, done, Kernel, Call, Env, Prog, ◌>>=◌, ◌>>◌, pure,
  exit_failure, get, emit, modify, kernel,
}
use bbblack.Grabber.Frames.{xioctl, require, buffer_at}

abbrev pub v4l2_cap_video_capture : ℕ
v4l2_cap_video_capture = 0x0000_0001

abbrev pub v4l2_cap_readwrite : ℕ
v4l2_cap_readwrite = 0x0100_0000

abbrev pub v4l2_cap_streaming : ℕ
v4l2_cap_streaming = 0x0400_0000

-- `sizeof(struct buffer)` where pointers have 32 bits, as on the board
abbrev pub sizeof_buffer : ℕ
sizeof_buffer = 8

-- `buffers[i] = b`
abbrev pub set_buffer : ℕ → Buffer → List Buffer → List Buffer
set_buffer i b [] = []
set_buffer zero b (x ∷ xs) = b ∷ xs
set_buffer (suc i) b (x ∷ xs) = x ∷ set_buffer i b xs

abbrev pub zero_buffer : Buffer
zero_buffer = record { start = 0; length = 0 }

module _ {W : Type 0} (K : Kernel W) (fuel : ℕ) where
  -- A pointer that is NULL ends the program.
  unfoldable pub not_null : Option ℕ → Prog W ℕ
  not_null none = exit_failure
  not_null (some a) = do emit (Call.malloc a); pure a

  unfoldable pub malloc : ℕ → Prog W ℕ
  unfolding not_null
  malloc size = kernel (λ s. K.allocate size) >>= not_null

  -- `buffers = calloc(n, sizeof(*buffers))`
  unfoldable pub calloc : ℕ → Prog W Unit
  unfolding malloc
  calloc n = do
    a ← malloc (n * sizeof_buffer)
    modify (λ s. record s { buffers = replicate n zero_buffer; array_addr = a })

  unfoldable pub init_read : ℕ → Prog W Unit
  unfolding calloc malloc
  init_read buffer_size = do
    calloc 1
    a ← malloc buffer_size
    modify (λ s. record s {
      buffers = set_buffer 0 (record { start = a; length = buffer_size }) s.buffers;
    })

  -- `buffers[n_buffers]` is set, and `++n_buffers`.
  unfoldable pub add_buffer : Buffer → Env W → Env W
  add_buffer b s = record s {
    buffers = set_buffer s.n_buffers b s.buffers;
    n_buffers = suc s.n_buffers;
  }

  -- By the value of `mmap`: MAP_FAILED, or the address.
  unfoldable pub mapped_at : ℕ → Option ℕ → Prog W Unit
  unfolding add_buffer
  mapped_at len none = exit_failure
  mapped_at len (some a) = do
    let b : Buffer = record { start = a; length = len }
    emit (Call.mmap b)
    modify (add_buffer b)

  -- The loop of `init_mmap`, for the buffers that are left.
  unfoldable pub map_buffers : ℕ → Prog W Unit
  unfolding mapped_at
  map_buffers zero = pure tt
  map_buffers (suc n) = do
    s ← get
    buf ← require K fuel (querybuf (record (clear mapped) { index = s.n_buffers }))
    a ← kernel (λ s. K.map_memory buf.length buf.offset)
    mapped_at buf.length a
    map_buffers n

  -- Both branches of the test for EINVAL end the program.
  unfoldable pub init_mmap : Prog W Unit
  unfolding calloc map_buffers
  init_mmap = do
    count ← require K fuel (reqbufs mapped 4)
    if ltb count 2
        then exit_failure
        else do calloc count; modify (λ s. record s { n_buffers = 0 }); map_buffers count

  -- The loop of `init_userp`
  unfoldable pub allocate_buffers : ℕ → ℕ → Prog W Unit
  unfolding malloc add_buffer
  allocate_buffers zero size = pure tt
  allocate_buffers (suc n) size = do
    a ← malloc size
    modify (add_buffer (record { start = a; length = size }))
    allocate_buffers n size

  unfoldable pub init_userp : ℕ → Prog W Unit
  unfolding calloc allocate_buffers
  init_userp buffer_size = do
    _ ← require K fuel (reqbufs user 4)
    calloc 4
    modify (λ s. record s { n_buffers = 0 })
    allocate_buffers 4 buffer_size

  -- The capability that `io` needs
  abbrev pub needed : IoMethod → ℕ
  needed read = v4l2_cap_readwrite
  needed _ = v4l2_cap_streaming

  -- The first part of `init_device`: the two tests of the capabilities.
  unfoldable pub check_capabilities : Prog W Unit
  check_capabilities = do
    caps ← require K fuel querycap
    s ← get
    if bit_and caps v4l2_cap_video_capture == 0
        then exit_failure
        else if bit_and caps (needed s.io) == 0
        then exit_failure
        else pure tt

  -- The crop rectangle, by the reply to VIDIOC_CROPCAP. Errors are ignored.
  unfoldable pub reset_crop : Reply Rect → Prog W Unit
  reset_crop (done zero defrect) = do _ ← xioctl K fuel (s_crop defrect); pure tt
  reset_crop _ = pure tt

  -- The format: by `force_format`. The value is `fmt.fmt.pix.sizeimage`.
  unfoldable pub choose_format : ℕ → Prog W ℕ
  choose_format zero = require K fuel g_fmt
  choose_format (suc n) = require K fuel (s_fmt (record { width = 640; height = 480 }))

  unfoldable pub init_by : IoMethod → ℕ → Prog W Unit
  unfolding init_read init_mmap init_userp
  init_by read size = init_read size
  init_by mmap size = init_mmap
  init_by userptr size = init_userp size

  unfoldable pub init_device : Prog W Unit
  unfolding check_capabilities reset_crop choose_format init_by
  init_device = do
    check_capabilities
    reply ← xioctl K fuel cropcap
    reset_crop reply
    s ← get
    size ← choose_format s.force_format
    init_by s.io size

  -- The loops of `uninit_device`: the buffers from `i` on, `n` of them.
  unfoldable pub munmapped : Buffer → Bool → Prog W Unit
  munmapped b false = exit_failure
  munmapped b true = emit (Call.munmap b)

  unfoldable pub unmap_buffers : ℕ → ℕ → Prog W Unit
  unfolding munmapped
  unmap_buffers zero i = pure tt
  unmap_buffers (suc n) i = do
    b ← buffer_at i
    ret ← kernel (λ s. K.unmap_memory b.start b.length)
    munmapped b ret
    unmap_buffers n (suc i)

  unfoldable pub free_buffers : ℕ → ℕ → Prog W Unit
  free_buffers zero i = pure tt
  free_buffers (suc n) i = do b ← buffer_at i; emit (Call.free b.start); free_buffers n (suc i)

  unfoldable pub uninit_by : IoMethod → ℕ → Prog W Unit
  unfolding unmap_buffers free_buffers
  uninit_by read n = do b ← buffer_at 0; emit (Call.free b.start)
  uninit_by mmap n = unmap_buffers n 0
  uninit_by userptr n = free_buffers n 0

  unfoldable pub uninit_device : Prog W Unit
  unfolding uninit_by
  uninit_device = do s ← get; uninit_by s.io s.n_buffers; t ← get; emit (Call.free t.array_addr)

  unfoldable pub closed : Bool → Prog W Unit
  closed false = exit_failure
  closed true = do s ← get; emit (Call.close s.fd); modify (λ s. record s { fd = negsuc 0 })

  unfoldable pub close_device : Prog W Unit
  unfolding closed
  close_device = kernel (λ s. K.close s.fd) >>= closed

  -- By the value of `open`
  unfoldable pub opened : Option ℕ → Prog W Unit
  opened none s = exit_failure (record s { fd = negsuc 0 })
  opened (some n) s = (emit (Call.open_file n) >> modify (λ t. record t { fd = pos n })) s

  -- By the value of `stat` and of S_ISCHR
  unfoldable pub identified : Option Bool → Prog W Unit
  unfolding opened
  identified (some true) = kernel (λ s. K.open_file s.dev_name) >>= opened
  identified _ = exit_failure

  unfoldable pub open_device : Prog W Unit
  unfolding identified
  open_device = kernel (λ s. K.stat_is_chr s.dev_name) >>= identified
