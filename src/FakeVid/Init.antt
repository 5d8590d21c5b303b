-- ===== src/FakeVid/Init.antt =====
-- lkml/v4l2/vid4linux.c: `v4l2_init` and `v4l2_exit`. What the kernel answers is in `Answers`, and
-- the calls that hand over or take back something are recorded in order.
use bbblack.Base.{ℕ, false, Option, none, some, List, [], ◌∷◌, ◌++◌, if◌then◌else◌}
use bbblack.Base.Int.{ℤ, pos, minus, is_neg}
use bbblack.FakeVid.State.{SingleFrame, FakeVidDevice, null, not_started}
use bbblack.FakeVid.Queue.{enomem}
use bbblack.FakeVid.Format.{rgb24_fmt}

-- A `video_device`: the member `vdev` of a `fake_vid_device`, or one of `video_device_alloc`.
pub data VideoPtr : Type 0 where
  member : ℕ → VideoPtr
  allocated : ℕ → VideoPtr

pub data Call : Type 0 where
  kzalloc : ℕ → Call
  kfree : ℕ → Call
  v4l2_device_register : ℕ → Call
  v4l2_device_unregister : ℕ → Call
  video_device_alloc : ℕ → Call
  video_register_device : VideoPtr → Call
  video_unregister_device : VideoPtr → Call

pub record Answers : Type 0 where
  pub kzalloc_ret : Option ℕ
  pub v4l2_device_register_ret : ℤ
  pub video_device_alloc_ret : Option ℕ
  pub video_register_device_ret : ℤ

-- `fake_vid_list` and the calls so far.
pub record Module : Type 0 where
  pub fake_vid_list : List ℕ
  pub calls : List Call

-- A write through NULL, or a value.
pub data Outcome : Type 0 where
  oops : Outcome
  ret : ℤ → Outcome

abbrev pub call : Call → Module → Module
call c m = record m { calls = m.calls ++ (c ∷ []) }

-- From the registration of the video device on.
init_vdev : ℤ → ℕ → ℕ → Module → Outcome × Module
init_vdev r d v m = if is_neg r then (ret (minus 1), m) else (
  ret (pos 0),
  let n = call (video_register_device (allocated v)) m in
      record n { fake_vid_list = n.fake_vid_list ++ (d ∷ []) },
)

-- From the allocation of the video device on.
init_alloc : Option ℕ → ℤ → ℕ → Module → Outcome × Module
unfolding init_vdev
init_alloc none r d m = (ret (minus enomem), m)
init_alloc (some v) r d m = init_vdev r d v (call (video_device_alloc v) m)

-- From the allocation of the device on. `memset(vq, 0, sizeof(*vq))` comes before any test of the
-- pointer, and the test of `v4l2dev`, the address of a member, never fails.
init_dev : Option ℕ → Answers → Module → Outcome × Module
unfolding init_alloc
init_dev none a m = (oops, m)
init_dev (some d) a m =
    let n = call (kzalloc d) m in
    if is_neg a.v4l2_device_register_ret
    then (ret (minus 1), n)
    else init_alloc a.video_device_alloc_ret a.video_register_device_ret d
        (call (v4l2_device_register d) n)

unfoldable pub v4l2_init : Answers → Module → Outcome × Module
unfolding init_dev
v4l2_init a m = init_dev a.kzalloc_ret a m

-- The loop of `v4l2_exit`, over the list.
exit_all : List ℕ → Module → Module
exit_all [] m = record m { fake_vid_list = [] }
exit_all (d ∷ rest) m = exit_all rest (
    call (kfree d) (
      call (v4l2_device_unregister d)
        (call (video_unregister_device (member d)) (record m { fake_vid_list = rest }))))

unfoldable pub v4l2_exit : Module → Module
unfolding exit_all
v4l2_exit m = exit_all m.fake_vid_list m

-- The data that `v4l2_init` writes into a device; frames and memory are as they were.
unfoldable pub init_device : (ℕ → SingleFrame) → (ℕ → ℕ) → FakeVidDevice
init_device frames memory = record {
  active = [];
  kthread = null;
  slock = false;
  fmt = rgb24_fmt;
  width = 640;
  height = 480;
  pixelsize = 3;
  frames = frames;
  memory = memory;
  pc = not_started;
  done = [];
}
