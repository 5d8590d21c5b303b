-- ===== src/FakeVid/Queue.antt =====
-- lkml/v4l2/vid4linux.c: the videobuf2 operations that work on one buffer or start the thread.
use bbblack.Base.{ℕ, ◌*◌, ◌%◌, true, false, some, [], ◌∷◌, ◌++◌}
use bbblack.Base.{ltb, if◌then◌else◌}
use bbblack.Base.Int.{ℤ, pos, minus}
use bbblack.Base.Word.{u32_mod}
use bbblack.FakeVid.State.{FakeVidDevice, SingleFrame, task, err_ptr, Vb2, update, loop_head}

abbrev pub enomem : ℕ
enomem = 12

-- `queue_setup`: the number of planes and the size of the first.
unfoldable pub queue_setup : ℕ × ℕ
queue_setup = (1, 640 * 480 * 3)

-- `unsigned int size = dev->width * dev->height * dev->pixelsize`
unfoldable pub image_size : FakeVidDevice → ℕ
image_size dev = dev.width * dev.height % u32_mod * dev.pixelsize % u32_mod

unfoldable pub buf_prepare : Vb2 → FakeVidDevice → ℕ → ℤ × FakeVidDevice
unfolding image_size
buf_prepare vb2 dev vb =
    if ltb (vb2.plane_size vb) (image_size dev)
    then (minus enomem, dev)
    else (pos 0, record dev { frames = update dev.frames vb prepared })
  where
    prepared : SingleFrame
    prepared = record (dev.frames vb) { payload = image_size dev; fmt = some dev.fmt }

-- It only prints.
unfoldable pub buf_init : FakeVidDevice → ℕ → ℤ × FakeVidDevice
buf_init dev vb = (pos 0, dev)

abbrev pub spin_lock : FakeVidDevice → FakeVidDevice
spin_lock dev = record dev { slock = true }

abbrev pub spin_unlock : FakeVidDevice → FakeVidDevice
spin_unlock dev = record dev { slock = false }

-- `list_add_tail(&sbuf->list, &dmaq->active)`. The test of the list after it only prints.
abbrev pub list_add_tail : ℕ → FakeVidDevice → FakeVidDevice
list_add_tail b dev = record dev { active = dev.active ++ (b ∷ []) }

unfoldable pub buf_queue : FakeVidDevice → ℕ → FakeVidDevice
buf_queue dev vb = spin_unlock (list_add_tail vb (spin_lock dev))

-- What `kthread_run` returns: a task, or an error number in a pointer.
pub data RunResult : Type 0 where
  started : ℕ → RunResult
  failed : ℕ → RunResult

-- The pointer is stored before it is tested, so an error stays in `dmaq->kthread`.
unfoldable pub start_frame_generation : RunResult → FakeVidDevice → ℤ × FakeVidDevice
start_frame_generation (started t) dev = (pos 0, record dev { kthread = task t; pc = loop_head })
start_frame_generation (failed e) dev = (minus e, record dev { kthread = err_ptr e })

unfoldable pub start_streaming : RunResult → FakeVidDevice → ℤ × FakeVidDevice
unfolding start_frame_generation
start_streaming r dev = start_frame_generation r dev
