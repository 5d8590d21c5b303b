-- ===== src/FakeVid/Thread.antt =====
-- lkml/v4l2/vid4linux.c: `frame_generation_thread`, in the two pieces between which it can be
-- preempted by the other operations, and `stop_streaming`.
use bbblack.Base.{ℕ, ◌+◌, ◌-◌, Bool, true, false, Option, none, some}
use bbblack.Base.{List, [], ◌∷◌, ◌++◌, ◌&&◌, ltb, leb, if◌then◌else◌, get_or, codes}
use bbblack.FakeVid.State.{
  FakeVidDevice, Kthread, null, task, err_ptr, BufState, state_done, state_error, Pc, loop_head,
  holding, returned, Vb2, update,
}
use bbblack.FakeVid.Queue.{spin_lock, spin_unlock}

-- `vb2_buffer_done(&sbuf->vb, state)`: the buffer goes back to videobuf2.
abbrev pub buffer_done : ℕ → BufState → FakeVidDevice → FakeVidDevice
buffer_done b st dev = record dev { done = dev.done ++ ((b, st) ∷ []) }

-- `memcpy(dst, bytes, n)`
abbrev pub memcpy : ℕ → List ℕ → ℕ → (ℕ → ℕ) → ℕ → ℕ
memcpy dst bytes n memory a =
    if leb dst a && ltb a (dst + n) then get_or bytes (a - dst) 0 else memory a

-- `sprintf(img, "...")` into the array `img`, whose later bytes stay as they were on the stack.
abbrev pub sprintf : List ℕ → List ℕ → List ℕ
sprintf [] img = img
sprintf (c ∷ cs) [] = []
sprintf (c ∷ cs) (_ ∷ img) = c ∷ sprintf cs img

-- The text with its NUL.
abbrev pub masquerade : List ℕ
masquerade = codes "Text Masquerading as RGB Data" ++ (0 ∷ [])

-- The critical section, by the list `dmaq->active`. The pointer taken off a list is never NULL.
take_first : List ℕ → FakeVidDevice → FakeVidDevice
take_first [] d = record (spin_unlock d) { pc = returned false }
take_first (b ∷ rest) d = record (spin_unlock (record d { active = rest })) { pc = holding b }

-- Lines 81 to 101: the stop test, and the critical section that takes the first buffer.
unfoldable pub take_buffer : Bool → FakeVidDevice → FakeVidDevice
unfolding take_first
take_buffer true dev = record dev { pc = returned true }
take_buffer false dev = take_first dev.active (spin_lock dev)

module _ (vb2 : Vb2) (img : List ℕ) where
  -- Lines 103 to 113, by what `vb2_plane_vaddr` returned: the frame is written and handed back.
  fill_plane : Option ℕ → ℕ → FakeVidDevice → FakeVidDevice
  fill_plane none b dev = record dev { pc = returned false }
  fill_plane (some vbuf) b dev = buffer_done b state_done (record dev {
    memory = memcpy vbuf (sprintf masquerade img) 128 dev.memory;
    frames = update dev.frames b (record (dev.frames b) { timestamp = 0x555555 });
    pc = loop_head;
  })

  unfoldable pub fill_buffer : ℕ → FakeVidDevice → FakeVidDevice
  unfolding fill_plane
  fill_buffer b dev = fill_plane (vb2.plane_vaddr b) b dev

  -- One turn of the thread; `stop` is what `kthread_should_stop` says.
  unfoldable pub thread_turn : Bool → Pc → FakeVidDevice → FakeVidDevice
  unfolding take_buffer fill_buffer
  thread_turn stop loop_head dev = take_buffer stop dev
  thread_turn stop (holding b) dev = fill_buffer b dev
  thread_turn stop _ dev = dev

-- The loop at the end of `stop_streaming`, over the list.
unfoldable pub return_all : List ℕ → FakeVidDevice → FakeVidDevice
return_all [] dev = record dev { active = [] }
return_all (b ∷ rest) dev =
    return_all rest (buffer_done b state_error (record dev { active = rest }))

-- The `if` of `stop_streaming`. `kthread_stop` belongs to the kernel and is an argument.
unfoldable pub stop_thread :
    (FakeVidDevice → Kthread → FakeVidDevice) → Kthread → FakeVidDevice → FakeVidDevice
stop_thread kthread_stop null dev = dev
stop_thread kthread_stop (task t) dev = record (kthread_stop dev (task t)) { kthread = null }
stop_thread kthread_stop (err_ptr e) dev = record (kthread_stop dev (err_ptr e)) { kthread = null }

unfoldable pub stop_streaming :
    (FakeVidDevice → Kthread → FakeVidDevice) → FakeVidDevice → FakeVidDevice
unfolding stop_thread
stop_streaming kthread_stop dev =
    let d = stop_thread kthread_stop dev.kthread dev in return_all d.active d
