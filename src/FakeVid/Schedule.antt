-- ===== src/FakeVid/Schedule.antt =====
-- lkml/v4l2/vid4linux.c: the operations as they interleave with the thread. A schedule is a list
-- of events; what videobuf2 and the scheduler decide is in the events.
use bbblack.Base.{ℕ, ◌≡◌, Bool, true, false, List, [], ◌∷◌, ◌++◌, map}
use bbblack.FakeVid.State.{
  FakeVidDevice, Kthread, null, task, err_ptr, Pc, not_started, loop_head, holding, Vb2, held,
  BufState,
}
use bbblack.FakeVid.Queue.{RunResult, buf_queue, start_streaming}
use bbblack.FakeVid.Thread.{thread_turn, stop_streaming}

pub data Event : Type 0 where
  queue : ℕ → Event
  start : RunResult → Event
  turn : Bool → Event
  stop : Event

abbrev pub queued : List Event → List ℕ
queued [] = []
queued (queue b ∷ es) = b ∷ queued es
queued (_ ∷ es) = queued es

abbrev pub returned_to_vb2 : FakeVidDevice → List ℕ
returned_to_vb2 dev = map (λ (p : ℕ × BufState). p.0) dev.done

-- All buffers that the driver has been given: those handed back, in the order in which that was
-- done, then the one that the thread holds, then those on the list.
abbrev pub ledger : FakeVidDevice → List ℕ
ledger dev = returned_to_vb2 dev ++ (held dev.pc ++ dev.active)

-- The thread exists and has not returned.
abbrev pub is_running : Pc → Bool
is_running loop_head = true
is_running (holding b) = true
is_running _ = false

-- The thread was created, and may have returned.
abbrev pub was_started : Pc → Bool
was_started not_started = false
was_started _ = true

module _ (vb2 : Vb2) (img : List ℕ) where
  -- The thread from the moment at which `kthread_should_stop` is true: it finishes its buffer.
  unfoldable pub finish : FakeVidDevice → FakeVidDevice
  finish dev = let d = thread_turn vb2 img true dev.pc dev in thread_turn vb2 img true d.pc d

  -- What the kernel documents of `kthread_stop`: the flag is set and the call waits until the
  -- thread function has returned, which it may have done on its own, as long as the task is still there.
  abbrev pub StopsThread : (FakeVidDevice → Kthread → FakeVidDevice) → Type 0
  StopsThread kthread_stop =
      (dev : FakeVidDevice) (t : ℕ)
      → was_started dev.pc ≡ true
      → kthread_stop dev (task t) ≡ finish dev

  module _ (kthread_stop : FakeVidDevice → Kthread → FakeVidDevice) where
    unfoldable pub deliver : FakeVidDevice → Event → FakeVidDevice
    deliver dev (queue b) = buf_queue dev b
    deliver dev (start r) = (start_streaming r dev).1
    deliver dev (turn s) = thread_turn vb2 img s dev.pc dev
    deliver dev stop = stop_streaming kthread_stop dev

    unfoldable pub run : FakeVidDevice → List Event → FakeVidDevice
    run dev [] = dev
    run dev (e ∷ es) = run (deliver dev e) es

    -- When videobuf2 makes the calls: `start_streaming` while no thread runs, `stop_streaming`
    -- when a thread was started, whether or not it has returned since, or there is none.
    abbrev pub Stoppable : Kthread → Pc → Type 0
    Stoppable null pc = is_running pc ≡ false
    Stoppable (task t) pc = was_started pc ≡ true
    Stoppable (err_ptr e) pc = ⊥

    abbrev pub Allowed : FakeVidDevice → Event → Type 0
    Allowed dev (start r) = is_running dev.pc ≡ false
    Allowed dev stop = Stoppable dev.kthread dev.pc
    Allowed dev _ = Unit

    abbrev pub IsLegal : FakeVidDevice → List Event → Type 0
    IsLegal dev [] = Unit
    IsLegal dev (e ∷ es) = Allowed dev e × IsLegal (deliver dev e) es
