-- ===== src/Capture/Videobuf2.antt =====
-- Between lkml/v4l2-app/grabber.c and lkml/v4l2/vid4linux.c: what videobuf2 documents of the requests
-- that `mainloop` makes, as far as the driver takes part in them.
use bbblack.Base.{
  ℕ, suc, ◌≡◌, refl, ap, Bool, true, false, map, List, [], ◌∷◌, ◌++◌, get_elem?, some, All,
}
use bbblack.Base.Int.{ℤ}
use bbblack.FakeVid.State.{FakeVidDevice, Kthread, Vb2}
use bbblack.FakeVid.Queue.{started}
use bbblack.FakeVid.Schedule.{
  Event, queue, start, turn, stop, queued, returned_to_vb2, deliver, run, IsLegal,
}
use bbblack.FakeVid.Progress.{IsStreaming}
use bbblack.Grabber.Types.{
  qbuf, dqbuf, streamon, clear, mapped, V4l2Buffer, Reply, failed, done, eintr, Kernel,
}

pub queued-append : (es fs : List Event) → queued (es ++ fs) ≡ queued es ++ queued fs
queued-append [] fs = refl
queued-append (queue b ∷ es) fs = ap (λ bs. b ∷ bs) (queued-append es fs)
queued-append (start r ∷ es) fs = queued-append es fs
queued-append (turn s ∷ es) fs = queued-append es fs
queued-append (stop ∷ es) fs = queued-append es fs

module _ (vb2 : Vb2) (img : List ℕ) (kthread_stop : FakeVidDevice → Kthread → FakeVidDevice) where
  pub run-append :
      (es fs : List Event) (dev : FakeVidDevice)
      → run vb2 img kthread_stop dev (es ++ fs)
        ≡ run vb2 img kthread_stop (run vb2 img kthread_stop dev es) fs
  unfolding run
  run-append [] fs dev = refl
  run-append (e ∷ es) fs dev = run-append es fs (deliver vb2 img kthread_stop dev e)

  streaming-IsLegal :
      (fs : List Event) (dev : FakeVidDevice)
      → All IsStreaming fs
      → IsLegal vb2 img kthread_stop dev fs
  streaming-IsLegal [] dev h = tt
  streaming-IsLegal (queue b ∷ fs) dev (_, h) = (tt, streaming-IsLegal fs _ h)
  streaming-IsLegal (turn s ∷ fs) dev (_, h) = (tt, streaming-IsLegal fs _ h)
  streaming-IsLegal (start r ∷ fs) dev h = absurd h.0
  streaming-IsLegal (stop ∷ fs) dev h = absurd h.0

  -- A legal schedule stays one when the stream goes on.
  pub IsLegal-append :
      (es fs : List Event) (dev : FakeVidDevice)
      → IsLegal vb2 img kthread_stop dev es
      → All IsStreaming fs
      → IsLegal vb2 img kthread_stop dev (es ++ fs)
  IsLegal-append [] fs dev ok h = streaming-IsLegal fs dev h
  IsLegal-append (e ∷ es) fs dev (ok, later) h = (ok, IsLegal-append es fs _ later h)

-- What a kernel shows of itself: what the driver's device has gone through since it was made, whether
-- the stream runs, which buffers videobuf2 has been given and has not passed on, and how many buffers
-- VIDIOC_DQBUF has given to the program.
pub record View (W : Type 0) : Type 0 where
  pub events : W → List Event
  pub streams : W → Bool
  pub waiting : W → List ℕ
  pub taken : W → ℕ

-- `device` is the driver's device after a history.
module _ {W : Type 0} (device : List Event → FakeVidDevice) (view : View W) where
  open view use {events, streams, waiting, taken}

  -- From `w` to `v` the thread has run, and the driver was given the buffers `bs`.
  abbrev pub Moves : List ℕ → W → W → Type 0
  Moves bs w v =
      (es : List Event) × All IsStreaming es
      × (queued es ≡ bs)
      × (events v ≡ events w ++ es)
      × (streams v ≡ true)

  -- Nothing was given or taken.
  abbrev pub Waits : W → W → Type 0
  Waits w v = Moves [] w v × (taken v ≡ taken w)

  abbrev pub Dequeues : W → Reply V4l2Buffer × W → Type 0
  Dequeues w (failed e, v) = Waits w v
  Dequeues w (done r buf, v) =
      Moves [] w v
      × (taken v ≡ suc (taken w))
      × (get_elem? (returned_to_vb2 (device (events v))) (taken w) ≡ some buf.index)

  abbrev pub Requeues : ℕ → W → Reply Unit × W → Type 0
  Requeues b w (failed e, v) = Waits w v
  Requeues b w (done r u, v) = Moves (b ∷ []) w v × (taken v ≡ taken w)

  -- Before the stream: the driver has no part in it.
  abbrev pub Rests : List ℕ → W → W → Type 0
  Rests bs w v =
      (events v ≡ events w)
      × (streams v ≡ false)
      × (waiting v ≡ waiting w ++ bs)
      × (taken v ≡ taken w)

  abbrev pub Queues : ℕ → W → Reply Unit × W → Type 0
  Queues b w (failed e, v) = Rests [] w v
  Queues b w (done r u, v) = Rests (b ∷ []) w v

  -- The buffers are passed on in order, then `start_streaming` is called, and the thread may run.
  abbrev pub Starts : W → W → Type 0
  Starts w v =
      (t : ℕ) × (es : List Event) × All IsStreaming es
      × (queued es ≡ [])
      × (events v ≡ events w ++ (map queue (waiting w) ++ (start (started t) ∷ es)))
      × (streams v ≡ true)
      × (taken v ≡ taken w)

  abbrev pub StreamsOn : W → Reply Unit × W → Type 0
  StreamsOn w (failed e, v) = e ≡ eintr → Rests [] w v
  StreamsOn w (done r u, v) = Starts w v

  -- VIDIOC_QBUF keeps a buffer until the stream starts, and then passes it on to the driver at once.
  -- VIDIOC_STREAMON passes on those that were kept; if it is interrupted it has done nothing.
  -- VIDIOC_DQBUF gives the buffers that the driver handed back in the order in which it did, each
  -- once. The thread of the driver may run during any call.
  pub record Videobuf2 (K : Kernel W) : Type 0 where
    pub queue_first :
        (fd : ℤ) (buf : V4l2Buffer) (w : W)
        → streams w ≡ false
        → Queues buf.index w (K.ioctl fd (qbuf buf) w)
    pub stream_on : (fd : ℤ) (w : W) → streams w ≡ false → StreamsOn w (K.ioctl fd streamon w)
    pub select : (fd : ℤ) (w : W) → streams w ≡ true → Waits w (K.select fd w).1
    pub dequeue :
        (fd : ℤ) (w : W) → streams w ≡ true → Dequeues w (K.ioctl fd (dqbuf (clear mapped)) w)
    pub requeue :
        (fd : ℤ) (buf : V4l2Buffer) (w : W)
        → streams w ≡ true
        → Requeues buf.index w (K.ioctl fd (qbuf buf) w)
