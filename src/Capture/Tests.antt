-- ===== src/Capture/Tests.antt =====
-- lkml/v4l2-app/grabber.c on lkml/v4l2/vid4linux.c: the theorems at a kernel that runs the thread for
-- one frame whenever a buffer is asked for.
use bbblack.Base.{
  ℕ, suc, ◌+◌, ◌*◌, ◌%◌, ◌≤◌, ◌<◌, ◌≡◌, ◌≢◌, ◌⊎◌, refl, sym, append-nil, Bool, true, false, none,
  some, Option, inl, inr, Option-cases, List, [], ◌∷◌, ◌++◌, arith, map, get_elem?, replicate,
  codes, if◌then◌else◌,
}
use bbblack.Base.Int.{pos}
use bbblack.Base.Run.{On}
use bbblack.FakeVid.State.{FakeVidDevice, Kthread, Vb2}
use bbblack.FakeVid.Init.{init_device}
use bbblack.FakeVid.Queue.{started, buf_queue, start_streaming}
use bbblack.FakeVid.Thread.{thread_turn}
use bbblack.FakeVid.Content.{HasText}
use bbblack.FakeVid.Schedule.{
  Event, queue, start, turn, returned_to_vb2, finish, StopsThread, deliver, run,
}
use bbblack.Grabber.Types.{
  mmap, Buffer, Request, qbuf, dqbuf, streamon, clear, mapped, V4l2Buffer, Out, Reply, failed, done,
  Kernel, Env, ◌>>◌, eagain, ok,
}
use bbblack.Grabber.Frames.{attempts, start_capturing, mainloop}
use bbblack.Grabber.Takes.{images}
use bbblack.Capture.Turns.{shown, frames}
use bbblack.Capture.Videobuf2.{View, Videobuf2, Queues, Dequeues, Requeues}
use bbblack.Capture.Start.{capture_rotates}
use bbblack.Capture.Filled.{capture_fills}
use bbblack.Capture.Stall.{stalled_capture_ends}

abbrev vb2 : Vb2
vb2 = record { plane_vaddr = λ b. some (b * 1000000); plane_size = λ _. 921600 }

abbrev img : List ℕ
img = replicate 128 7

abbrev kthread_stop : FakeVidDevice → Kthread → FakeVidDevice
kthread_stop dev k = finish vb2 img dev

stops : StopsThread vb2 img kthread_stop
stops dev t running = refl

has_plane : (b : ℕ) → vb2.plane_vaddr b ≡ none → ⊥
has_plane b e = cc

abbrev fresh : FakeVidDevice
unfolding init_device
fresh = init_device (λ _. record { payload = 0; timestamp = 0; fmt = none }) (λ _. 0)

record World : Type 0 where
  events : List Event
  streams : Bool
  waiting : List ℕ
  taken : ℕ

abbrev view : View World
view = record {
  events = λ w. w.events;
  streams = λ w. w.streams;
  waiting = λ w. w.waiting;
  taken = λ w. w.taken;
}

abbrev device : List Event → FakeVidDevice
device = run vb2 img kthread_stop fresh

abbrev happens : List Event → World → World
happens es w = record w { events = w.events ++ es }

abbrev next_buffer : Option ℕ → World → Reply V4l2Buffer × World
next_buffer none w = (failed eagain, w)
next_buffer (some i) w = (
  done 0 (record (clear mapped) { index = i; bytesused = 128 }),
  record w { taken = suc w.taken },
)

abbrev answer : (r : Request) → World → Reply (Out r) × World
answer (qbuf b) w =
    if w.streams
    then (done 0 tt, happens (queue b.index ∷ []) w)
    else (done 0 tt, record w { waiting = w.waiting ++ (b.index ∷ []) })
answer streamon w = (
  done 0 tt,
  record (happens (map queue w.waiting ++ (start (started 9) ∷ [])) w) { streams = true },
)
answer (dqbuf b) w =
    let v = happens (turn false ∷ turn false ∷ []) w in
    next_buffer (get_elem? (returned_to_vb2 (device v.events)) v.taken) v
answer r w = (failed 22, w)

abbrev K : Kernel World
K = record {
  ioctl = λ fd r w. answer r w;
  read = λ fd addr n w. (failed 22, w);
  select = λ fd w. (done 1 tt, w);
  map_memory = λ len offset w. (none, w);
  unmap_memory = λ addr len w. (true, w);
  allocate = λ size w. (none, w);
  stat_is_chr = λ name w. (some true, w);
  open_file = λ name w. (some 3, w);
  close = λ fd w. (true, w);
}

nothing_more : (w : World) → w.events ≡ w.events ++ []
nothing_more w = sym (append-nil _)

queues :
    (b : V4l2Buffer) (w : World)
    → w.streams ≡ false
    → Queues device view b.index w (answer (qbuf b) w)
queues b w off = rw off (refl, refl, refl, refl)

requeues :
    (b : V4l2Buffer) (w : World)
    → w.streams ≡ true
    → Requeues device view b.index w (answer (qbuf b) w)
requeues b w on = rw on ((queue b.index ∷ [], (tt, tt), refl, refl, refl), refl)

dequeues : (w : World) → w.streams ≡ true → Dequeues device view w (answer (dqbuf (clear mapped)) w)
dequeues w on =
    let v = happens (turn false ∷ turn false ∷ []) w in
    elim (Option-cases (get_elem? (returned_to_vb2 (device v.events)) v.taken)) [
      | inl q ↦ rw q ((turn false ∷ turn false ∷ [], (tt, (tt, tt)), refl, refl, on), refl)
      | inr (i, q) ↦ rw q ((turn false ∷ turn false ∷ [], (tt, (tt, tt)), refl, refl, on), refl, q)
    ]

K-Videobuf2 : Videobuf2 device view K
K-Videobuf2 = record {
  queue_first = λ fd buf w off. queues buf w off;
  stream_on = λ fd w off. (9, [], tt, refl, refl, refl, refl);
  select = λ fd w on. (([], tt, refl, nothing_more w, on), refl);
  dequeue = λ fd w on. dequeues w on;
  requeue = λ fd buf w on. requeues buf w on;
}

abbrev two_buffers : List Buffer
two_buffers = record { start = 65536; length = 4096 } ∷ record { start = 69632; length = 4096 } ∷ []

abbrev with_world : World → Env World
with_world w = record {
  dev_name = codes "/dev/video0";
  io = mmap;
  fd = pos 3;
  buffers = two_buffers;
  array_addr = 1000;
  n_buffers = 2;
  out_buf = 0;
  force_format = 0;
  frame_count = pos 3;
  world = w;
  calls = [];
}

abbrev set_up : Env World
set_up = with_world (record { events = []; streams = false; waiting = []; taken = 0 })

capture_rotates_example :
    On
      (λ _ t. shown t.calls ≡ 65536 ∷ 69632 ∷ 65536 ∷ [])
      (λ t. (m : ℕ) × (shown t.calls ≡ frames 2 two_buffers m))
      ((start_capturing K 5 >> mainloop K 5) set_up)
unfolding fresh
capture_rotates_example =
    capture_rotates vb2 img has_plane kthread_stop stops fresh refl refl view K K-Videobuf2 2
      (omega arith) 5 set_up refl refl refl refl refl refl

planes_apart :
    (b c : ℕ) → b ≢ c → (b * 1000000 + 128 ≤ c * 1000000) ⊎ (c * 1000000 + 128 ≤ b * 1000000)
planes_apart b c h = ground arith

capture_fills_example :
    On
      (λ _ t.
        (shown t.calls ≡ 65536 ∷ 69632 ∷ 65536 ∷ [])
        × ((i : ℕ) → i < 3 → HasText (λ b. b * 1000000) (device t.world.events).memory (i % 2)))
      (λ t.
        (m : ℕ) × (shown t.calls ≡ frames 2 two_buffers m)
        × ((i : ℕ) → i < m → HasText (λ b. b * 1000000) (device t.world.events).memory (i % 2)))
      ((start_capturing K 5 >> mainloop K 5) set_up)
unfolding fresh
capture_fills_example =
    capture_fills (λ b. b * 1000000) img (omega arith) planes_apart vb2 (λ b. refl) kthread_stop
      stops fresh refl refl view K K-Videobuf2 2 (omega arith) 5 set_up refl refl refl refl refl
      refl

-- A stream of two buffers whose thread has written both and has found no third.
abbrev overrun : World
overrun = record {
  events =
      queue 0
      ∷ queue 1
      ∷ start (started 9)
      ∷ turn false
      ∷ turn false
      ∷ turn false
      ∷ turn false
      ∷ turn false
      ∷ [];
  streams = true;
  waiting = [];
  taken = 0;
}

stalled_capture_ends_example :
    On
      (λ _ t. (images t.calls + 0 ≤ 0 + 2) × (0 + 3 ≤ 2))
      (λ t. images t.calls + 0 ≤ 0 + 2)
      (mainloop K 5 (with_world overrun))
unfolding run deliver buf_queue start_streaming thread_turn fresh
stalled_capture_ends_example =
    stalled_capture_ends vb2 img kthread_stop fresh view K K-Videobuf2 5 false (with_world overrun)
      refl refl refl (omega arith)

-- With this kernel the capture returns.
capture_returns :
    let (reply, t) = (start_capturing K 5 >> mainloop K 5) set_up in
    (reply ≡ ok tt) × (images t.calls ≡ 3)
unfolding run deliver buf_queue start_streaming thread_turn fresh start_capturing mainloop attempts
capture_returns = (refl, refl)
