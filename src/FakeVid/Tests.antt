-- ===== src/FakeVid/Tests.antt =====
-- lkml/v4l2/vid4linux.c: runs of the driver, and its theorems at concrete data.
use bbblack.Base.{ℕ, ◌*◌, ◌≡◌, refl, true, false, none, some, List, [], ◌∷◌, replicate}
use bbblack.Base.Int.{pos}
use bbblack.FakeVid.State.{
  FakeVidDevice, Kthread, null, task, state_done, state_error, loop_head, returned, Vb2,
}
use bbblack.FakeVid.Queue.{started, queue_setup, image_size, start_streaming, buf_queue}
use bbblack.FakeVid.Thread.{thread_turn, stop_streaming, return_all}
use bbblack.FakeVid.Schedule.{
  queued, Event, queue, start, turn, stop, is_running, ledger, returned_to_vb2, finish, StopsThread,
  deliver, run,
}
use bbblack.FakeVid.Init.{Answers, Module, init_device}
use bbblack.FakeVid.Order.{stop_streaming_returns_all, run_in_order}
use bbblack.FakeVid.Refine.{Runs, abstraction, run-Runs}
use bbblack.FakeVid.Progress.{drain, underrun_stalls}

abbrev vb2 : Vb2
vb2 = record { plane_vaddr = λ b. some (b * 1000000); plane_size = λ _. 921600 }

abbrev unmapped : Vb2
unmapped = record { plane_vaddr = λ _. none; plane_size = λ _. 921600 }

abbrev img : List ℕ
img = replicate 128 7

abbrev kthread_stop : FakeVidDevice → Kthread → FakeVidDevice
kthread_stop dev k = finish vb2 img dev

kthread_stop-StopsThread : StopsThread vb2 img kthread_stop
kthread_stop-StopsThread dev t running = refl

mapped : (b : ℕ) → vb2.plane_vaddr b ≡ none → ⊥
mapped b e = cc

abbrev fresh : FakeVidDevice
unfolding init_device
fresh = init_device (λ _. record { payload = 0; timestamp = 0; fmt = none }) (λ _. 0)

-- A device that streams, with the thread at the head of its loop.
abbrev streaming : List ℕ → FakeVidDevice
unfolding init_device
streaming bs = record fresh { active = bs; kthread = task 9; pc = loop_head }

abbrev schedule : List Event
schedule =
    queue 3
    ∷ queue 1
    ∷ start (started 9)
    ∷ turn false
    ∷ turn false
    ∷ queue 2
    ∷ turn false
    ∷ stop
    ∷ []

schedule_ends :
    let d = run vb2 img kthread_stop fresh schedule in
    (d.done ≡ (3, state_done) ∷ (1, state_done) ∷ (2, state_error) ∷ []) × (d.pc ≡ returned true)
unfolding run deliver buf_queue start_streaming thread_turn stop_streaming return_all finish fresh
schedule_ends = (refl, refl)

-- The thread finds the list empty and returns on its own, and the stream is stopped after that.
abbrev underrun : List Event
underrun = queue 3 ∷ start (started 9) ∷ turn false ∷ turn false ∷ turn false ∷ queue 1 ∷ stop ∷ []

run_in_order_example : ledger (run vb2 img kthread_stop fresh underrun) ≡ 3 ∷ 1 ∷ []
unfolding run deliver buf_queue start_streaming thread_turn stop_streaming return_all finish fresh
run_in_order_example =
    run_in_order vb2 img mapped kthread_stop kthread_stop-StopsThread underrun fresh
      (tt, (refl, (tt, (tt, (tt, (tt, (refl, tt)))))))

run-Runs_example :
    Runs
      (queued schedule)
      (abstraction fresh)
      (abstraction (run vb2 img kthread_stop fresh schedule))
unfolding run deliver buf_queue start_streaming thread_turn stop_streaming return_all finish fresh
run-Runs_example =
    run-Runs vb2 img mapped kthread_stop kthread_stop-StopsThread schedule fresh
      (tt, (tt, (refl, (tt, (tt, (tt, (tt, (refl, tt))))))))

stop_streaming_returns_all_example :
    let d = stop_streaming kthread_stop (streaming (4 ∷ 5 ∷ [])) in
    (d.active ≡ [])
    × (d.kthread ≡ null)
    × (is_running d.pc ≡ false)
    × (returned_to_vb2 d ≡ 4 ∷ 5 ∷ [])
unfolding streaming
stop_streaming_returns_all_example =
    stop_streaming_returns_all vb2 img mapped kthread_stop kthread_stop-StopsThread
      (streaming (4 ∷ 5 ∷ [])) refl

drain_example :
    let d =
      run vb2 img kthread_stop
        (streaming (4 ∷ 5 ∷ []))
        (turn false ∷ turn false ∷ turn false ∷ turn false ∷ []) in
    (d.pc ≡ loop_head) × (d.active ≡ []) × (d.done ≡ (4, state_done) ∷ (5, state_done) ∷ [])
unfolding streaming
drain_example = drain vb2 img kthread_stop mapped (4 ∷ 5 ∷ []) (streaming (4 ∷ 5 ∷ [])) refl refl

underrun_stalls_example :
    let d =
      run vb2 img kthread_stop
        (streaming [])
        (turn false ∷ queue 4 ∷ turn false ∷ queue 5 ∷ turn false ∷ []) in
    (d.pc ≡ returned false) × (d.kthread ≡ task 9) × (d.done ≡ []) × (d.active ≡ 4 ∷ 5 ∷ [])
unfolding streaming
underrun_stalls_example =
    underrun_stalls vb2 img kthread_stop (queue 4 ∷ turn false ∷ queue 5 ∷ turn false ∷ [])
      (streaming []) (tt, (tt, (tt, (tt, tt)))) refl refl

-- An image of the device that `v4l2_init` makes has the size that `queue_setup` asks for.
fresh_sizes : (image_size fresh ≡ 921600) × (queue_setup ≡ (1, 921600))
unfolding image_size queue_setup fresh
fresh_sizes = (refl, refl)

abbrev answers : Answers
answers = record {
  kzalloc_ret = some 100;
  v4l2_device_register_ret = pos 0;
  video_device_alloc_ret = some 200;
  video_register_device_ret = pos 0;
}

abbrev unloaded : Module
unloaded = record { fake_vid_list = []; calls = [] }
