-- ===== src/FakeVid/Refine.antt =====
-- lkml/v4l2/vid4linux.c: the driver against a plain queue.
use mathlib.Core.Path.{subst}
use bbblack.Base.{
  ℕ, ◌≡◌, refl, sym, ◌≢◌, Bool, true, false, none, inl, inr, Option-cases, List, [], ◌∷◌, ◌++◌,
  append_assoc,
}
use bbblack.FakeVid.State.{
  FakeVidDevice, Kthread, null, task, err_ptr, BufState, state_done, state_error, Pc, not_started,
  loop_head, holding, returned, Vb2, held,
}
use bbblack.FakeVid.Queue.{started, failed, buf_queue, start_streaming}
use bbblack.FakeVid.Thread.{thread_turn, return_all, stop_thread, stop_streaming}
use bbblack.FakeVid.Schedule.{
  Event, queue, start, turn, stop, queued, was_started, finish, StopsThread, deliver, run, Allowed,
  IsLegal,
}
use bbblack.FakeVid.Order.{held_of_idle, queued-cons, stopped, stop_streaming_returns_all}

-- The abstract driver: the buffers that wait, and those that were handed back with their states.
pub record Fifo : Type 0 where
  pub waiting : List ℕ
  pub handed_back : List (ℕ × BufState)

abbrev pub fifo : List ℕ → List (ℕ × BufState) → Fifo
fifo q d = record { waiting = q; handed_back = d }

-- What it may do while the buffers of the list are put in: a buffer goes to the end, and the first one
-- is handed back, with a frame or without.
pub data Runs : List ℕ → Fifo → Fifo → Type 0 where
  stay : (a : Fifo) → Runs [] a a
  put :
      (b : ℕ) (bs q : List ℕ) (d : List (ℕ × BufState)) (c : Fifo)
      → Runs bs (fifo (q ++ (b ∷ [])) d) c
      → Runs (b ∷ bs) (fifo q d) c
  serve :
      (b : ℕ) (bs q : List ℕ) (d : List (ℕ × BufState)) (c : Fifo)
      → Runs bs (fifo q (d ++ ((b, state_done) ∷ []))) c
      → Runs bs (fifo (b ∷ q) d) c
  flush :
      (b : ℕ) (bs q : List ℕ) (d : List (ℕ × BufState)) (c : Fifo)
      → Runs bs (fifo q (d ++ ((b, state_error) ∷ []))) c
      → Runs bs (fifo (b ∷ q) d) c

Runs-trans : (bs cs : List ℕ) (x y z : Fifo) → Runs bs x y → Runs cs y z → Runs (bs ++ cs) x z
Runs-trans bs cs x y z (stay a) r = r
Runs-trans bs cs x y z (put b bs' q d c p) r = put b (bs' ++ cs) q d z (Runs-trans bs' cs _ y z p r)
Runs-trans bs cs x y z (serve b bs' q d c p) r =
    serve b (bs ++ cs) q d z (Runs-trans bs cs _ y z p r)
Runs-trans bs cs x y z (flush b bs' q d c p) r =
    flush b (bs ++ cs) q d z (Runs-trans bs cs _ y z p r)

-- The driver as the abstract one: a buffer that the thread holds still waits.
abbrev pub abstraction : FakeVidDevice → Fifo
abstraction dev = fifo (held dev.pc ++ dev.active) dev.done

return_all-Runs :
    (bs : List ℕ) (dev : FakeVidDevice)
    → Runs [] (fifo bs dev.done) (fifo [] (return_all bs dev).done)
unfolding return_all
return_all-Runs [] dev = stay (fifo [] dev.done)
return_all-Runs (b ∷ bs) dev = flush b [] bs dev.done _ (return_all-Runs bs _)

module _ (vb2 : Vb2) (img : List ℕ) (mapped : (b : ℕ) → vb2.plane_vaddr b ≢ none) where
  turn-Runs :
      (s : Bool) (pc : Pc) (active : List ℕ) (dev : FakeVidDevice)
      → dev.pc ≡ pc
      → dev.active ≡ active
      → Runs [] (fifo (held pc ++ active) dev.done) (abstraction (thread_turn vb2 img s pc dev))
  unfolding thread_turn
  turn-Runs s not_started active dev e a = rw e (rw a (stay (fifo active dev.done)))
  turn-Runs s (returned r) active dev e a = rw e (rw a (stay (fifo active dev.done)))
  turn-Runs true loop_head active dev e a = rw a (stay (fifo active dev.done))
  turn-Runs false loop_head [] dev e a = rw (thread_turn, a) (stay (fifo [] dev.done))
  turn-Runs false loop_head (b ∷ active) dev e a =
      rw (thread_turn, a) (stay (fifo (b ∷ active) dev.done))
  turn-Runs s (holding b) active dev e a = elim (Option-cases (vb2.plane_vaddr b)) [
    | inl q ↦ absurd (mapped b q)
    | inr (v, q) ↦ rw (q, thread_turn) (rw a (serve b [] active dev.done _ (stay _)))
  ]

  finish-Runs :
      (pc : Pc) (dev : FakeVidDevice)
      → dev.pc ≡ pc
      → was_started pc ≡ true
      → Runs [] (fifo (held pc ++ dev.active) dev.done) (fifo dev.active (finish vb2 img dev).done)
  unfolding finish thread_turn
  finish-Runs loop_head dev e r = rw e (stay (fifo dev.active dev.done))
  finish-Runs (holding b) dev e r = elim (Option-cases (vb2.plane_vaddr b)) [
    | inl q ↦ absurd (mapped b q)
    | inr (v, q) ↦ rw e (rw (q, thread_turn) (serve b [] dev.active dev.done _ (stay _)))
  ]
  finish-Runs not_started dev e r = cc
  finish-Runs (returned b) dev e r = rw e (stay (fifo dev.active dev.done))

  module _ (kthread_stop : FakeVidDevice → Kthread → FakeVidDevice)
      (stops : StopsThread vb2 img kthread_stop) where
    stop_thread-Runs :
        (dev : FakeVidDevice) (t : Kthread)
        → Allowed vb2 img kthread_stop dev stop
        → dev.kthread ≡ t
        → Runs [] (abstraction dev) (fifo dev.active (stop_thread kthread_stop t dev).done)
    unfolding stop_thread
    stop_thread-Runs dev null ok e =
        rw (held_of_idle dev.pc (rw e at ok)) (stay (fifo dev.active dev.done))
    stop_thread-Runs dev (task t) ok e =
        rw (stops dev t (rw e at ok)) (finish-Runs dev.pc dev refl (rw e at ok))
    stop_thread-Runs dev (err_ptr n) ok e = absurd (rw e at ok)

    stop-Runs :
        (dev : FakeVidDevice)
        → Allowed vb2 img kthread_stop dev stop
        → Runs [] (abstraction dev) (abstraction (stop_streaming kthread_stop dev))
    unfolding stop_streaming
    stop-Runs dev ok =
        let d : FakeVidDevice = stop_thread kthread_stop dev.kthread dev in
        let (none_left, _, idle, _) =
          stop_streaming_returns_all vb2 img mapped kthread_stop stops dev ok in
        let (_, _, same, _) = stopped vb2 img mapped kthread_stop stops dev dev.kthread ok refl in
        let all : Runs [] (fifo d.active d.done) (abstraction (stop_streaming kthread_stop dev)) =
          rw none_left (rw (held_of_idle _ idle) (return_all-Runs d.active d)) in
        Runs-trans [] [] (abstraction dev) (fifo d.active d.done) _
          (subst (λ q. Runs [] (abstraction dev) (fifo q d.done)) (sym same)
            (stop_thread-Runs dev dev.kthread ok refl))
          all

    deliver-Runs :
        (dev : FakeVidDevice) (e : Event)
        → Allowed vb2 img kthread_stop dev e
        → Runs
            (queued (e ∷ []))
            (abstraction dev)
            (abstraction (deliver vb2 img kthread_stop dev e))
    unfolding deliver buf_queue start_streaming
    deliver-Runs dev (queue b) ok =
        put b [] (held dev.pc ++ dev.active) dev.done _
          (rw (append_assoc (held dev.pc) dev.active (b ∷ [])) (stay _))
    deliver-Runs dev (start (started t)) ok =
        rw (held_of_idle dev.pc ok) (stay (fifo dev.active dev.done))
    deliver-Runs dev (start (failed n)) ok = stay (abstraction dev)
    deliver-Runs dev (turn s) ok = turn-Runs s dev.pc dev.active dev refl refl
    deliver-Runs dev stop ok = stop-Runs dev ok

    -- Along any legal schedule the driver does what a plain queue can do: the buffers queued by the schedule
    -- are put in, in their order, and always the first that waits is handed back; a buffer that the
    -- thread holds counts as waiting, the first. It is for buffers that all have an address, and for
    -- a `kthread_stop` that waits for the thread.
    pub run-Runs :
        (es : List Event) (dev : FakeVidDevice)
        → IsLegal vb2 img kthread_stop dev es
        → Runs (queued es) (abstraction dev) (abstraction (run vb2 img kthread_stop dev es))
    unfolding run
    run-Runs [] dev ok = stay (abstraction dev)
    run-Runs (e ∷ es) dev (ok, later) =
        let d : FakeVidDevice = deliver vb2 img kthread_stop dev e in
        subst (λ bs. Runs bs (abstraction dev) (abstraction (run vb2 img kthread_stop d es)))
          (queued-cons e es)
          (Runs-trans (queued (e ∷ [])) (queued es) (abstraction dev) (abstraction d) _
            (deliver-Runs dev e ok) (run-Runs es d later))
