-- ===== src/FakeVid/Order.antt =====
-- lkml/v4l2/vid4linux.c: the buffers that the driver is given, in the order in which they leave it.
use bbblack.Base.{
  ℕ, ◌≡◌, refl, sym, ◌∙◌, ap, ◌≢◌, Bool, true, false, none, inl, inr, Option-cases, List, [], ◌∷◌,
  ◌++◌, append_assoc, append-nil, map-append,
}
use bbblack.FakeVid.State.{
  FakeVidDevice, Kthread, null, task, err_ptr, Pc, not_started, loop_head, holding, returned, Vb2,
  held,
}
use bbblack.FakeVid.Queue.{started, failed, buf_queue, start_streaming}
use bbblack.FakeVid.Thread.{thread_turn, return_all, stop_thread, stop_streaming}
use bbblack.FakeVid.Schedule.{
  Event, queue, start, turn, stop, queued, returned_to_vb2, ledger, is_running, was_started, finish,
  StopsThread, deliver, run, Allowed, IsLegal,
}

ledger-return_all :
    (bs : List ℕ) (dev : FakeVidDevice)
    → returned_to_vb2 (return_all bs dev) ≡ returned_to_vb2 dev ++ bs
unfolding return_all
ledger-return_all [] dev = sym (append-nil _)
ledger-return_all (b ∷ bs) dev = ledger-return_all bs _ ∙ simp (map-append, append_assoc)

pc-return_all :
    (bs : List ℕ) (dev : FakeVidDevice)
    → ((return_all bs dev).pc ≡ dev.pc)
      × ((return_all bs dev).active ≡ [])
      × ((return_all bs dev).kthread ≡ dev.kthread)
unfolding return_all
pc-return_all [] dev = (refl, refl, refl)
pc-return_all (b ∷ bs) dev = pc-return_all bs _

pub held_of_idle : (pc : Pc) → is_running pc ≡ false → held pc ≡ []
held_of_idle loop_head e = cc
held_of_idle (holding b) e = cc
held_of_idle _ e = refl

pub queued-cons : (e : Event) (es : List Event) → queued (e ∷ []) ++ queued es ≡ queued (e ∷ es)
queued-cons (queue b) es = refl
queued-cons _ es = refl

module _ (vb2 : Vb2) (img : List ℕ) (mapped : (b : ℕ) → vb2.plane_vaddr b ≢ none) where
  ledger-turn :
      (s : Bool) (pc : Pc) (active : List ℕ) (dev : FakeVidDevice)
      → dev.pc ≡ pc
      → dev.active ≡ active
      → ledger (thread_turn vb2 img s pc dev) ≡ ledger dev
  unfolding thread_turn
  ledger-turn s not_started active dev e a = refl
  ledger-turn s (returned r) active dev e a = refl
  ledger-turn true loop_head active dev e a = rw e
  ledger-turn false loop_head [] dev e a = rw (e, a)
  ledger-turn false loop_head (b ∷ active) dev e a = rw (e, a)
  ledger-turn s (holding b) active dev e a = elim (Option-cases (vb2.plane_vaddr b)) [
    | inl q ↦ absurd (mapped b q)
    | inr (v, q) ↦ rw (q, thread_turn) (rw e (simp (map-append, append_assoc)))
  ]

  -- `finish` hands back the buffer that the thread holds, if it has not returned, and takes no other.
  finish_lem :
      (pc : Pc) (dev : FakeVidDevice)
      → dev.pc ≡ pc
      → was_started pc ≡ true
      → (is_running (finish vb2 img dev).pc ≡ false)
        × ((finish vb2 img dev).active ≡ dev.active)
        × (returned_to_vb2 (finish vb2 img dev) ≡ returned_to_vb2 dev ++ held dev.pc)
  unfolding finish thread_turn
  finish_lem loop_head dev e r = rw e (refl, refl, sym (append-nil _))
  finish_lem (holding b) dev e r = elim (Option-cases (vb2.plane_vaddr b)) [
    | inl q ↦ absurd (mapped b q)
    | inr (v, q) ↦ rw e (rw (q, thread_turn) (refl, refl, map-append _ _ _))
  ]
  finish_lem not_started dev e r = cc
  finish_lem (returned b) dev e r = rw e (refl, refl, sym (append-nil _))

  module _ (kthread_stop : FakeVidDevice → Kthread → FakeVidDevice)
      (stops : StopsThread vb2 img kthread_stop) where
    pub stopped :
        (dev : FakeVidDevice) (t : Kthread)
        → Allowed vb2 img kthread_stop dev stop
        → dev.kthread ≡ t
        → let d = stop_thread kthread_stop t dev in
          (d.kthread ≡ null)
          × (is_running d.pc ≡ false)
          × (d.active ≡ dev.active)
          × (returned_to_vb2 d ≡ returned_to_vb2 dev ++ held dev.pc)
    unfolding stop_thread
    stopped dev null ok e =
        let idle = rw e at ok in (e, idle, refl, rw (held_of_idle dev.pc idle) (sym (append-nil _)))
    stopped dev (task t) ok e =
        let running = rw e at ok in
        let (p, a, r) = finish_lem dev.pc dev refl running in
        rw (stops dev t running) (refl, p, a, r)
    stopped dev (err_ptr n) ok e = absurd (rw e at ok)

    -- `stop_streaming` leaves no buffer with the driver: the list is empty, no thread runs, and to the
    -- buffers handed back are added, in this order, the one that the thread held and those on the list.
    -- It is for a device whose thread was started, whether or not it has returned since, or that has none;
    -- for buffers that all have an address; and for a `kthread_stop` that waits until the thread has
    -- returned.
    pub stop_streaming_returns_all :
        (dev : FakeVidDevice)
        → Allowed vb2 img kthread_stop dev stop
        → let d = stop_streaming kthread_stop dev in
          (d.active ≡ [])
          × (d.kthread ≡ null)
          × (is_running d.pc ≡ false)
          × (returned_to_vb2 d ≡ ledger dev)
    unfolding stop_streaming
    stop_streaming_returns_all dev ok =
        let d = stop_thread kthread_stop dev.kthread dev in
        let (k, p, a, r) = stopped dev dev.kthread ok refl in
        let (p', a', k') = pc-return_all d.active d in
        (
          a',
          k' ∙ k,
          rw p' p,
          ledger-return_all d.active d
              ∙ rw (r, a) (append_assoc (returned_to_vb2 dev) (held dev.pc) dev.active),
        )

    ledger-deliver :
        (dev : FakeVidDevice) (e : Event)
        → Allowed vb2 img kthread_stop dev e
        → ledger (deliver vb2 img kthread_stop dev e) ≡ ledger dev ++ queued (e ∷ [])
    unfolding deliver buf_queue start_streaming
    ledger-deliver dev (queue b) ok = simp append_assoc
    ledger-deliver dev (start (started t)) ok = rw (held_of_idle dev.pc ok) (sym (append-nil _))
    ledger-deliver dev (start (failed n)) ok = sym (append-nil _)
    ledger-deliver dev (turn s) ok =
        ledger-turn s dev.pc dev.active dev refl refl ∙ sym (append-nil _)
    ledger-deliver dev stop ok =
        let (a, k, p, r) = stop_streaming_returns_all dev ok in
        rw (a, held_of_idle _ p, r) (append-nil _ ∙ sym (append-nil _))

    -- No buffer is lost, doubled or overtaken. Along any schedule of queued buffers, starts while no
    -- thread runs, turns of the thread, and stops when a thread was started, also if it has returned on
    -- its own, or there is none, the buffers handed back, then the one that the thread holds, then those on the list, are those that the
    -- driver had at the start followed by those queued since, in the order in which they were queued. It
    -- is for buffers that all have an address, and for a `kthread_stop` that waits until the thread has
    -- returned.
    pub run_in_order :
        (es : List Event) (dev : FakeVidDevice)
        → IsLegal vb2 img kthread_stop dev es
        → ledger (run vb2 img kthread_stop dev es) ≡ ledger dev ++ queued es
    unfolding run
    run_in_order [] dev ok = sym (append-nil _)
    run_in_order (e ∷ es) dev (ok, later) =
        run_in_order es (deliver vb2 img kthread_stop dev e) later
        ∙ rw (ledger-deliver dev e ok) (
            append_assoc (ledger dev) (queued (e ∷ [])) (queued es)
            ∙ ap (λ l. ledger dev ++ l) (queued-cons e es))
