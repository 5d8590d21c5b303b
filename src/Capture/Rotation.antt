-- ===== src/Capture/Rotation.antt =====
-- lkml/v4l2-app/grabber.c on lkml/v4l2/vid4linux.c: the order in which the frames are processed.
use bbblack.Base.{
  true, ℕ, suc, ◌+◌, ◌%◌, ◌≤◌, All, ◌≡◌, refl, sym, ◌∙◌, ap, ◌≢◌, none, some, List, [], ◌++◌,
  append-nil, arith, get_elem?,
}
use bbblack.Base.Word.{to_u32}
use bbblack.Base.Run.{On, On-map}
use bbblack.FakeVid.State.{FakeVidDevice, Kthread, Vb2, held}
use bbblack.FakeVid.Schedule.{Event, queued, returned_to_vb2, ledger, StopsThread, run, IsLegal}
use bbblack.FakeVid.Order.{run_in_order}
use bbblack.Grabber.Types.{
  mmap, Buffer, qbuf, dqbuf, clear, mapped, V4l2Buffer, Reply, failed, done, Kernel, Call, Env,
}
use bbblack.Grabber.Frames.{mainloop}
use bbblack.Grabber.Asks.{After, calling}
use bbblack.Grabber.Loop.{Rule, mainloop_ind}
use bbblack.Capture.Turns.{rotation, get_elem?_start, get_elem?-append, shown}
use bbblack.Capture.Videobuf2.{Dequeues, View, Videobuf2}
use bbblack.Capture.Handed.{NotStop}
use bbblack.Capture.Along.{
  Known-suc, Known-Moves, IsLegal-after, given_after, moved, waited, requeued, processed, Taken,
  Shown, Ready, Caught, Halted, caught,
}

module _ (vb2 : Vb2) (img : List ℕ) (has_plane : (b : ℕ) → vb2.plane_vaddr b ≢ none)
    (kthread_stop : FakeVidDevice → Kthread → FakeVidDevice)
    (stops : StopsThread vb2 img kthread_stop) (dev : FakeVidDevice)
    (unused : ledger dev ≡ []) where
  -- What the driver handed back stands in the order in which it was queued.
  handed_back_in_order :
      (es : List Event) (i b : ℕ)
      → IsLegal vb2 img kthread_stop dev es
      → get_elem? (returned_to_vb2 (run vb2 img kthread_stop dev es)) i ≡ some b
      → get_elem? (queued es) i ≡ some b
  handed_back_in_order es i b ok h =
      let d = run vb2 img kthread_stop dev es in
      let all : ledger d ≡ queued es =
        run_in_order vb2 img has_plane kthread_stop stops es dev ok ∙ rw unused refl in
      rw all at (get_elem?-append (returned_to_vb2 d) (held d.pc ++ d.active) i b h)

  module _ {W : Type 0} (view : View W) (K : Kernel W)
      (V : Videobuf2 (run vb2 img kthread_stop dev) view K) (n : ℕ) (some_buffer : 1 ≤ n) where
    open view use {events, streams, waiting, taken}

    module _ (bufs : List Buffer) (before : List ℕ) where
      abbrev Before : ℕ → Env W → Type 0
      Before = Ready vb2 img kthread_stop dev view n bufs before

      abbrev During : ℕ → V4l2Buffer → Env W → Type 0
      During = Taken vb2 img kthread_stop dev view n bufs before

      dequeued :
          (k : ℕ) (reply : Reply V4l2Buffer) (w : W) (s : Env W)
          → Before k s
          → Dequeues (run vb2 img kthread_stop dev) view s.world (reply, w)
          → let t : Env W = calling (Call.ioctl (dqbuf (clear mapped))) w s in
            After (Before k) (During k) reply t
      dequeued k (failed e) w s p waits =
          waited vb2 img kthread_stop dev view n bufs before k (n + k) k _ w s p waits refl
      dequeued k (done r buf) w s p (moves, e, first) =
          let found : get_elem? (queued (events w)) k ≡ some buf.index =
            handed_back_in_order (events w) k buf.index
              (IsLegal-after vb2 img kthread_stop dev view n bufs before k (n + k) k [] w s p moves)
              (rw p.took at first) in
          let turn_of : get_elem? (rotation n 0 (n + k)) k ≡ some (k % n) =
            get_elem?_start n (n + k) k (omega arith) in
          let index : some buf.index ≡ some (k % n) =
            sym found
            ∙ (rw
                (given_after vb2 img kthread_stop dev view n bufs before k (n + k) (n + k) k [] w s
                  p moves (append-nil _))
                turn_of) in
          let same : buf.index ≡ k % n = cc in
          (
            moved vb2 img kthread_stop dev view n bufs before k (suc k) (n + k) (n + k) k [] _ w s p
                moves
                (Known-suc vb2 img kthread_stop dev view n k w
                  (Known-Moves vb2 img kthread_stop dev view n k [] s.world w p.known moves)
                  (rw p.took at (rw same at first)))
                (e ∙ ap suc p.took) (append-nil _) refl,
            same,
          )

      rule :
          Rule K Before During
            (Shown vb2 img kthread_stop dev view n bufs before)
            (Halted vb2 img kthread_stop dev view n bufs before)
      rule = record {
        maps = λ k s p. p.maps;
        select = λ k s p.
            waited vb2 img kthread_stop dev view n bufs before k (n + k) k Call.select _ s p
              (V.select s.fd s.world p.on) refl;
        dequeue = λ k s p.
            let (reply, w) = K.ioctl s.fd (dqbuf (clear mapped)) s.world in
            dequeued k reply w s p (V.dequeue s.fd s.world p.on);
        process = processed vb2 img kthread_stop dev view n bufs before;
        requeue = λ k buf s (p, i).
            let (reply, w) = K.ioctl s.fd (qbuf buf) s.world in
            requeued vb2 img kthread_stop dev view n bufs before k buf reply w s (p, i)
              (V.requeue s.fd buf s.world p.on);
        ready_ends = λ k s p.
            (k, caught vb2 img kthread_stop dev view n bufs before k (n + k) k s (omega arith) p);
        taken_ends = λ k buf s (p, i). (
          k,
          caught vb2 img kthread_stop dev view n bufs before (suc k) (n + k) k s (omega arith) p,
        );
        shown_ends = λ k buf s (p, i). (
          suc k,
          caught vb2 img kthread_stop dev view n bufs before (suc k) (n + k) (suc k) s (omega arith)
              p,
        );
      }

    -- The frames are processed in rotation.
    pub mainloop_rotates :
        (fuel : ℕ) (s : Env W)
        → s.io ≡ mmap
        → IsLegal vb2 img kthread_stop dev (events s.world)
        → All NotStop (events s.world)
        → streams s.world ≡ true
        → queued (events s.world) ≡ rotation n 0 n
        → taken s.world ≡ 0
        → On
            (λ _.
              Caught vb2 img kthread_stop dev view n s.buffers
                (shown s.calls)
                (to_u32 s.frame_count))
            (Halted vb2 img kthread_stop dev view n s.buffers (shown s.calls))
            (mainloop K fuel s)
    mainloop_rotates fuel s io ok only running given none_taken =
        let none_more : n + 0 ≡ n = omega arith in
        let none_before : 0 + to_u32 s.frame_count ≡ to_u32 s.frame_count = omega arith in
        On-map
          (λ _.
            Ready vb2 img kthread_stop dev view n s.buffers (shown s.calls)
              (0 + to_u32 s.frame_count))
          _ (Halted vb2 img kthread_stop dev view n s.buffers (shown s.calls)) _ (mainloop K fuel s)
          (mainloop_ind K (rule s.buffers (shown s.calls)) fuel 0 s (record {
            maps = io;
            same = refl;
            legal = ok;
            only = only;
            known = λ i lt. absurd (omega arith);
            on = running;
            took = none_taken;
            gave = rw none_more given;
            showed = sym (append-nil _);
          }))
          (λ _ t p.
            caught vb2 img kthread_stop dev view n s.buffers (shown s.calls) _ _
              (to_u32 s.frame_count) t (omega arith) (rw none_before at p))
          (λ t e. e)
