-- ===== src/Capture/Stall.antt =====
-- lkml/v4l2-app/grabber.c on lkml/v4l2/vid4linux.c: a capture whose driver found no buffer.
use bbblack.Base.{
  ℕ, zero, suc, ◌+◌, ◌≤◌, ◌<◌, ◌≡◌, refl, ◌∙◌, ap, Bool, true, some, List, [], ◌∷◌, arith, length,
  get_elem?, map,
}
use bbblack.Base.Word.{to_u32}
use bbblack.Base.Run.{On, On-map}
use bbblack.FakeVid.State.{FakeVidDevice, Kthread, Vb2, returned}
use bbblack.FakeVid.Schedule.{returned_to_vb2, run}
use bbblack.FakeVid.Progress.{stalled_from}
use bbblack.Grabber.Types.{
  mmap, qbuf, dqbuf, clear, mapped, V4l2Buffer, Reply, failed, done, Kernel, Call, Env,
}
use bbblack.Grabber.Frames.{mainloop}
use bbblack.Grabber.Takes.{images, images-append}
use bbblack.Grabber.Asks.{After, calling}
use bbblack.Grabber.Loop.{Rule, mainloop_ind}
use bbblack.Capture.Videobuf2.{run-append, Moves, Waits, Dequeues, Requeues, View, Videobuf2}

get_elem?-lt : (xs : List ℕ) (i a : ℕ) → get_elem? xs i ≡ some a → i < length xs
get_elem?-lt [] i a h = cc
get_elem?-lt (x ∷ xs) zero a h = omega arith
get_elem?-lt (x ∷ xs) (suc i) a h = omega (arith, get_elem?-lt xs i a h)

module _ (vb2 : Vb2) (img : List ℕ) (kthread_stop : FakeVidDevice → Kthread → FakeVidDevice)
    (dev : FakeVidDevice) {W : Type 0} (view : View W) (K : Kernel W)
    (V : Videobuf2 (run vb2 img kthread_stop dev) view K) where
  open view use {events, streams, taken}

  abbrev device : W → FakeVidDevice
  device w = run vb2 img kthread_stop dev (events w)

  module _ (r : Bool) (given : List ℕ) (t0 m0 : ℕ) where
    -- The thread has returned, and of the buffers that it handed back `t` were taken.
    record Stalled (t m : ℕ) (s : Env W) : Type 0 where
      maps : s.io ≡ mmap
      on : streams s.world ≡ true
      over : (device s.world).pc ≡ returned r
      handed : returned_to_vb2 (device s.world) ≡ given
      took : taken s.world ≡ t
      within : t ≤ length given
      counted : images s.calls ≡ m

    goes_on :
        (t m : ℕ) (bs : List ℕ) (w : W) (s : Env W)
        → Stalled t m s
        → Moves (run vb2 img kthread_stop dev) view bs s.world w
        → ((device w).pc ≡ returned r) × (returned_to_vb2 (device w) ≡ given)
    goes_on t m bs w s p (es, streaming, more, later, still) =
        let (over', _, done', _) =
          stalled_from vb2 img kthread_stop es (device s.world) r streaming p.over in
        let history : device w ≡ run vb2 img kthread_stop (device s.world) es =
          ap (run vb2 img kthread_stop dev) later
          ∙ run-append vb2 img kthread_stop (events s.world) es dev in
        (rw history over', rw history (ap (map (λ b. b.0)) done' ∙ p.handed))

    moved :
        (t t' m : ℕ) (bs : List ℕ) (c : Call) (w : W) (s : Env W)
        → Stalled t m s
        → Moves (run vb2 img kthread_stop dev) view bs s.world w
        → taken w ≡ t'
        → t' ≤ length given
        → images (c ∷ []) ≡ 0
        → Stalled t' m (calling c w s)
    moved t t' m bs c w s p moves e le quiet =
        let (_, _, _, _, still) = moves in
        let (over', handed') = goes_on t m bs w s p moves in
        record {
          maps = p.maps;
          on = still;
          over = over';
          handed = handed';
          took = e;
          within = le;
          counted = omega (arith, images-append s.calls (c ∷ []), p.counted);
        }

    waited :
        (t m : ℕ) (c : Call) (w : W) (s : Env W)
        → Stalled t m s
        → Waits (run vb2 img kthread_stop dev) view s.world w
        → images (c ∷ []) ≡ 0
        → Stalled t m (calling c w s)
    waited t m c w s p (moves, e) quiet = moved t t m [] c w s p moves (e ∙ p.took) p.within quiet

    abbrev Ready : ℕ → Env W → Type 0
    Ready k = Stalled (t0 + k) (m0 + k)

    abbrev Taken : ℕ → V4l2Buffer → Env W → Type 0
    Taken k buf = Stalled (t0 + suc k) (m0 + k)

    abbrev Shown : ℕ → V4l2Buffer → Env W → Type 0
    Shown k buf = Stalled (t0 + suc k) (m0 + suc k)

    dequeued :
        (k : ℕ) (reply : Reply V4l2Buffer) (w : W) (s : Env W)
        → Ready k s
        → Dequeues (run vb2 img kthread_stop dev) view s.world (reply, w)
        → After (Ready k) (Taken k) reply (calling (Call.ioctl (dqbuf (clear mapped))) w s)
    dequeued k (failed e) w s p waits = waited (t0 + k) (m0 + k) _ w s p waits refl
    dequeued k (done r' buf) w s p (moves, e, first) =
        let (_, handed') = goes_on (t0 + k) (m0 + k) [] w s p moves in
        let found : get_elem? given (t0 + k) ≡ some buf.index = rw (handed', p.took) at first in
        moved (t0 + k) (t0 + suc k) (m0 + k) [] _ w s p moves (e ∙ rw p.took (omega arith))
          (omega (arith, get_elem?-lt given (t0 + k) buf.index found)) refl

    requeued :
        (k : ℕ) (buf : V4l2Buffer) (reply : Reply Unit) (w : W) (s : Env W)
        → Shown k buf s
        → Requeues (run vb2 img kthread_stop dev) view buf.index s.world (reply, w)
        → After (Shown k buf) (λ _. Ready (suc k)) reply (calling (Call.ioctl (qbuf buf)) w s)
    requeued k buf (failed e) w s p waits = waited (t0 + suc k) (m0 + suc k) _ w s p waits refl
    requeued k buf (done r' u) w s p (moves, e) =
        moved (t0 + suc k) (t0 + suc k) (m0 + suc k) (buf.index ∷ []) _ w s p moves (e ∙ p.took)
          p.within refl

    abbrev Ends : Env W → Type 0
    Ends s = images s.calls + t0 ≤ m0 + length given

    rule : Rule K Ready Taken Shown Ends
    rule = record {
      maps = λ k s p. p.maps;
      select =
          λ k s p. waited (t0 + k) (m0 + k) Call.select _ s p (V.select s.fd s.world p.on) refl;
      dequeue = λ k s p. dequeued k _ _ s p (V.dequeue s.fd s.world p.on);
      process = λ k buf b s p there. record {
        maps = p.maps;
        on = p.on;
        over = p.over;
        handed = p.handed;
        took = p.took;
        within = p.within;
        counted = omega (
          arith,
          images-append s.calls (Call.process_image b.start buf.bytesused ∷ []),
          p.counted,
        );
      };
      requeue = λ k buf s p. requeued k buf _ _ s p (V.requeue s.fd buf s.world p.on);
      ready_ends = λ k s p. omega (arith, p.counted, p.within);
      taken_ends = λ k buf s p. omega (arith, p.counted, p.within);
      shown_ends = λ k buf s p. omega (arith, p.counted, p.within);
    }

  -- Once the driver's thread has returned in the middle of a stream of mapped buffers, `mainloop`
  -- processes at most the frames that were handed back before and are not taken yet, however it ends, and
  -- it returns only if these are as many as frame_count says, or more; where videobuf2 does what it
  -- documents, and the program has taken no more buffers than were handed back.
  pub stalled_capture_ends :
      (fuel : ℕ) (r : Bool) (s : Env W)
      → s.io ≡ mmap
      → streams s.world ≡ true
      → let d = run vb2 img kthread_stop dev (events s.world) in
        d.pc ≡ returned r
        → taken s.world ≤ length (returned_to_vb2 d)
        → On
            (λ _ t.
              (images t.calls + taken s.world ≤ images s.calls + length (returned_to_vb2 d))
              × (taken s.world + to_u32 s.frame_count ≤ length (returned_to_vb2 d)))
            (λ t. images t.calls + taken s.world ≤ images s.calls + length (returned_to_vb2 d))
            (mainloop K fuel s)
  stalled_capture_ends fuel r s io on over some_left =
      let given = returned_to_vb2 (run vb2 img kthread_stop dev (events s.world)) in
      let t0 = taken s.world in
      let m0 = images s.calls in
      On-map (λ _. Ready r given t0 m0 (0 + to_u32 s.frame_count)) _ (Ends r given t0 m0) _
        (mainloop K fuel s)
        (mainloop_ind K (rule r given t0 m0) fuel 0 s (record {
          maps = io;
          on = on;
          over = over;
          handed = refl;
          took = omega arith;
          within = omega (arith, some_left);
          counted = omega arith;
        }))
        (λ _ t p. (omega (arith, p.counted, p.within), omega (arith, p.within))) (λ t e. e)
