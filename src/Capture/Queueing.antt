-- ===== src/Capture/Queueing.antt =====
-- lkml/v4l2-app/grabber.c on lkml/v4l2/vid4linux.c: the buffers before the stream, and its start.
use bbblack.Base.{
  ℕ, zero, suc, ◌+◌, ◌<◌, ◌≡◌, refl, sym, ◌∙◌, ap, true, false, List, [], ◌∷◌, ◌++◌, map,
  append-nil, arith, All, All-mono,
}
use bbblack.Base.Int.{ℤ}
use bbblack.Base.Run.{On, On-and_then}
use native.Mathlib.Nat.{mod-eq_of_lt}
use bbblack.FakeVid.State.{FakeVidDevice, Kthread, Vb2}
use bbblack.FakeVid.Queue.{started, buf_queue}
use bbblack.FakeVid.Schedule.{Event, queue, start, queued, is_running, deliver, run, IsLegal}
use bbblack.FakeVid.Progress.{IsStreaming}
use bbblack.Grabber.Types.{
  IoMethod, mmap, Buffer, qbuf, streamon, clear, mapped, V4l2Buffer, Reply, failed, done, Kernel,
  Call, Env,
}
use bbblack.Grabber.Frames.{queue_mapped, start_by}
use bbblack.Grabber.Asks.{After, Retries, calling, require_ind, require_keep}
use bbblack.Capture.Turns.{rotation, rotation_start, shown, shown-append}
use bbblack.Capture.Videobuf2.{
  queued-append, IsLegal-append, Rests, Queues, StreamsOn, View, Videobuf2,
}
use bbblack.Capture.Handed.{NotStop, NotStop-IsStreaming}

queued_of_queue : (bs : List ℕ) → queued (map queue bs) ≡ bs
queued_of_queue [] = refl
queued_of_queue (b ∷ bs) = ap (λ l. b ∷ l) (queued_of_queue bs)

started-NotStop :
    (bs : List ℕ) (t : ℕ) (es : List Event)
    → All IsStreaming es
    → All NotStop (map queue bs ++ (start (started t) ∷ es))
started-NotStop [] t es h = (tt, All-mono IsStreaming es NotStop-IsStreaming h)
started-NotStop (b ∷ bs) t es h = (tt, started-NotStop bs t es h)

module _ (vb2 : Vb2) (img : List ℕ) (kthread_stop : FakeVidDevice → Kthread → FakeVidDevice) where
  -- The buffers are passed on while no thread runs, and then it is started.
  started-IsLegal :
      (bs : List ℕ) (t : ℕ) (es : List Event) (dev : FakeVidDevice)
      → is_running dev.pc ≡ false
      → All IsStreaming es
      → IsLegal vb2 img kthread_stop dev (map queue bs ++ (start (started t) ∷ es))
  unfolding deliver buf_queue
  started-IsLegal [] t es dev idle h = (idle, IsLegal-append vb2 img kthread_stop [] es _ tt h)
  started-IsLegal (b ∷ bs) t es dev idle h =
      (tt, started-IsLegal bs t es (deliver vb2 img kthread_stop dev (queue b)) idle h)

module _ (vb2 : Vb2) (img : List ℕ) (kthread_stop : FakeVidDevice → Kthread → FakeVidDevice)
    (dev : FakeVidDevice) (idle : is_running dev.pc ≡ false) {W : Type 0} (view : View W)
    (K : Kernel W) (V : Videobuf2 (run vb2 img kthread_stop dev) view K) (n : ℕ) where
  open view use {events, streams, waiting, taken}

  -- The globals that a start leaves alone
  pub record Same (bufs : List Buffer) (count : ℤ) (before : List ℕ) (s : Env W) : Type 0 where
    pub maps : s.io ≡ mmap
    pub same : s.buffers ≡ bufs
    pub counts : s.frame_count ≡ count
    pub showed : shown s.calls ≡ before

  -- The first i buffers are queued, and the stream does not run yet.
  pub record Queued (bufs : List Buffer) (count : ℤ) (before : List ℕ) (i : ℕ) (s : Env W)
      : Type 0 where
    pub globals : Same bufs count before s
    pub new : events s.world ≡ []
    pub off : streams s.world ≡ false
    pub kept : waiting s.world ≡ rotation n 0 i
    pub took : taken s.world ≡ 0

  pub record Started (bufs : List Buffer) (count : ℤ) (before : List ℕ) (s : Env W) : Type 0 where
    pub globals : Same bufs count before s
    pub legal : IsLegal vb2 img kthread_stop dev (events s.world)
    pub only : All NotStop (events s.world)
    pub on : streams s.world ≡ true
    pub gave : queued (events s.world) ≡ rotation n 0 n
    pub took : taken s.world ≡ 0

  module _ (bufs : List Buffer) (count : ℤ) (before : List ℕ) where
    Same-calling :
        (c : Call) (w : W) (s : Env W)
        → Same bufs count before s
        → shown (c ∷ []) ≡ []
        → Same bufs count before (calling c w s)
    Same-calling c w s g quiet = record {
      maps = g.maps;
      same = g.same;
      counts = g.counts;
      showed = shown-append s.calls (c ∷ []) ∙ rw quiet (append-nil _ ∙ g.showed);
    }

    rested :
        (i j : ℕ) (bs : List ℕ) (c : Call) (w : W) (s : Env W)
        → Queued bufs count before i s
        → Rests (run vb2 img kthread_stop dev) view bs s.world w
        → rotation n 0 i ++ bs ≡ rotation n 0 j
        → shown (c ∷ []) ≡ []
        → Queued bufs count before j (calling c w s)
    rested i j bs c w s p (e, o, k, t) more quiet = record {
      globals = Same-calling c w s p.globals quiet;
      new = e ∙ p.new;
      off = o;
      kept = k ∙ rw p.kept more;
      took = t ∙ p.took;
    }

    queue_first_lem :
        (i : ℕ) (buf : V4l2Buffer) (reply : Reply Unit) (w : W) (s : Env W)
        → buf.index ≡ i
        → i < n
        → Queued bufs count before i s
        → Queues (run vb2 img kthread_stop dev) view buf.index s.world (reply, w)
        → After
            (Queued bufs count before i)
            (λ _. Queued bufs count before (suc i))
            reply
            (calling (Call.ioctl (qbuf buf)) w s)
    queue_first_lem i buf (failed e) w s q h p rests =
        rested i i [] _ w s p rests (append-nil _) refl
    queue_first_lem i buf (done r u) w s q h p rests =
        rested i (suc i) (buf.index ∷ []) _ w s p rests
          (rw q (sym (rw (mod-eq_of_lt h) at (rotation_start n i)))) refl

    abbrev pub Ends : Env W → Type 0
    Ends s = shown s.calls ≡ before

    queue_mapped_lem :
        (fuel m i : ℕ) (s : Env W)
        → i + m ≡ n
        → Queued bufs count before i s
        → On (λ _. Queued bufs count before n) Ends (queue_mapped K fuel m i s)
    unfolding queue_mapped
    queue_mapped_lem fuel zero i s e p = let same : i ≡ n = omega arith in rw same at p
    queue_mapped_lem fuel (suc m) i s e p =
        let buf = record (clear mapped) { index = i } in
        On-and_then (λ _. Queued bufs count before (suc i)) (λ _. Queued bufs count before n) Ends _
          (λ _. queue_mapped K fuel m (suc i))
          (require_keep K fuel (qbuf buf) (Queued bufs count before i) Ends
            (λ _. Queued bufs count before (suc i)) (λ u q. q.globals.showed)
            (λ u q.
              queue_first_lem i buf _ _ u refl (omega arith) q
                (V.queue_first u.fd buf u.world q.off))
            s p)
          (λ _ t q. queue_mapped_lem fuel m (suc i) t (omega arith) q)

    streamed_on :
        (reply : Reply Unit) (w : W) (s : Env W)
        → Queued bufs count before n s
        → StreamsOn (run vb2 img kthread_stop dev) view s.world (reply, w)
        → Retries
            (Queued bufs count before n)
            Ends
            (λ _. Started bufs count before)
            reply
            (calling (Call.ioctl streamon) w s)
    streamed_on (failed e) w s p rests = (
      λ i. rested n n [] _ w s p (rests i) (append-nil _) refl,
      (Same-calling (Call.ioctl streamon) w s p.globals refl).showed,
    )
    streamed_on (done r u) w s p (t, es, streaming, given, later, o, tk) =
        let history : events w ≡ map queue (rotation n 0 n) ++ (start (started t) ∷ es) =
          later ∙ rw (p.new, p.kept) refl in
        record {
          globals = Same-calling (Call.ioctl streamon) w s p.globals refl;
          legal =
              rw history
                (started-IsLegal vb2 img kthread_stop (rotation n 0 n) t es dev idle streaming);
          only = rw history (started-NotStop (rotation n 0 n) t es streaming);
          on = o;
          gave = rw history (
              queued-append (map queue (rotation n 0 n)) _
              ∙ rw (given, queued_of_queue (rotation n 0 n)) (append-nil _));
          took = tk ∙ p.took;
        }

    pub start_by_lem :
        (fuel : ℕ) (io : IoMethod) (k : ℕ) (s : Env W)
        → io ≡ mmap
        → k ≡ n
        → Queued bufs count before 0 s
        → On (λ _. Started bufs count before) Ends (start_by K fuel io k s)
    unfolding start_by
    start_by_lem fuel io k s e e' p =
        rw (e, e')
          (On-and_then (λ _. Queued bufs count before n) (λ _. Started bufs count before) Ends
            (queue_mapped K fuel n 0 s) _ (queue_mapped_lem fuel n 0 s (omega arith) p)
            (λ _ t q.
              require_ind K fuel streamon (Queued bufs count before n) Ends
                (λ _. Started bufs count before) (λ u q. q.globals.showed)
                (λ u q. streamed_on _ _ u q (V.stream_on u.fd u.world q.off)) t q))
