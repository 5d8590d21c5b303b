-- ===== src/Capture/Along.antt =====
-- lkml/v4l2-app/grabber.c on lkml/v4l2/vid4linux.c: the states between the steps of a capture.
use bbblack.Base.{
  true, ℕ, suc, ◌+◌, ◌%◌, ◌≤◌, ◌<◌, ltb, inl, inr, Bool-cases, All, ◌≡◌, refl, sym, ◌∙◌, ap, some,
  List, [], ◌∷◌, ◌++◌, append_assoc, append-nil, arith, get_elem?,
}
use native.Mathlib.Nat.{add-mod_left}
use bbblack.FakeVid.State.{FakeVidDevice, Kthread, Vb2}
use bbblack.FakeVid.Schedule.{queued, returned_to_vb2, run, IsLegal}
use bbblack.Grabber.Types.{mmap, Buffer, qbuf, V4l2Buffer, Reply, failed, done, Call, Env}
use bbblack.Grabber.Asks.{After, calling, recording}
use bbblack.Capture.Turns.{
  rotation, rotation_start, shown, shown-append, address, address_there, frames, frames-suc,
}
use bbblack.Capture.Videobuf2.{
  queued-append, run-append, IsLegal-append, Moves, Waits, Requeues, View,
}
use bbblack.Capture.Handed.{NotStop, All-NotStop, returned_stay}

module _ (vb2 : Vb2) (img : List ℕ) (kthread_stop : FakeVidDevice → Kthread → FakeVidDevice)
    (dev : FakeVidDevice) {W : Type 0} (view : View W) (n : ℕ) where
  open view use {events, streams, waiting, taken}

  -- The first t buffers that were handed back are those that were queued first.
  abbrev pub Known : ℕ → W → Type 0
  Known t w =
      (i : ℕ)
      → i < t
      → get_elem? (returned_to_vb2 (run vb2 img kthread_stop dev (events w))) i ≡ some (i % n)

  pub Known-suc :
      (t : ℕ) (w : W)
      → Known t w
      → get_elem? (returned_to_vb2 (run vb2 img kthread_stop dev (events w))) t ≡ some (t % n)
      → Known (suc t) w
  Known-suc t w h last i lt = elim (Bool-cases (ltb i t)) [
    | inl q ↦ h i (ground arith)
    | inr q ↦ let same : i ≡ t = ground arith in rw same last
  ]

  pub Known-Moves :
      (t : ℕ) (bs : List ℕ) (w v : W)
      → Known t w
      → Moves (run vb2 img kthread_stop dev) view bs w v
      → Known t v
  Known-Moves t bs w v h (es, streaming, given, later, still) i lt = rw later (
      rw (run-append vb2 img kthread_stop (events w) es dev) (
        returned_stay vb2 img kthread_stop es (run vb2 img kthread_stop dev (events w)) i (i % n)
          streaming (h i lt)))

  -- Of `t` buffers taken, `q` queued in turn, and `m` processed in turn since the calls before
  pub record At (bufs : List Buffer) (before : List ℕ) (t q m : ℕ) (s : Env W) : Type 0 where
    pub maps : s.io ≡ mmap
    pub same : s.buffers ≡ bufs
    pub legal : IsLegal vb2 img kthread_stop dev (events s.world)
    pub on : streams s.world ≡ true
    pub only : All NotStop (events s.world)
    pub known : Known t s.world
    pub took : taken s.world ≡ t
    pub gave : queued (events s.world) ≡ rotation n 0 q
    pub showed : shown s.calls ≡ before ++ frames n bufs m

  module _ (bufs : List Buffer) (before : List ℕ) where
    pub IsLegal-after :
        (t q m : ℕ) (bs : List ℕ) (w : W) (s : Env W)
        → At bufs before t q m s
        → Moves (run vb2 img kthread_stop dev) view bs s.world w
        → IsLegal vb2 img kthread_stop dev (events w)
    IsLegal-after t q m bs w s p (es, streaming, given, later, still) =
        rw later (IsLegal-append vb2 img kthread_stop (events s.world) es dev p.legal streaming)

    pub given_after :
        (t q q' m : ℕ) (bs : List ℕ) (w : W) (s : Env W)
        → At bufs before t q m s
        → Moves (run vb2 img kthread_stop dev) view bs s.world w
        → rotation n 0 q ++ bs ≡ rotation n 0 q'
        → queued (events w) ≡ rotation n 0 q'
    given_after t q q' m bs w s p (es, streaming, given, later, still) more =
        rw later (queued-append (events s.world) es ∙ rw (p.gave, given) more)

    pub moved :
        (t t' q q' m : ℕ) (bs : List ℕ) (c : Call) (w : W) (s : Env W)
        → At bufs before t q m s
        → Moves (run vb2 img kthread_stop dev) view bs s.world w
        → Known t' w
        → taken w ≡ t'
        → rotation n 0 q ++ bs ≡ rotation n 0 q'
        → shown (c ∷ []) ≡ []
        → At bufs before t' q' m (calling c w s)
    moved t t' q q' m bs c w s p moves known e more quiet = record {
      maps = p.maps;
      same = p.same;
      legal = IsLegal-after t q m bs w s p moves;
      only = All-NotStop (events s.world) (events w) p.only moves.0 moves.1 moves.3;
      known = known;
      on = moves.4;
      took = e;
      gave = given_after t q q' m bs w s p moves more;
      showed = shown-append s.calls (c ∷ []) ∙ rw quiet (append-nil _ ∙ p.showed);
    }

    pub waited :
        (t q m : ℕ) (c : Call) (w : W) (s : Env W)
        → At bufs before t q m s
        → Waits (run vb2 img kthread_stop dev) view s.world w
        → shown (c ∷ []) ≡ []
        → At bufs before t q m (calling c w s)
    waited t q m c w s p (moves, e) quiet =
        moved t t q q m [] c w s p moves (Known-Moves t [] s.world w p.known moves) (e ∙ p.took)
          (append-nil _) quiet

    abbrev pub Taken : ℕ → V4l2Buffer → Env W → Type 0
    Taken k buf s = At bufs before (suc k) (n + k) k s × (buf.index ≡ k % n)

    abbrev pub Shown : ℕ → V4l2Buffer → Env W → Type 0
    Shown k buf s = At bufs before (suc k) (n + k) (suc k) s × (buf.index ≡ k % n)

    abbrev pub Ready : ℕ → Env W → Type 0
    Ready k = At bufs before k (n + k) k

    pub requeued :
        (k : ℕ) (buf : V4l2Buffer) (reply : Reply Unit) (w : W) (s : Env W)
        → Shown k buf s
        → Requeues (run vb2 img kthread_stop dev) view buf.index s.world (reply, w)
        → After (Shown k buf) (λ _. Ready (suc k)) reply (calling (Call.ioctl (qbuf buf)) w s)
    requeued k buf (failed e) w s (p, i) waits =
        (waited (suc k) (n + k) (suc k) _ w s p waits refl, i)
    requeued k buf (done r u) w s (p, i) (moves, e) =
        moved (suc k) (suc k) (n + k) (n + suc k) (suc k) (buf.index ∷ []) _ w s p moves
          (Known-Moves (suc k) (buf.index ∷ []) s.world w p.known moves) (e ∙ p.took) again refl
      where
        again : rotation n 0 (n + k) ++ (buf.index ∷ []) ≡ rotation n 0 (n + suc k)
        again =
            let same : n + suc k ≡ suc (n + k) = omega arith in
            rw same (rw (i, sym (add-mod_left n k)) (sym (rotation_start n (n + k))))

    pub processed :
        (k : ℕ) (buf : V4l2Buffer) (b : Buffer) (s : Env W)
        → Taken k buf s
        → get_elem? s.buffers buf.index ≡ some b
        → Shown k buf (recording (Call.process_image b.start buf.bytesused) s)
    processed k buf b s (p, i) there = (
      record {
        maps = p.maps;
        same = p.same;
        legal = p.legal;
        only = p.only;
        known = p.known;
        on = p.on;
        took = p.took;
        gave = p.gave;
        showed =
            shown-append s.calls (Call.process_image b.start buf.bytesused ∷ [])
            ∙ rw (p.showed, where_it_is)
                (append_assoc before (frames n bufs k) _
                  ∙ ap (λ l. before ++ l) (sym (frames-suc n bufs k)));
      },
      i,
    )
      where
        where_it_is : b.start ≡ address bufs (k % n)
        where_it_is =
            let there' : get_elem? bufs (k % n) ≡ some b = rw (p.same, i) at there in
            address_there bufs (k % n) b there'

    -- The frames number 0 to m - 1 were processed, from buffers that the driver handed back.
    pub record Caught (m : ℕ) (s : Env W) : Type 0 where
      pub legal : IsLegal vb2 img kthread_stop dev (events s.world)
      pub only : All NotStop (events s.world)
      pub known : Known m s.world
      pub showed : shown s.calls ≡ before ++ frames n bufs m

    abbrev pub Halted : Env W → Type 0
    Halted s = (m : ℕ) × Caught m s

    pub caught : (t q m : ℕ) (s : Env W) → m ≤ t → At bufs before t q m s → Caught m s
    caught t q m s le p = record {
      legal = p.legal;
      only = p.only;
      known = λ i lt. p.known i (omega arith);
      showed = p.showed;
    }
