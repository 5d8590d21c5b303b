-- ===== src/Capture/Filled.antt =====
-- lkml/v4l2-app/grabber.c on lkml/v4l2/vid4linux.c: what is in the buffers that a capture processes.
use bbblack.Base.{
  ℕ, zero, suc, ◌+◌, ◌%◌, ◌≤◌, ◌<◌, ◌≡◌, refl, sym, ◌∙◌, ◌≢◌, ◌⊎◌, inl, inr, Bool, true, false,
  none, some, Option-cases, List, [], ◌∷◌, ◌++◌, append-nil, arith, length, get_elem?, map, All,
  All-append,
}
use bbblack.Base.Word.{to_u32}
use bbblack.Base.Run.{On, On-map}
use bbblack.FakeVid.State.{
  FakeVidDevice, Kthread, BufState, state_done, state_error, Pc, not_started, loop_head, holding,
  returned, Vb2, held,
}
use bbblack.FakeVid.Queue.{started, failed, buf_queue, start_streaming}
use bbblack.FakeVid.Thread.{thread_turn}
use bbblack.FakeVid.Schedule.{
  Event, queue, start, turn, stop, ledger, is_running, StopsThread, deliver, run,
}
use bbblack.FakeVid.Content.{HasText, IsFilled, run-AllFilled}
use bbblack.Grabber.Types.{mmap, Kernel, Env, ◌>>◌}
use bbblack.Grabber.Frames.{start_capturing, mainloop}
use bbblack.Capture.Turns.{shown, frames}
use bbblack.Capture.Videobuf2.{View, Videobuf2}
use bbblack.Capture.Handed.{NotStop}
use bbblack.Capture.Along.{Caught}
use bbblack.Capture.Start.{captures}

abbrev IsDone : ℕ × BufState → Type 0
IsDone (b, s) = s ≡ state_done

module _ (vb2 : Vb2) (img : List ℕ) (kthread_stop : FakeVidDevice → Kthread → FakeVidDevice) where
  turn-IsDone :
      (s : Bool) (pc : Pc) (active : List ℕ) (dev : FakeVidDevice)
      → dev.active ≡ active
      → All IsDone dev.done
      → All IsDone (thread_turn vb2 img s pc dev).done
  unfolding thread_turn
  turn-IsDone s not_started active dev a h = h
  turn-IsDone s (returned r) active dev a h = h
  turn-IsDone true loop_head active dev a h = h
  turn-IsDone false loop_head [] dev a h = rw a h
  turn-IsDone false loop_head (b ∷ active) dev a h = rw a h
  turn-IsDone s (holding b) active dev a h = elim (Option-cases (vb2.plane_vaddr b)) [
    | inl q ↦ rw (q, thread_turn) h
    | inr (v, q) ↦
        rw (q, thread_turn) (All-append IsDone dev.done ((b, state_done) ∷ []) h (refl, tt))
  ]

  -- Without a stop no buffer is handed back with an error.
  run-IsDone :
      (es : List Event) (dev : FakeVidDevice)
      → All NotStop es
      → All IsDone dev.done
      → All IsDone (run vb2 img kthread_stop dev es).done
  unfolding run deliver buf_queue start_streaming
  run-IsDone [] dev k h = h
  run-IsDone (queue b ∷ es) dev (_, k) h = run-IsDone es (buf_queue dev b) k h
  run-IsDone (start (started t) ∷ es) dev (_, k) h = run-IsDone es _ k h
  run-IsDone (start (failed n) ∷ es) dev (_, k) h = run-IsDone es _ k h
  run-IsDone (turn s ∷ es) dev (_, k) h =
      run-IsDone es (thread_turn vb2 img s dev.pc dev) k
        (turn-IsDone s dev.pc dev.active dev refl h)
  run-IsDone (stop ∷ es) dev (k, _) h = absurd k

module _ (addr : ℕ → ℕ) (memory : ℕ → ℕ) where
  HasText-at :
      (ps : List (ℕ × BufState)) (i b : ℕ)
      → All (IsFilled addr memory) ps
      → All IsDone ps
      → get_elem? (map (λ (p : ℕ × BufState). p.0) ps) i ≡ some b
      → HasText addr memory b
  HasText-at [] i b f d h = cc
  HasText-at ((c, state_error) ∷ ps) i b f (d, ds) h = cc
  HasText-at ((c, state_done) ∷ ps) zero b (f, fs) d h = let same : c ≡ b = cc in rw same at f
  HasText-at ((c, state_done) ∷ ps) (suc i) b (f, fs) (d, ds) h = HasText-at ps i b fs ds h

none_done :
    (dev : FakeVidDevice) (ps : List (ℕ × BufState))
    → dev.done ≡ ps
    → ledger dev ≡ []
    → dev.done ≡ []
none_done dev [] e h = e
none_done dev (p ∷ ps) e h =
    let none_left : p.0 ∷ (map (λ (q : ℕ × BufState). q.0) ps ++ (held dev.pc ++ dev.active)) ≡ [] =
      rw e at h in
    cc

module _ (addr : ℕ → ℕ) (img : List ℕ) (room : 30 ≤ length img)
    (apart : (b c : ℕ) → b ≢ c → (addr b + 128 ≤ addr c) ⊎ (addr c + 128 ≤ addr b)) (vb2 : Vb2)
    (planes : (b : ℕ) → vb2.plane_vaddr b ≡ some (addr b))
    (kthread_stop : FakeVidDevice → Kthread → FakeVidDevice)
    (stops : StopsThread vb2 img kthread_stop) (dev : FakeVidDevice) (unused : ledger dev ≡ [])
    (idle : is_running dev.pc ≡ false) where
  has_plane : (b : ℕ) → vb2.plane_vaddr b ≢ none
  has_plane b e = let p = planes b in cc

  module _ {W : Type 0} (view : View W) (K : Kernel W)
      (V : Videobuf2 (run vb2 img kthread_stop dev) view K) (n : ℕ) (some_buffer : 1 ≤ n) where
    open view use {events, streams, waiting, taken}

    -- The buffers of the frames number 0 to m - 1 hold the text in the driver's memory.
    abbrev pub Hold : ℕ → W → Type 0
    Hold m w =
        (i : ℕ) → i < m → HasText addr (run vb2 img kthread_stop dev (events w)).memory (i % n)

    Hold-Caught :
        (s t : Env W) (m : ℕ)
        → Caught vb2 img kthread_stop dev view n s.buffers (shown s.calls) m t
        → Hold m t.world
    Hold-Caught s t m h i lt =
        let d = run vb2 img kthread_stop dev (events t.world) in
        let nothing : dev.done ≡ [] = none_done dev dev.done refl unused in
        HasText-at addr d.memory d.done i (i % n)
          (run-AllFilled addr img room apart vb2 planes kthread_stop stops (events t.world) dev
            h.legal (rw nothing tt))
          (run-IsDone vb2 img kthread_stop (events t.world) dev h.only (rw nothing tt))
          (h.known i lt)

    -- A capture by `start_capturing` and `mainloop` from n mapped buffers, of which there is one or more,
    -- processes the buffers 0 to n-1 in turn, over and over, and when it ends, in whatever way, every
    -- buffer that it processed holds the driver's text and its NUL, from its address in the memory of the
    -- driver on. If it returns it has processed as many frames as frame_count says, read as an unsigned
    -- number. It is for a stream that has not begun, on a device of the fake driver that was given no
    -- buffer and has no thread, where the buffers are 128 bytes or more apart, the array on the stack has
    -- room for the text, `kthread_stop` waits for the thread, and videobuf2 does what it documents.
    pub capture_fills :
        (fuel : ℕ) (s : Env W)
        → s.io ≡ mmap
        → s.n_buffers ≡ n
        → events s.world ≡ []
        → streams s.world ≡ false
        → waiting s.world ≡ []
        → taken s.world ≡ 0
        → On
            (λ _ t.
              (shown t.calls ≡ shown s.calls ++ frames n s.buffers (to_u32 s.frame_count))
              × Hold (to_u32 s.frame_count) t.world)
            (λ t.
              (m : ℕ) × (shown t.calls ≡ shown s.calls ++ frames n s.buffers m) × Hold m t.world)
            ((start_capturing K fuel >> mainloop K fuel) s)
    capture_fills fuel s io count new off kept took =
        On-map _ _ _ _ ((start_capturing K fuel >> mainloop K fuel) s)
          (captures vb2 img has_plane kthread_stop stops dev unused idle view K V n some_buffer fuel
            s io count new off kept took)
          (λ _ t h. (h.showed, Hold-Caught s t (to_u32 s.frame_count) h))
          (λ t h. elim h [
            | inl e ↦ (0, e ∙ sym (append-nil _), λ i lt. absurd (omega arith))
            | inr (m, h) ↦ (m, h.showed, Hold-Caught s t m h)
          ])
