-- ===== src/Capture/Start.antt =====
-- lkml/v4l2-app/grabber.c on lkml/v4l2/vid4linux.c: a capture from its start.
use bbblack.Base.{
  ℕ, ◌≤◌, ◌≡◌, refl, sym, ◌∙◌, ◌≢◌, false, none, List, [], ◌++◌, append-nil, ◌⊎◌, inl, inr,
}
use bbblack.Base.Word.{to_u32}
use bbblack.Base.Run.{On, On-map, On-and_then}
use bbblack.FakeVid.State.{FakeVidDevice, Kthread, Vb2}
use bbblack.FakeVid.Schedule.{ledger, is_running, StopsThread, run}
use bbblack.Grabber.Types.{mmap, Buffer, Kernel, Env, ◌>>◌}
use bbblack.Grabber.Frames.{start_by, start_capturing, mainloop}
use bbblack.Capture.Turns.{shown, frames}
use bbblack.Capture.Videobuf2.{View, Videobuf2}
use bbblack.Capture.Along.{Caught, Halted}
use bbblack.Capture.Rotation.{mainloop_rotates}
use bbblack.Capture.Queueing.{Started, Ends, start_by_lem}

module _ (vb2 : Vb2) (img : List ℕ) (has_plane : (b : ℕ) → vb2.plane_vaddr b ≢ none)
    (kthread_stop : FakeVidDevice → Kthread → FakeVidDevice)
    (stops : StopsThread vb2 img kthread_stop) (dev : FakeVidDevice) (unused : ledger dev ≡ [])
    (idle : is_running dev.pc ≡ false) where
  module _ {W : Type 0} (view : View W) (K : Kernel W)
      (V : Videobuf2 (run vb2 img kthread_stop dev) view K) (n : ℕ) (some_buffer : 1 ≤ n) where
    open view use {events, streams, waiting, taken}

    -- Where a capture may end: before its stream began, or in it.
    abbrev pub Over : List Buffer → List ℕ → Env W → Type 0
    Over bufs before t =
        (shown t.calls ≡ before) ⊎ Halted vb2 img kthread_stop dev view n bufs before t

    pub captures :
        (fuel : ℕ) (s : Env W)
        → s.io ≡ mmap
        → s.n_buffers ≡ n
        → events s.world ≡ []
        → streams s.world ≡ false
        → waiting s.world ≡ []
        → taken s.world ≡ 0
        → On
            (λ _.
              Caught vb2 img kthread_stop dev view n s.buffers
                (shown s.calls)
                (to_u32 s.frame_count))
            (Over s.buffers (shown s.calls))
            ((start_capturing K fuel >> mainloop K fuel) s)
    unfolding start_capturing
    captures fuel s io count new off kept took =
        On-and_then
          (λ _.
            Started vb2 img kthread_stop dev idle view K V n s.buffers s.frame_count
              (shown s.calls))
          _ _ (start_by K fuel s.io s.n_buffers s) (λ _. mainloop K fuel)
          (On-map
            (λ _.
              Started vb2 img kthread_stop dev idle view K V n s.buffers s.frame_count
                (shown s.calls))
            _
            (Ends vb2 img kthread_stop dev idle view K V n s.buffers s.frame_count (shown s.calls))
            _ (start_by K fuel s.io s.n_buffers s)
            (start_by_lem vb2 img kthread_stop dev idle view K V n s.buffers s.frame_count
              (shown s.calls) fuel s.io s.n_buffers s io count
              (record {
                globals = record { maps = io; same = refl; counts = refl; showed = refl };
                new = new;
                off = off;
                kept = kept;
                took = took;
              }))
            (λ _ t p. p) (λ t e. inl e))
          (λ _ t p.
            let g = p.globals in
            On-map _ _ _ _ (mainloop K fuel t)
              (mainloop_rotates vb2 img has_plane kthread_stop stops dev unused view K V n
                some_buffer fuel t g.maps p.legal p.only p.on p.gave p.took)
              (λ _ u h. rw (g.same, g.counts, g.showed) at h)
              (λ u h. inr (rw (g.same, g.showed) at h)))

    -- A capture by `start_capturing` and `mainloop` from n mapped buffers, of which there is one or more,
    -- processes the buffers 0 to n-1 in turn, over and over: as many as frame_count says, read as an
    -- unsigned number, if it returns, and the first so many of that order however it ends. It is for a
    -- stream that has not begun, on a device of the fake driver that was given no buffer and has no
    -- thread, where every buffer has an address, `kthread_stop` waits for the thread, and videobuf2 does
    -- what it documents.
    pub capture_rotates :
        (fuel : ℕ) (s : Env W)
        → s.io ≡ mmap
        → s.n_buffers ≡ n
        → events s.world ≡ []
        → streams s.world ≡ false
        → waiting s.world ≡ []
        → taken s.world ≡ 0
        → On
            (λ _ t. shown t.calls ≡ shown s.calls ++ frames n s.buffers (to_u32 s.frame_count))
            (λ t. (m : ℕ) × (shown t.calls ≡ shown s.calls ++ frames n s.buffers m))
            ((start_capturing K fuel >> mainloop K fuel) s)
    capture_rotates fuel s io count new off kept took =
        On-map _ _ _ _ ((start_capturing K fuel >> mainloop K fuel) s)
          (captures fuel s io count new off kept took) (λ _ t h. h.showed)
          (λ t h. elim h [ inl e ↦ (0, e ∙ sym (append-nil _)) | inr (m, h) ↦ (m, h.showed) ])
