-- ===== src/Grabber/Loop.antt =====
-- lkml/v4l2-app/grabber.c: a proof rule for `mainloop` with mapped buffers.
use bbblack.Base.{
  ℕ, zero, suc, ◌+◌, ◌≡◌, Bool, true, false, inl, inr, Bool-cases, Option-cases, some, arith, ltb,
  ◌==◌, if◌then◌else◌, get_elem?,
}
use mathlib.Core.Path.{subst⁻¹}
use bbblack.Base.Word.{to_u32}
use bbblack.Base.Run.{On, On-map, On-and_then}
use bbblack.Grabber.Types.{
  IoMethod, mmap, qbuf, dqbuf, clear, mapped, Buffer, V4l2Buffer, Reply, failed, done, Kernel,
  eagain, eintr, Call, Env, Prog, pure,
}
use bbblack.Grabber.Frames.{
  attempts, xioctl, require, not_yet, mmap_method, frame_by, read_frame, selected, next_frame,
  grab_frames, mainloop,
}
use bbblack.Grabber.Asks.{After, calling, recording, asked, attempts_keep, require_keep}

module _ {W : Type 0} (K : Kernel W) where
  -- What to show of the states of a capture: `Ready k` before the frame number k is taken, `Taken`
  -- once its buffer was taken, `Shown` once it was processed, `Ends` wherever the program may end.
  pub record Rule (Ready : ℕ → Env W → Type 0) (Taken Shown : ℕ → V4l2Buffer → Env W → Type 0)
      (Ends : Env W → Type 0) : Type 0 where
    pub maps : (k : ℕ) (s : Env W) → Ready k s → s.io ≡ mmap
    pub select :
        (k : ℕ) (s : Env W) → Ready k s → Ready k (calling Call.select (K.select s.fd s.world).1 s)
    pub dequeue :
        (k : ℕ) (s : Env W)
        → Ready k s
        → After
            (Ready k)
            (Taken k)
            (asked K (dqbuf (clear mapped)) s).0
            (asked K (dqbuf (clear mapped)) s).1
    pub process :
        (k : ℕ) (buf : V4l2Buffer) (b : Buffer) (s : Env W)
        → Taken k buf s
        → get_elem? s.buffers buf.index ≡ some b
        → Shown k buf (recording (Call.process_image b.start buf.bytesused) s)
    pub requeue :
        (k : ℕ) (buf : V4l2Buffer) (s : Env W)
        → Shown k buf s
        → After (Shown k buf) (λ _. Ready (suc k)) (asked K (qbuf buf) s).0 (asked K (qbuf buf) s).1
    pub ready_ends : (k : ℕ) (s : Env W) → Ready k s → Ends s
    pub taken_ends : (k : ℕ) (buf : V4l2Buffer) (s : Env W) → Taken k buf s → Ends s
    pub shown_ends : (k : ℕ) (buf : V4l2Buffer) (s : Env W) → Shown k buf s → Ends s

  module _ {Ready : ℕ → Env W → Type 0} {Taken Shown : ℕ → V4l2Buffer → Env W → Type 0}
      {Ends : Env W → Type 0} (rule : Rule Ready Taken Shown Ends) (fuel : ℕ) where
    open rule use {maps, select, dequeue, process, requeue, ready_ends, taken_ends, shown_ends}

    requeue_ind :
        (k : ℕ) (buf : V4l2Buffer) (s : Env W)
        → Shown k buf s
        → On (λ _. Ready (suc k)) Ends (require K fuel (qbuf buf) s)
    requeue_ind k buf =
        require_keep K fuel (qbuf buf) (Shown k buf) Ends (λ _. Ready (suc k)) (shown_ends k buf)
          (requeue k buf)

    -- The number of the next frame, by what `read_frame` returned
    abbrev AfterFrame : ℕ → ℕ → Env W → Type 0
    AfterFrame k got = Ready (if got == 0 then k else suc k)

    mmap_method_ind :
        (k : ℕ) (reply : Reply V4l2Buffer) (s : Env W)
        → After (Ready k) (Taken k) reply s
        → On (AfterFrame k) Ends (mmap_method K fuel reply s)
    unfolding mmap_method not_yet
    mmap_method_ind k (failed e) s p = elim (Bool-cases (e == eagain)) [
      | inl q ↦ rw (q, mmap_method) p
      | inr q ↦ rw (q, mmap_method) (ready_ends k s p)
    ]
    mmap_method_ind k (done r buf) s p = elim (Bool-cases (ltb buf.index s.n_buffers)) [
      | inr q ↦ rw (q, mmap_method) (taken_ends k buf s p)
      | inl q ↦
          rw (q, mmap_method)
            elim (Option-cases (get_elem? s.buffers buf.index)) [
              | inl q' ↦ rw q' (taken_ends k buf s p)
              | inr (b, q') ↦
                  let t : Env W = recording (Call.process_image b.start buf.bytesused) s in
                  rw q' (
                    On-and_then (λ _. Ready (suc k)) (AfterFrame k) Ends
                      (require K fuel (qbuf buf) t) (λ _. pure 1)
                      (requeue_ind k buf t (process k buf b s p q')) (λ a u h. h))
            ]
    ]

    frame_by_ind :
        (k : ℕ) (io : IoMethod) (s : Env W)
        → io ≡ mmap
        → Ready k s
        → On (AfterFrame k) Ends (frame_by K fuel io s)
    unfolding frame_by xioctl
    frame_by_ind k io s e p =
        subst⁻¹ (λ io. On (AfterFrame k) Ends (frame_by K fuel io s)) e
          (On-and_then (After (Ready k) (Taken k)) (AfterFrame k) Ends
            (attempts K fuel (dqbuf (clear mapped)) s) (mmap_method K fuel)
            (On-map (After (Ready k) (Taken k)) (After (Ready k) (Taken k)) (Ready k) Ends
              (attempts K fuel (dqbuf (clear mapped)) s)
              (attempts_keep K fuel (dqbuf (clear mapped)) (Ready k) (Taken k) (dequeue k) s p)
              (λ a t h. h) (ready_ends k))
            (mmap_method_ind k))

    abbrev AfterSelect : ℕ → Bool → Env W → Type 0
    AfterSelect k again = Ready (if again then k else suc k)

    selected_ind :
        (k : ℕ) (reply : Reply Unit) (s : Env W)
        → Ready k s
        → On (AfterSelect k) Ends (selected K fuel reply s)
    unfolding selected read_frame
    selected_ind k (failed e) s p = elim (Bool-cases (e == eintr)) [
      | inl q ↦ rw (q, selected) p
      | inr q ↦ rw (q, selected) (ready_ends k s p)
    ]
    selected_ind k (done zero u) s p = ready_ends k s p
    selected_ind k (done (suc r) u) s p =
        On-and_then (AfterFrame k) (AfterSelect k) Ends (frame_by K fuel s.io s)
          (λ got. pure (got == 0)) (frame_by_ind k s.io s (maps k s p) p) (λ got t h. h)

    next_frame_ind :
        (n k : ℕ) (s : Env W) → Ready k s → On (λ _. Ready (suc k)) Ends (next_frame K fuel n s)
    unfolding next_frame
    next_frame_ind zero k s p = ready_ends k s p
    next_frame_ind (suc n) k s p =
        let (reply, w) = K.select s.fd s.world in
        let t : Env W = calling Call.select w s in
        On-and_then (AfterSelect k) (λ _. Ready (suc k)) Ends (selected K fuel reply t) _
          (selected_ind k reply t (select k s p))
          (λ again u h.
            elim again
                as (λ g.
                  AfterSelect k g u
                  → On (λ _. Ready (suc k)) Ends
                      ((elim g as (λ _. Prog W Unit) [
                        | true ↦ next_frame K fuel n
                        | false ↦ pure tt
                      ])
                        u)) [ true ↦ λ h. next_frame_ind n k u h | false ↦ λ h. h ]
              h)

    grab_frames_ind :
        (count k : ℕ) (s : Env W)
        → Ready k s
        → On (λ _. Ready (k + count)) Ends (grab_frames K fuel count s)
    unfolding grab_frames
    grab_frames_ind zero k s p = let same : k + 0 ≡ k = omega arith in rw same p
    grab_frames_ind (suc count) k s p =
        let same : k + suc count ≡ suc k + count = omega arith in
        rw same (
          On-and_then (λ _. Ready (suc k)) (λ _. Ready (suc k + count)) Ends
            (next_frame K fuel fuel s) (λ _. grab_frames K fuel count) (next_frame_ind fuel k s p)
            (λ _ t h. grab_frames_ind count (suc k) t h))

    -- A capture of as many frames as `frame_count` says, from the number k on
    pub mainloop_ind :
        (k : ℕ) (s : Env W)
        → Ready k s
        → On (λ _. Ready (k + to_u32 s.frame_count)) Ends (mainloop K fuel s)
    unfolding mainloop
    mainloop_ind k s p = grab_frames_ind (to_u32 s.frame_count) k s p
