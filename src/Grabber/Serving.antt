-- ===== src/Grabber/Serving.antt =====
-- lkml/v4l2-app/grabber.c: `mainloop` on a device that delivers frames.
use bbblack.Base.{
  ℕ, zero, suc, ◌+◌, ◌≤◌, ◌<◌, ◌≡◌, ◌≢◌, refl, Bool, true, false, inl, inr, Option-cases, [], ◌∷◌,
  ◌++◌, arith, lt→ltb, ◌==◌, get_elem?,
}
use mathlib.Core.Path.{subst⁻¹}
use bbblack.Base.Word.{to_u32}
use bbblack.Grabber.Types.{
  IoMethod, mmap, qbuf, dqbuf, clear, mapped, V4l2Buffer, Reply, failed, done, Kernel, Call, Env,
  Outcome, Prog, pure, eagain, eintr,
}
use bbblack.Grabber.Frames.{
  attempts, xioctl, require, or_exit, not_yet, mmap_method, frame_by, read_frame, selected,
  next_frame, grab_frames, mainloop,
}
use bbblack.Base.Run.{On, On-map, On-and_then, On-both}
use bbblack.Grabber.Takes.{images}
use bbblack.Grabber.Count.{mainloop_frames}
use bbblack.Grabber.Delivers.{
  Serves, Delivers, Same, Streams, Streams-Same, get_elem?-lt, attempts-Serves,
}

module _ {W : Type 0} (patience : W → ℕ) (K : Kernel W) (n : ℕ) (D : Delivers patience K n)
    (fuel : ℕ) where
  -- The part ends, with the stream still running and at most the patience `p` left.
  abbrev Runs : {A : Type 0} → (A → ℕ → Type 0) → Outcome A × Env W → Type 0
  Runs P = On (λ a t. Streams patience n t × P a (patience t.world)) (λ _. ⊥)

  or_exit-Runs :
      {A : Type 0} (Good : ℕ → A → Type 0) (w : W) (reply : Reply A) (s : Env W)
      → Streams patience n s
      → Serves patience (λ _. ⊥) Good w (reply, s.world)
      → Runs (λ _ left. left ≤ patience w) (or_exit K fuel reply s)
  unfolding or_exit
  or_exit-Runs Good w (failed e) s ready (h, less) = h
  or_exit-Runs Good w (done r a) s ready (h, le) = (ready, le)

  require-Runs :
      (buf : V4l2Buffer) (s : Env W)
      → Streams patience n s
      → patience s.world < fuel
      → Runs (λ _ left. left ≤ patience s.world) (require K fuel (qbuf buf) s)
  unfolding require xioctl
  require-Runs buf s ready lt =
      On-and_then
        (λ reply t.
          Same patience s t × Serves patience (λ _. ⊥) (λ _ _. Unit {0}) s.world (reply, t.world))
        (λ _ t. Streams patience n t × (patience t.world ≤ patience s.world)) (λ _. ⊥)
        (attempts K fuel (qbuf buf) s) (or_exit K fuel)
        (attempts-Serves patience K fuel (qbuf buf) (λ _. ⊥) (λ _ _. Unit {0}) s
          (D.requeue s.fd buf) lt)
        (λ reply t (same, fine).
          or_exit-Runs (λ _ _. Unit {0}) s.world reply t (Streams-Same patience n s t ready same)
            fine)

  -- After `read_frame`: nothing was taken only at the cost of patience.
  abbrev Progress : ℕ → ℕ → ℕ → Type 0
  Progress p got left = (left ≤ p) × ((got == 0) ≡ true → left < p)

  mmap_method-Runs :
      (w : W) (reply : Reply V4l2Buffer) (s : Env W)
      → Streams patience n s
      → patience w < fuel
      → Serves patience (λ e. e ≡ eagain) (λ r buf. buf.index < n) w (reply, s.world)
      → Runs (Progress (patience w)) (mmap_method K fuel reply s)
  unfolding mmap_method not_yet
  mmap_method-Runs w (failed e) s ready lt (again, less) =
      rw again (ready, (omega arith, λ _. less))
  mmap_method-Runs w (done r buf) s (io, count, len) lt (inside, le) =
      elim (Option-cases (get_elem? s.buffers buf.index)) [
        | inl none_there ↦
            absurd (get_elem?-lt patience s.buffers buf.index (omega arith) none_there)
        | inr (b, there) ↦
            let t : Env W = record s {
              calls = s.calls ++ (Call.process_image b.start buf.bytesused ∷ []);
            } in
            rw (lt→ltb buf.index s.n_buffers (omega arith), there)
              (On-and_then (λ _ u. Streams patience n u × (patience u.world ≤ patience s.world))
                (λ got u. Streams patience n u × Progress (patience w) got (patience u.world))
                (λ _. ⊥) (require K fuel (qbuf buf) t) (λ _. pure 1)
                (require-Runs buf t (io, count, len) (omega arith))
                (λ a u (ready, le'). (ready, (omega arith, λ e. cc))))
      ]

  frame_by-Runs :
      (io : IoMethod) (s : Env W)
      → io ≡ mmap
      → Streams patience n s
      → patience s.world < fuel
      → Runs (Progress (patience s.world)) (frame_by K fuel io s)
  unfolding frame_by xioctl
  frame_by-Runs io s e ready lt =
      subst⁻¹ (λ io. Runs (Progress (patience s.world)) (frame_by K fuel io s)) e
        (On-and_then
          (λ reply t.
            Same patience s t
            × Serves patience (λ e. e ≡ eagain) (λ r (buf : V4l2Buffer). buf.index < n) s.world
                (reply, t.world))
          (λ got t. Streams patience n t × Progress (patience s.world) got (patience t.world))
          (λ _. ⊥) (attempts K fuel (dqbuf (clear mapped)) s) (mmap_method K fuel)
          (attempts-Serves patience K fuel (dqbuf (clear mapped)) (λ e. e ≡ eagain)
            (λ r buf. buf.index < n) s (D.dequeue s.fd) lt)
          (λ reply t (same, fine).
            mmap_method-Runs s.world reply t (Streams-Same patience n s t ready same) lt fine))

  -- After `select` and what follows: the loop goes on only at the cost of patience.
  abbrev Goes : ℕ → Bool → ℕ → Type 0
  Goes p again left = (left ≤ p) × (again ≡ true → left < p)

  selected-Runs :
      (w : W) (reply : Reply Unit) (s : Env W)
      → Streams patience n s
      → patience w < fuel
      → Serves patience (λ e. e ≡ eintr) (λ r _. r ≢ 0) w (reply, s.world)
      → Runs (Goes (patience w)) (selected K fuel reply s)
  unfolding selected read_frame
  selected-Runs w (failed e) s ready lt (i, less) = rw i (ready, (omega arith, λ _. less))
  selected-Runs w (done zero u) s ready lt (nz, le) = absurd (nz refl)
  selected-Runs w (done (suc r) u) s ready lt (nz, le) =
      On-and_then
        (λ got t. Streams patience n t × Progress (patience s.world) got (patience t.world))
        (λ again t. Streams patience n t × Goes (patience w) again (patience t.world)) (λ _. ⊥)
        (frame_by K fuel s.io s) (λ got. pure (got == 0))
        (frame_by-Runs s.io s ready.0 ready (omega arith))
        (λ got t (ready', (le', less)). (ready', (omega arith, λ e. omega (arith, less e))))

  next_frame-Runs :
      (k : ℕ) (s : Env W)
      → Streams patience n s
      → patience s.world < k
      → k ≤ fuel
      → Runs (λ _ left. left ≤ patience s.world) (next_frame K fuel k s)
  unfolding next_frame
  next_frame-Runs zero s ready lt le = absurd (omega arith)
  next_frame-Runs (suc k) s ready lt le =
      let (reply, w) = K.select s.fd s.world in
      let t : Env W = record s { world = w; calls = s.calls ++ (Call.select ∷ []) } in
      On-and_then
        (λ again u. Streams patience n u × Goes (patience s.world) again (patience u.world))
        (λ _ u. Streams patience n u × (patience u.world ≤ patience s.world)) (λ _. ⊥)
        (selected K fuel reply t) _
        (selected-Runs s.world reply t ready (omega arith) (D.select s.fd s.world))
        (λ again u (ready', (le', less)).
          elim again
              as (λ g.
                (g ≡ true → patience u.world < patience s.world)
                → Runs (λ _ left. left ≤ patience s.world)
                    ((elim g as (λ _. Prog W Unit) [ true ↦ next_frame K fuel k | false ↦ pure tt ])
                      u)) [
                        | true ↦ λ less.
                            On-map
                              (λ _ v. Streams patience n v × (patience v.world ≤ patience u.world))
                              (λ _ v. Streams patience n v × (patience v.world ≤ patience s.world))
                              (λ _. ⊥) (λ _. ⊥) (next_frame K fuel k u)
                              (next_frame-Runs k u ready' (omega (arith, less refl)) (omega arith))
                              (λ _ v (ready'', le''). (ready'', omega arith)) (λ v e. e)
                        | false ↦ λ less. (ready', le')
                      ]
            less)

  grab_frames-Runs :
      (count : ℕ) (s : Env W)
      → Streams patience n s
      → patience s.world < fuel
      → Runs (λ _ left. left ≤ patience s.world) (grab_frames K fuel count s)
  unfolding grab_frames
  grab_frames-Runs zero s ready lt = (ready, omega arith)
  grab_frames-Runs (suc count) s ready lt =
      On-and_then (λ _ t. Streams patience n t × (patience t.world ≤ patience s.world))
        (λ _ t. Streams patience n t × (patience t.world ≤ patience s.world)) (λ _. ⊥)
        (next_frame K fuel fuel s) (λ _. grab_frames K fuel count)
        (next_frame-Runs fuel s ready lt (omega arith))
        (λ _ t (ready', le).
          On-map (λ _ u. Streams patience n u × (patience u.world ≤ patience t.world))
            (λ _ u. Streams patience n u × (patience u.world ≤ patience s.world)) (λ _. ⊥) (λ _. ⊥)
            (grab_frames K fuel count t) (grab_frames-Runs count t ready' (omega arith))
            (λ _ u (ready'', le'). (ready'', omega arith)) (λ u e. e))

  -- On a device that delivers frames into mapped buffers, `mainloop` comes to its end with more fuel
  -- than the kernel has patience, and has then processed exactly as many frames as `frame_count` says,
  -- read as an unsigned number.
  pub mainloop_serves :
      (s : Env W)
      → Streams patience n s
      → patience s.world < fuel
      → On
          (λ _ t. images t.calls ≡ images s.calls + to_u32 s.frame_count)
          (λ _. ⊥)
          (mainloop K fuel s)
  mainloop_serves s ready lt =
      On-both (λ _ t. images t.calls ≡ images s.calls + to_u32 s.frame_count)
        (λ t. images t.calls ≤ images s.calls + to_u32 s.frame_count)
        (λ _ t. Streams patience n t × (patience t.world ≤ patience s.world)) (mainloop K fuel s)
        (mainloop_frames K fuel s)
        (unfold mainloop in grab_frames-Runs (to_u32 s.frame_count) s ready lt)
