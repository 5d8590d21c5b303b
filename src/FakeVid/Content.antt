-- ===== src/FakeVid/Content.antt =====
-- lkml/v4l2/vid4linux.c: what is in the memory of the buffers that were handed back.
use bbblack.Base.{
  ℕ, ◌+◌, ◌≤◌, ◌<◌, ◌≡◌, refl, ◌∙◌, ◌≢◌, ◌⊎◌, inl, inr, Bool, true, false, Bool-cases, some, List,
  [], ◌∷◌, ◌==◌, ==_iff, arith, length, get_or, All, All-append, All-mono,
}
use bbblack.FakeVid.State.{
  FakeVidDevice, Kthread, null, task, err_ptr, BufState, state_done, state_error, Pc, not_started,
  loop_head, holding, returned, Vb2,
}
use bbblack.FakeVid.Queue.{started, failed, buf_queue, start_streaming}
use bbblack.FakeVid.Thread.{
  thread_turn, memcpy, sprintf, masquerade, return_all, stop_thread, stop_streaming,
}
use bbblack.FakeVid.Schedule.{
  Event, queue, start, turn, stop, finish, StopsThread, deliver, run, Allowed, IsLegal,
}
use bbblack.FakeVid.Progress.{get_or-sprintf, memcpy_inside, memcpy_outside}

module _ (addr : ℕ → ℕ) where
  -- The text and its NUL stand from the address of the buffer on.
  abbrev pub HasText : (ℕ → ℕ) → ℕ → Type 0
  HasText memory b = (i : ℕ) → i < 30 → memory (addr b + i) ≡ get_or masquerade i 0

  abbrev pub IsFilled : (ℕ → ℕ) → ℕ × BufState → Type 0
  IsFilled memory (b, state_done) = HasText memory b
  IsFilled memory (b, state_error) = Unit

  -- All buffers that were handed back as done hold the text.
  abbrev pub AllFilled : FakeVidDevice → Type 0
  AllFilled dev = All (IsFilled dev.memory) dev.done

  module _ (img : List ℕ) (room : 30 ≤ length img)
      (apart : (b c : ℕ) → b ≢ c → (addr b + 128 ≤ addr c) ⊎ (addr c + 128 ≤ addr b)) where
    abbrev written : ℕ → (ℕ → ℕ) → ℕ → ℕ
    written b memory = memcpy (addr b) (sprintf masquerade img) 128 memory

    text_there : (b : ℕ) (memory : ℕ → ℕ) → HasText (written b memory) b
    text_there b memory i h =
        memcpy_inside (addr b) (sprintf masquerade img) memory i (omega arith)
        ∙ get_or-sprintf masquerade img i h room

    text_kept : (b c : ℕ) (memory : ℕ → ℕ) → HasText memory c → HasText (written b memory) c
    text_kept b c memory h i lt = elim (Bool-cases (b == c)) [
      | inl q ↦ let same : b ≡ c = (==_iff b c).0 q in rw⁻¹ same (text_there b memory i lt)
      | inr q ↦
          let other : b ≢ c = λ e. let r = (==_iff b c).1 e in cc in
          memcpy_outside (addr b) (sprintf masquerade img) memory (addr c + i)
            (elim (apart b c other) [ inl le ↦ inr (omega arith) | inr le ↦ inl (omega arith) ])
          ∙ h i lt
    ]

    IsFilled-kept :
        (b : ℕ) (memory : ℕ → ℕ) (p : ℕ × BufState)
        → IsFilled memory p
        → IsFilled (written b memory) p
    IsFilled-kept b memory (c, state_done) h = text_kept b c memory h
    IsFilled-kept b memory (c, state_error) h = tt

    module _ (vb2 : Vb2) (planes : (b : ℕ) → vb2.plane_vaddr b ≡ some (addr b)) where
      turn-AllFilled :
          (s : Bool) (pc : Pc) (active : List ℕ) (dev : FakeVidDevice)
          → dev.active ≡ active
          → AllFilled dev
          → AllFilled (thread_turn vb2 img s pc dev)
      unfolding thread_turn
      turn-AllFilled s not_started active dev a h = h
      turn-AllFilled s (returned r) active dev a h = h
      turn-AllFilled true loop_head active dev a h = h
      turn-AllFilled false loop_head [] dev a h = rw a h
      turn-AllFilled false loop_head (b ∷ active) dev a h = rw a h
      turn-AllFilled s (holding b) active dev a h = rw (planes b) (
          All-append (IsFilled (written b dev.memory)) dev.done ((b, state_done) ∷ [])
            (All-mono (IsFilled dev.memory) dev.done (IsFilled-kept b dev.memory) h)
            (text_there b dev.memory, tt))

      finish-AllFilled : (dev : FakeVidDevice) → AllFilled dev → AllFilled (finish vb2 img dev)
      unfolding finish
      finish-AllFilled dev h =
          let d = thread_turn vb2 img true dev.pc dev in
          turn-AllFilled true d.pc d.active d refl
            (turn-AllFilled true dev.pc dev.active dev refl h)

      return_all-AllFilled :
          (bs : List ℕ) (dev : FakeVidDevice) → AllFilled dev → AllFilled (return_all bs dev)
      unfolding return_all
      return_all-AllFilled [] dev h = h
      return_all-AllFilled (b ∷ bs) dev h =
          return_all-AllFilled bs _
            (All-append (IsFilled dev.memory) dev.done ((b, state_error) ∷ []) h (tt, tt))

      module _ (kthread_stop : FakeVidDevice → Kthread → FakeVidDevice)
          (stops : StopsThread vb2 img kthread_stop) where
        stop_thread-AllFilled :
            (dev : FakeVidDevice) (t : Kthread)
            → Allowed vb2 img kthread_stop dev stop
            → dev.kthread ≡ t
            → AllFilled dev
            → AllFilled (stop_thread kthread_stop t dev)
        unfolding stop_thread
        stop_thread-AllFilled dev null ok e h = h
        stop_thread-AllFilled dev (task t) ok e h =
            rw (stops dev t (rw e at ok)) (finish-AllFilled dev h)
        stop_thread-AllFilled dev (err_ptr n) ok e h = absurd (rw e at ok)

        deliver-AllFilled :
            (dev : FakeVidDevice) (e : Event)
            → Allowed vb2 img kthread_stop dev e
            → AllFilled dev
            → AllFilled (deliver vb2 img kthread_stop dev e)
        unfolding deliver buf_queue start_streaming stop_streaming
        deliver-AllFilled dev (queue b) ok h = h
        deliver-AllFilled dev (start (started t)) ok h = h
        deliver-AllFilled dev (start (failed n)) ok h = h
        deliver-AllFilled dev (turn s) ok h = turn-AllFilled s dev.pc dev.active dev refl h
        deliver-AllFilled dev stop ok h =
            let d = stop_thread kthread_stop dev.kthread dev in
            return_all-AllFilled d.active d (stop_thread-AllFilled dev dev.kthread ok refl h)

        -- Along every schedule that videobuf2 may make, each buffer that was handed back as done still holds
        -- the text and its NUL from its address on, if those handed back before do; where the buffers are
        -- 128 bytes or more apart, each has an address, the array on the stack has room for the text, and
        -- kthread_stop waits for the thread.
        pub run-AllFilled :
            (es : List Event) (dev : FakeVidDevice)
            → IsLegal vb2 img kthread_stop dev es
            → AllFilled dev
            → AllFilled (run vb2 img kthread_stop dev es)
        unfolding run
        run-AllFilled [] dev ok h = h
        run-AllFilled (e ∷ es) dev (ok, later) h =
            run-AllFilled es (deliver vb2 img kthread_stop dev e) later
              (deliver-AllFilled dev e ok h)
