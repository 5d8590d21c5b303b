-- ===== src/FakeVid/Progress.antt =====
-- lkml/v4l2/vid4linux.c: what the thread does while it is scheduled, and what happens once it has
-- returned on its own.
use bbblack.Base.{
  ℕ, zero, suc, ◌+◌, ◌-◌, ◌≤◌, ◌<◌, ◌≡◌, refl, sym, ap, ◌∙◌, ◌≢◌, Bool, false, none, some, ◌⊎◌, inl,
  inr, Option-cases, List, [], ◌∷◌, ◌++◌, map, arith, append_assoc, append-nil, length, get_or, All,
}
use bbblack.FakeVid.State.{FakeVidDevice, Kthread, state_done, Pc, loop_head, returned, Vb2}
use bbblack.FakeVid.Queue.{buf_queue}
use bbblack.FakeVid.Thread.{thread_turn, memcpy, sprintf, masquerade}
use bbblack.FakeVid.Schedule.{
  Event, queue, start, turn, stop, queued, returned_to_vb2, ledger, deliver, run,
}

-- Two turns of the thread for each buffer.
abbrev pub turns_for : List ℕ → List Event
turns_for [] = []
turns_for (_ ∷ bs) = turn false ∷ turn false ∷ turns_for bs

-- Events between a start and the stop.
abbrev pub IsStreaming : Event → Type 0
IsStreaming (start r) = ⊥
IsStreaming stop = ⊥
IsStreaming _ = Unit

-- The text that the frames hold, below the end of the array on the stack.
pub get_or-sprintf :
    (cs img : List ℕ) (i : ℕ)
    → i < length cs
    → length cs ≤ length img
    → get_or (sprintf cs img) i 0 ≡ get_or cs i 0
get_or-sprintf [] img i h k = absurd (omega arith)
get_or-sprintf (c ∷ cs) [] i h k = absurd (omega arith)
get_or-sprintf (c ∷ cs) (x ∷ img) zero h k = refl
get_or-sprintf (c ∷ cs) (x ∷ img) (suc i) h k = get_or-sprintf cs img i (omega arith) (omega arith)

pub memcpy_inside :
    (v : ℕ) (bytes : List ℕ) (memory : ℕ → ℕ) (i : ℕ)
    → i < 128
    → memcpy v bytes 128 memory (v + i) ≡ get_or bytes i 0
memcpy_inside v bytes memory i h = let same : v + i - v ≡ i = omega arith in rw same (ground arith)

pub memcpy_outside :
    (v : ℕ) (bytes : List ℕ) (memory : ℕ → ℕ) (i : ℕ)
    → (i < v) ⊎ (v + 128 ≤ i)
    → memcpy v bytes 128 memory i ≡ memory i
memcpy_outside v bytes memory i h = ground arith

module _ (vb2 : Vb2) (img : List ℕ) (kthread_stop : FakeVidDevice → Kthread → FakeVidDevice) where
  two_turns :
      (b : ℕ) (bs : List ℕ) (dev : FakeVidDevice)
      → vb2.plane_vaddr b ≢ none
      → dev.pc ≡ loop_head
      → dev.active ≡ b ∷ bs
      → let d = run vb2 img kthread_stop dev (turn false ∷ turn false ∷ []) in
        (d.pc ≡ loop_head) × (d.active ≡ bs) × (d.done ≡ dev.done ++ ((b, state_done) ∷ []))
  unfolding run deliver thread_turn
  two_turns b bs dev mapped e a = elim (Option-cases (vb2.plane_vaddr b)) [
    | inl q ↦ absurd (mapped q)
    | inr (v, q) ↦ rw (e, a) (rw (q, thread_turn) (refl, refl, refl))
  ]

  -- While buffers are on the list the thread makes progress: with two turns for each it hands all of
  -- them back as done, in the order of the list, if each has an address and no stop comes.
  pub drain :
      ((b : ℕ) → vb2.plane_vaddr b ≢ none)
      → (bs : List ℕ) (dev : FakeVidDevice) → dev.pc ≡ loop_head
      → dev.active ≡ bs
      → let d = run vb2 img kthread_stop dev (turns_for bs) in
        (d.pc ≡ loop_head) × (d.active ≡ []) × (d.done ≡ dev.done ++ map (λ b. (b, state_done)) bs)
  unfolding run
  drain mapped [] dev e a = (e, a, sym (append-nil _))
  drain mapped (b ∷ bs) dev e a =
      let (e', a', d') = two_turns b bs dev (mapped b) e a in
      let (e2, a2, d2) =
        drain mapped bs (run vb2 img kthread_stop dev (turn false ∷ turn false ∷ [])) e' a' in
      (
        e2,
        a2,
        d2 ∙ rw d' (append_assoc dev.done ((b, state_done) ∷ []) (map (λ b. (b, state_done)) bs)),
      )

  turn_returned :
      (s r : Bool) (dev : FakeVidDevice) (pc : Pc)
      → pc ≡ returned r
      → thread_turn vb2 img s pc dev ≡ dev
  unfolding thread_turn
  turn_returned s r dev pc e = rw e

  turn_empty :
      (dev : FakeVidDevice)
      → dev.pc ≡ loop_head
      → dev.active ≡ []
      → let d = thread_turn vb2 img false dev.pc dev in
        (d.pc ≡ returned false) × (d.kthread ≡ dev.kthread) × (d.done ≡ dev.done) × (d.active ≡ [])
  unfolding thread_turn
  turn_empty dev e a = rw (e, a) (refl, refl, refl, refl)

  pub stalled_from :
      (es : List Event) (dev : FakeVidDevice) (r : Bool)
      → All IsStreaming es
      → dev.pc ≡ returned r
      → let d = run vb2 img kthread_stop dev es in
        (d.pc ≡ returned r)
        × (d.kthread ≡ dev.kthread)
        × (d.done ≡ dev.done)
        × (d.active ≡ dev.active ++ queued es)
  unfolding run deliver buf_queue thread_turn
  stalled_from [] dev r h e = (e, refl, refl, sym (append-nil _))
  stalled_from (queue b ∷ es) dev r (_, h) e =
      let (p, k, d, a) = stalled_from es (buf_queue dev b) r h e in
      (p, k, d, a ∙ append_assoc dev.active (b ∷ []) (queued es))
  stalled_from (turn s ∷ es) dev r (_, h) e =
      rw (turn_returned s r dev dev.pc e, run) (stalled_from es dev r h e)
  stalled_from (start q ∷ es) dev r h e = absurd h.0
  stalled_from (stop ∷ es) dev r h e = absurd h.0

  -- An underrun is for good. If the thread finds the list empty it returns, and whatever is queued
  -- and however often the thread would be scheduled until the stream is stopped, no buffer is handed
  -- back any more: all stay on the list. The device still keeps the pointer to the thread.
  pub underrun_stalls :
      (es : List Event) (dev : FakeVidDevice)
      → All IsStreaming es
      → dev.pc ≡ loop_head
      → dev.active ≡ []
      → let d = run vb2 img kthread_stop dev (turn false ∷ es) in
        (d.pc ≡ returned false)
        × (d.kthread ≡ dev.kthread)
        × (d.done ≡ dev.done)
        × (d.active ≡ queued es)
  unfolding run deliver thread_turn
  underrun_stalls es dev h e a =
      let d' = thread_turn vb2 img false dev.pc dev in
      let (p, k, d, l) = turn_empty dev e a in
      let (p2, k2, d2, l2) = stalled_from es d' false h p in
      (p2, k2 ∙ k, d2 ∙ d, l2 ∙ ap (λ xs. xs ++ queued es) l)

  -- A buffer without an address is lost: the thread takes it off the list and returns, and the buffer
  -- is neither on the list nor handed back.
  pub unmapped_buffer_lost :
      (b : ℕ) (bs : List ℕ) (dev : FakeVidDevice)
      → vb2.plane_vaddr b ≡ none
      → dev.pc ≡ loop_head
      → dev.active ≡ b ∷ bs
      → let d = run vb2 img kthread_stop dev (turn false ∷ turn false ∷ []) in
        (d.pc ≡ returned false)
        × (ledger d ≡ returned_to_vb2 dev ++ bs)
        × (ledger dev ≡ returned_to_vb2 dev ++ (b ∷ bs))
  unfolding run deliver thread_turn
  unmapped_buffer_lost b bs dev q e a = rw (e, a) (rw (q, thread_turn) (refl, refl, refl))

  -- The frame that is handed back holds the text and its NUL from the address of the plane on, if the
  -- array on the stack has room for them.
  pub frame_content :
      (b v : ℕ) (bs : List ℕ) (dev : FakeVidDevice) (i : ℕ)
      → vb2.plane_vaddr b ≡ some v
      → dev.pc ≡ loop_head
      → dev.active ≡ b ∷ bs
      → 30 ≤ length img
      → i < 30
      → let d = run vb2 img kthread_stop dev (turn false ∷ turn false ∷ []) in
        d.memory (v + i) ≡ get_or masquerade i 0
  unfolding run deliver thread_turn
  frame_content b v bs dev i q e a room h =
      rw (e, a)
        (rw (q, thread_turn)
          (memcpy_inside v (sprintf masquerade img) dev.memory i (omega arith)
            ∙ get_or-sprintf masquerade img i h room))

  -- Making a frame changes no byte outside the 128 from the address of the plane on.
  pub frame_bounds :
      (b v : ℕ) (bs : List ℕ) (dev : FakeVidDevice) (i : ℕ)
      → vb2.plane_vaddr b ≡ some v
      → dev.pc ≡ loop_head
      → dev.active ≡ b ∷ bs
      → (i < v) ⊎ (v + 128 ≤ i)
      → let d = run vb2 img kthread_stop dev (turn false ∷ turn false ∷ []) in
        d.memory i ≡ dev.memory i
  unfolding run deliver thread_turn
  frame_bounds b v bs dev i q e a h =
      rw (e, a) (rw (q, thread_turn) (memcpy_outside v (sprintf masquerade img) dev.memory i h))
