-- ===== src/Capture/Handed.antt =====
-- lkml/v4l2/vid4linux.c: the buffers handed back while a stream goes on.
use bbblack.Base.{
  ℕ, ◌≡◌, refl, Bool, true, false, some, inl, inr, Option-cases, List, [], ◌∷◌, ◌++◌, map-append,
  get_elem?, All, All-append, All-mono,
}
use bbblack.FakeVid.State.{
  FakeVidDevice, Kthread, Pc, not_started, loop_head, holding, returned, Vb2,
}
use bbblack.FakeVid.Queue.{buf_queue}
use bbblack.FakeVid.Thread.{thread_turn}
use bbblack.FakeVid.Schedule.{Event, queue, start, turn, stop, returned_to_vb2, deliver, run}
use bbblack.FakeVid.Progress.{IsStreaming}
use bbblack.Capture.Turns.{get_elem?-append}

-- No stream is stopped.
abbrev pub NotStop : Event → Type 0
NotStop stop = ⊥
NotStop _ = Unit

pub NotStop-IsStreaming : (e : Event) → IsStreaming e → NotStop e
NotStop-IsStreaming (queue b) h = h
NotStop-IsStreaming (start r) h = tt
NotStop-IsStreaming (turn s) h = h
NotStop-IsStreaming stop h = h

pub All-NotStop :
    (es ds : List Event)
    → All NotStop es
    → (fs : List Event) → All IsStreaming fs
    → ds ≡ es ++ fs
    → All NotStop ds
All-NotStop es ds h fs k e =
    rw e (All-append NotStop es fs h (All-mono IsStreaming fs NotStop-IsStreaming k))

module _ (vb2 : Vb2) (img : List ℕ) (kthread_stop : FakeVidDevice → Kthread → FakeVidDevice) where
  turn_returns :
      (s : Bool) (pc : Pc) (active : List ℕ) (dev : FakeVidDevice) (i b : ℕ)
      → dev.active ≡ active
      → get_elem? (returned_to_vb2 dev) i ≡ some b
      → get_elem? (returned_to_vb2 (thread_turn vb2 img s pc dev)) i ≡ some b
  unfolding thread_turn
  turn_returns s not_started active dev i b a h = h
  turn_returns s (returned r) active dev i b a h = h
  turn_returns true loop_head active dev i b a h = h
  turn_returns false loop_head [] dev i b a h = rw a h
  turn_returns false loop_head (c ∷ active) dev i b a h = rw a h
  turn_returns s (holding c) active dev i b a h = elim (Option-cases (vb2.plane_vaddr c)) [
    | inl q ↦ rw (q, thread_turn) h
    | inr (v, q) ↦
        rw (q, thread_turn)
          (rw (map-append _ dev.done _) (get_elem?-append (returned_to_vb2 dev) _ i b h))
  ]

  -- What was handed back stays where it is in the order.
  pub returned_stay :
      (es : List Event) (dev : FakeVidDevice) (i b : ℕ)
      → All IsStreaming es
      → get_elem? (returned_to_vb2 dev) i ≡ some b
      → get_elem? (returned_to_vb2 (run vb2 img kthread_stop dev es)) i ≡ some b
  unfolding run deliver buf_queue
  returned_stay [] dev i b k h = h
  returned_stay (queue c ∷ es) dev i b (_, k) h = returned_stay es (buf_queue dev c) i b k h
  returned_stay (turn s ∷ es) dev i b (_, k) h =
      returned_stay es (thread_turn vb2 img s dev.pc dev) i b k
        (turn_returns s dev.pc dev.active dev i b refl h)
  returned_stay (start r ∷ es) dev i b (k, _) h = absurd k
  returned_stay (stop ∷ es) dev i b (k, _) h = absurd k
