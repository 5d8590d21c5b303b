-- ===== src/Dmtimer/Resources.antt =====
-- lkml/dmtimer/dmtimer.c: the memory regions and interrupts that the driver reserves and releases.
use bbblack.Base.{
  ℕ, ◌+◌, ◌-◌, ◌≡◌, refl, ◌≢◌, true, false, ◌&&◌, none, some, List, [], ◌∷◌, ◌++◌, ◌==◌,
  if◌then◌else◌, arith, inl, inr, Bool-cases,
}
use bbblack.Base.Int.{minus, pos, is_nonzero}
use bbblack.Base.Word.{to_u32}
use bbblack.Dmtimer.Driver.{
  cm_pers_regbase, cm_pers_reglen, dmtimer7_regbase, dmtimer7_reglen, ebusy, Call,
  request_mem_region, release_mem_region, request_irq, request_threaded_irq, free_irq, State,
  Resource, Answers, returns, probe_resource, probe_regions, probe, remove, exit,
}
use bbblack.Dmtimer.Probe.{nested_irq, Succeeds, probe-Succeeds, probe_lem}

-- A list without its first entry for the region.
abbrev pub drop_region : ℕ → ℕ → List (ℕ × ℕ) → List (ℕ × ℕ)
drop_region s l [] = []
drop_region s l ((s', l') ∷ rs) =
    if (s == s') && (l == l') then rs else (s', l') ∷ drop_region s l rs

-- The regions reserved after the calls, from those reserved before.
abbrev pub held : List (ℕ × ℕ) → List Call → List (ℕ × ℕ)
held rs [] = rs
held rs (request_mem_region s l ∷ cs) = held ((s, l) ∷ rs) cs
held rs (release_mem_region s l ∷ cs) = held (drop_region s l rs) cs
held rs (_ ∷ cs) = held rs cs

held-append : (rs : List (ℕ × ℕ)) (cs ds : List Call) → held rs (cs ++ ds) ≡ held (held rs cs) ds
held-append rs [] ds = refl
held-append rs (request_mem_region s l ∷ cs) ds = held-append ((s, l) ∷ rs) cs ds
held-append rs (release_mem_region s l ∷ cs) ds = held-append (drop_region s l rs) cs ds
held-append rs (_ ∷ cs) ds = held-append rs cs ds

-- If the second region is taken, the probe fails with -EBUSY and keeps the first: no later call gives
-- it back, since the driver is not bound.
pub probe_leaks :
    (a : Answers) (p : ℕ) (s : State) (r : Resource)
    → a.virq ≢ 0
    → a.r_mem ≡ some r
    → a.cm_pers_free ≡ true
    → a.timer_free ≡ false
    → ((probe a p s).0 ≡ returns (minus ebusy))
      × (held [] (probe a p s).1.calls ≡ (cm_pers_regbase, cm_pers_reglen) ∷ held [] s.calls)
unfolding probe probe_resource probe_regions
probe_leaks a p s r v m c t = (
  ground arith,
  ground (arith, held-append [] s.calls (request_mem_region cm_pers_regbase cm_pers_reglen ∷ [])),
)

-- A probe that succeeds and the removal after it reserve and release the same regions, for a resource
-- that is the block of timer 7; the removal does not use the resource but the constants.
pub remove-probe_regions :
    (a : Answers) (p : ℕ) (s : State)
    → Succeeds a (record { start = dmtimer7_regbase; end = dmtimer7_regbase + dmtimer7_reglen - 1 })
    → held [] (remove (probe a p s).1).1.calls ≡ held [] s.calls
unfolding remove
remove-probe_regions a p s ok =
    rw (probe_lem a p s _ ok, held-append, held-append)
      elim (Bool-cases (is_nonzero a.request_irq_ret)) [
        | inl q ↦ elim (Bool-cases (is_nonzero a.request_threaded_irq_ret)) [
          | inl q' ↦ rw (q, q')
          | inr q' ↦ rw (q, q')
        ]
        | inr q ↦ elim (Bool-cases (is_nonzero a.request_threaded_irq_ret)) [
          | inl q' ↦ rw (q, q')
          | inr q' ↦ rw (q, q')
        ]
      ]

-- A list of interrupt numbers without its first entry `n`.
abbrev pub drop_irq : ℕ → List ℕ → List ℕ
drop_irq n [] = []
drop_irq n (m ∷ ms) = if n == m then ms else m ∷ drop_irq n ms

-- The interrupts with a handler after the calls, from those with one before.
abbrev pub requested : List ℕ → List Call → List ℕ
requested irqs [] = irqs
requested irqs (request_irq n ∷ cs) = requested (n ∷ irqs) cs
requested irqs (request_threaded_irq n ∷ cs) = requested (n ∷ irqs) cs
requested irqs (free_irq n ∷ cs) = requested (drop_irq n irqs) cs
requested irqs (_ ∷ cs) = requested irqs cs

drop_irq-pair : (n m : ℕ) → drop_irq n (m ∷ n ∷ []) ≡ m ∷ []
drop_irq-pair n m = ground arith

-- After a probe that succeeds, and that was granted both interrupts, and the exit of the module, where no
-- reader thread runs, the handler of the nested interrupt is still registered and no other: only the
-- interrupt of the timer is freed. It is for a state without earlier calls.
pub exit-probe_irqs :
    (a : Answers) (p : ℕ) (s : State)
    → (probe a p s).0 ≡ returns (pos 0)
    → a.request_irq_ret ≡ pos 0
    → a.request_threaded_irq_ret ≡ pos 0
    → s.drv.my_thread ≡ none
    → s.calls ≡ []
    → requested [] (exit (λ t. (remove t).1) (probe a p s).1).calls
      ≡ nested_irq (to_u32 a.irq_alloc_descs_ret) ∷ []
unfolding exit remove
exit-probe_irqs a p s h g g' th e =
    let (r, ok) = probe-Succeeds a p s h in
    rw (probe_lem a p s r ok, th, e)
      (rw (g, g') (drop_irq-pair a.virq (nested_irq (to_u32 a.irq_alloc_descs_ret))))
