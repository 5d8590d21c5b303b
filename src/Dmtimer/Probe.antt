-- ===== src/Dmtimer/Probe.antt =====
-- lkml/dmtimer/dmtimer.c: `dmtimer_probe`, as one equation.
use bbblack.Base.{
  ℕ, ◌+◌, ◌%◌, ◌≡◌, refl, ◌∙◌, ◌≢◌, ◌↔◌, true, false, ◌==◌, inl, inr, Option-cases, none, some,
  List, [], ◌∷◌, ◌++◌, map, arith, append_assoc,
}
use bbblack.Base.Int.{pos}
use bbblack.Base.Word.{u32_mod, sub32, to_u32, to_u32-to_int}
use bbblack.Irq.Chip.{irq_init, get_irq}
use bbblack.Irq.Lines.{irq_alloc_chip_lem, four_lines}
use bbblack.Dmtimer.Driver.{
  cm_pers_regbase, cm_pers_reglen, dmtimer7_regbase, dmtimer7_reglen, Call, request_mem_region,
  ioremap, request_irq, request_threaded_irq, chip, State, Resource, Answers, emit, probe_irqs,
  enable_writes, timer_writes, if_granted, returns, probe_program, probe_rest, probe_resource,
  probe_regions, probe,
}

-- `dmtimer_probe` succeeds exactly when the interrupt is mapped, the resource is there, both regions
-- are free and both blocks could be mapped.
pub probe_succeeds_iff :
    (a : Answers) (p : ℕ) (s : State)
    → ((probe a p s).0 ≡ returns (pos 0)) ↔ (
        (a.virq ≢ 0)
        × (a.r_mem ≢ none)
        × (a.cm_pers_free ≡ true)
        × (a.timer_free ≡ true)
        × (a.enable_map ≢ 0)
        × (a.timer_map ≢ 0))
unfolding probe probe_resource probe_regions probe_rest probe_program
probe_succeeds_iff a p s = ground arith

-- The nested interrupt number of a chip whose descriptors start at `base`.
abbrev pub nested_irq : ℕ → ℕ
nested_irq base = (base + 2) % u32_mod

probe_irqs_lem :
    (a : Answers) (s : State)
    → let base = to_u32 a.irq_alloc_descs_ret in
      probe_irqs a s ≡ record s {
        timer_irq_chip = record s.timer_irq_chip { base = base };
        calls =
            s.calls
            ++ (map chip (four_lines base)
                ++ if_granted a.request_threaded_irq_ret (request_threaded_irq (nested_irq base)));
      }
unfolding probe_irqs irq_init get_irq
probe_irqs_lem a s =
    rw (irq_alloc_chip_lem a.irq_alloc_descs_ret s.timer_irq_chip, probe_irqs)
      (rw (to_u32-to_int ((to_u32 a.irq_alloc_descs_ret + 2) % u32_mod) (omega arith)))

-- The calls of a probe that succeeds, for a resource from `start` to `end`: those that reserve the
-- regions, and the others.
abbrev pub region_calls : ℕ → ℕ → List Call
region_calls start end =
    request_mem_region cm_pers_regbase cm_pers_reglen
    ∷ request_mem_region start ((sub32 end start + 1) % u32_mod)
    ∷ []

abbrev pub rest_calls : Answers → List Call
rest_calls a =
    let base = to_u32 a.irq_alloc_descs_ret in
    ioremap cm_pers_regbase cm_pers_reglen
    ∷ ioremap dmtimer7_regbase dmtimer7_reglen
    ∷ (if_granted a.request_irq_ret (request_irq a.virq)
        ++ (map chip (four_lines base)
            ++ (if_granted a.request_threaded_irq_ret (request_threaded_irq (nested_irq base))
                ++ (enable_writes a.enable_map ++ timer_writes a.timer_map))))

abbrev pub probed : Answers → ℕ → State → List Call → State
probed a p s cs = record {
  drv = record {
    pdev = some p;
    enable_base_addr = a.enable_map;
    timer7_base = a.timer_map;
    virq = a.virq;
    my_thread = s.drv.my_thread;
  };
  timer_irq_chip = record s.timer_irq_chip { base = to_u32 a.irq_alloc_descs_ret };
  calls = cs;
}

probe_rest_lem :
    (a : Answers) (p : ℕ) (s : State)
    → s.drv.virq ≡ a.virq
    → a.enable_map ≢ 0
    → a.timer_map ≢ 0
    → probe_rest a p s ≡ (returns (pos 0), probed a p s (s.calls ++ rest_calls a))
unfolding probe_rest probe_program
probe_rest_lem a p s e m n =
    let no_enable : (a.enable_map == 0) ≡ false = ground arith in
    let no_timer : (a.timer_map == 0) ≡ false = ground arith in
    rw (probe_irqs_lem, probe_rest) (rw (no_enable, no_timer) (rw e (simp append_assoc)))

probe-eq-probe_rest :
    (a : Answers) (p : ℕ) (s : State) (r : Resource)
    → a.virq ≢ 0
    → a.r_mem ≡ some r
    → a.cm_pers_free ≡ true
    → a.timer_free ≡ true
    → probe a p s
      ≡ probe_rest a p
          (emit (region_calls r.start r.end) (record s { drv = record s.drv { virq = a.virq } }))
unfolding probe probe_resource probe_regions
probe-eq-probe_rest a p s r v m c t = ground arith

-- The kernel gives a probe what it cannot go on without.
pub record Succeeds (a : Answers) (r : Resource) : Type 0 where
  pub has_virq : a.virq ≢ 0
  pub has_resource : a.r_mem ≡ some r
  pub has_cm_pers : a.cm_pers_free ≡ true
  pub has_timer : a.timer_free ≡ true
  pub maps_enable : a.enable_map ≢ 0
  pub maps_timer : a.timer_map ≢ 0

pub probe-Succeeds :
    (a : Answers) (p : ℕ) (s : State)
    → (probe a p s).0 ≡ returns (pos 0)
    → (r : Resource) × Succeeds a r
probe-Succeeds a p s h =
    let (virq, resource, cm_pers, timer, enable, map) = (probe_succeeds_iff a p s).0 h in
    elim (Option-cases a.r_mem) [
      | inl q ↦ absurd (resource q)
      | inr (r, q) ↦ (
        r,
        record {
          has_virq = virq;
          has_resource = q;
          has_cm_pers = cm_pers;
          has_timer = timer;
          maps_enable = enable;
          maps_timer = map;
        },
      )
    ]

-- What a probe that succeeds leaves in the state.
pub probe_lem :
    (a : Answers) (p : ℕ) (s : State) (r : Resource)
    → Succeeds a r
    → probe a p s
      ≡ (returns (pos 0), probed a p s (s.calls ++ (region_calls r.start r.end ++ rest_calls a)))
probe_lem a p s r h =
    probe-eq-probe_rest a p s r h.has_virq h.has_resource h.has_cm_pers h.has_timer
    ∙ probe_rest_lem a p _ refl h.maps_enable h.maps_timer
    ∙ simp append_assoc
