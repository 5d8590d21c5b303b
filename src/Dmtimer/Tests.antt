-- ===== src/Dmtimer/Tests.antt =====
-- lkml/dmtimer: the theorems on the timer and its interrupt chip at concrete data.
use bbblack.Base.{◌+◌, ◌-◌, ◌≡◌, refl, Bool, true, false, none, some, [], ◌∷◌, arith}
use bbblack.Base.Int.{pos}
use bbblack.Base.Word.{bit}
use bbblack.Irq.Chip.{BbIrqChip, irqmask}
use bbblack.Irq.Lines.{irqmask_lem}
use bbblack.Dmtimer.Driver.{
  dmtimer7_regbase, dmtimer7_reglen, State, Answers, returns, probe, remove, exit, irq_handler,
}
use bbblack.Dmtimer.Probe.{probe_succeeds_iff}
use bbblack.Dmtimer.Resources.{requested, exit-probe_irqs}
use bbblack.Dmtimer.Registers.{
  raised, threaded, overflow_enabled, overflow_pending, irq_handler-probe,
}

abbrev timer_chip : BbIrqChip
timer_chip = record { enabled_mask = 0b0101; base = 200 }

irqmask_lem_example :
    (c : BbIrqChip) × (irqmask 202 timer_chip ≡ some c)
    × (c.base ≡ 200)
    × (bit c.enabled_mask 2 ≡ 0)
irqmask_lem_example = irqmask_lem 202 2 timer_chip (omega arith) (omega arith)

abbrev answers : Answers
answers = record {
  r_mem = some (record { start = dmtimer7_regbase; end = dmtimer7_regbase + dmtimer7_reglen - 1 });
  virq = 95;
  cm_pers_free = true;
  timer_free = true;
  enable_map = 0xF000_0000;
  timer_map = 0xF000_1000;
  request_irq_ret = pos 0;
  irq_alloc_descs_ret = pos 200;
  request_threaded_irq_ret = pos 0;
}

abbrev loaded : State
loaded = record {
  drv = record { pdev = none; enable_base_addr = 0; timer7_base = 0; virq = 0; my_thread = none };
  timer_irq_chip = record { enabled_mask = 0; base = 0 };
  calls = [];
}

succeeds : (probe answers 7 loaded).0 ≡ returns (pos 0)
succeeds =
    (probe_succeeds_iff answers 7 loaded).1
      ((λ e. omega arith), (λ e. cc), refl, refl, (λ e. omega arith), (λ e. omega arith))

exit-probe_irqs_example :
    requested [] (exit (λ t. (remove t).1) (probe answers 7 loaded).1).calls ≡ 202 ∷ []
exit-probe_irqs_example = exit-probe_irqs answers 7 loaded succeeds refl refl refl refl

irq_handler-probe_example :
    let probed = (probe answers 7 loaded).1 in
    let t = irq_handler (record probed { calls = [] }) in
    (raised t.calls ≡ threaded probed.calls)
    × ((was : Bool) → overflow_enabled 0xF000_1000 was t.calls ≡ true)
    × ((was : Bool) → overflow_pending 0xF000_1000 was t.calls ≡ false)
irq_handler-probe_example = irq_handler-probe answers 7 loaded succeeds refl refl
