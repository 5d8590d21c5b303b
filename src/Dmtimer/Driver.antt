-- ===== src/Dmtimer/Driver.antt =====
-- lkml/dmtimer/dmtimer.c, as built without DEBUG and SINGLE. What the kernel answers is in
-- `Answers`; every call that has an effect is recorded, in order.
use bbblack.Base.{
  ℕ, ◌+◌, ◌%◌, Bool, Option, none, some, List, [], ◌∷◌, ◌++◌, ◌==◌, if◌then◌else◌, map,
}
use bbblack.Base.Int.{ℤ, pos, minus, is_nonzero}
use bbblack.Base.Word.{u32_mod, sub32, to_u32}
use bbblack.Irq.Chip.{BbIrqChip, Call as ChipCall, irq_init, get_irq}

abbrev pub cm_pers_regbase : ℕ
cm_pers_regbase = 0x44E0_0000

abbrev pub cm_pers_reglen : ℕ
cm_pers_reglen = 0x400

abbrev pub dmtimer7_regbase : ℕ
dmtimer7_regbase = 0x4804_A000

abbrev pub dmtimer7_reglen : ℕ
dmtimer7_reglen = 0x400

abbrev pub ebusy : ℕ
ebusy = 16

-- `struct dmtimer`. Without DEBUG nothing writes `my_thread`.
pub record DmtimerDrv : Type 0 where
  pub pdev : Option ℕ
  pub enable_base_addr : ℕ
  pub timer7_base : ℕ
  pub virq : ℕ
  pub my_thread : Option ℕ

pub data Call : Type 0 where
  request_mem_region : ℕ → ℕ → Call
  release_mem_region : ℕ → ℕ → Call
  ioremap : ℕ → ℕ → Call
  iounmap : ℕ → Call
  request_irq : ℕ → Call
  request_threaded_irq : ℕ → Call
  free_irq : ℕ → Call
  iowrite32 : ℕ → ℕ → Call
  wmb : Call
  chip : ChipCall → Call
  tasklet_schedule : Call
  tasklet_kill : Call
  handle_nested_irq : ℕ → Call
  kthread_stop : ℕ → Call
  platform_driver_register : Call
  platform_driver_unregister : Call

-- The module's globals and the calls so far.
pub record State : Type 0 where
  pub drv : DmtimerDrv
  pub timer_irq_chip : BbIrqChip
  pub calls : List Call

-- A memory resource of the device tree: `start` and `end`.
pub record Resource : Type 0 where
  pub start : ℕ
  pub end : ℕ

pub record Answers : Type 0 where
  pub r_mem : Option Resource
  pub virq : ℕ
  pub cm_pers_free : Bool
  pub timer_free : Bool
  pub enable_map : ℕ
  pub timer_map : ℕ
  pub request_irq_ret : ℤ
  pub irq_alloc_descs_ret : ℤ
  pub request_threaded_irq_ret : ℤ

abbrev pub emit : List Call → State → State
emit cs s = record s { calls = s.calls ++ cs }

-- A request for an interrupt, by its result. Neither result is used by the probe; as for the memory
-- regions, a request that fails reserves nothing and is not recorded.
abbrev pub if_granted : ℤ → Call → List Call
if_granted ret c = if is_nonzero ret then [] else c ∷ []

-- Lines 210 to 217: the chip and the nested interrupt.
unfoldable pub probe_irqs : Answers → State → State
probe_irqs a s =
    let (_, chip', setup) = irq_init a.irq_alloc_descs_ret s.timer_irq_chip in
    let nested_irq = to_u32 (get_irq 2 chip') in
    emit (map chip setup ++ if_granted a.request_threaded_irq_ret (request_threaded_irq nested_irq))
      (record s { timer_irq_chip = chip' })

-- Lines 222 to 226 and 231 to 238, of the addresses at which the two blocks are mapped.
abbrev pub enable_writes : ℕ → List Call
enable_writes enable = iowrite32 0x02 enable ∷ iowrite32 30002 (enable + 0x7c) ∷ wmb ∷ []

abbrev pub timer_writes : ℕ → List Call
timer_writes timer =
    iowrite32 0x02 (timer + 0x2c)
    ∷ iowrite32 0xFE91C9FF (timer + 0x3c)
    ∷ iowrite32 0xFE91C9FF (timer + 0x40)
    ∷ iowrite32 0x03 (timer + 0x38)
    ∷ []

-- What a probe comes to: it returns, or it uses a mapping that is NULL.
pub data ProbeResult : Type 0 where
  returns : ℤ → ProbeResult
  faults : ProbeResult

-- Lines 218 to 247. The mappings are not tested for NULL.
unfoldable pub probe_program : Answers → ℕ → State → ProbeResult × State
probe_program a pdev s =
    let t = emit (enable_writes a.enable_map) s in
    let u = emit (timer_writes a.timer_map) t in
    if a.enable_map == 0
    then (faults, s)
    else if a.timer_map == 0
    then (faults, t)
    else (returns (pos 0), record u { drv = record u.drv { pdev = some pdev } })

-- Lines 176 to 247: all that comes after the memory regions are reserved.
unfoldable pub probe_rest : Answers → ℕ → State → ProbeResult × State
unfolding probe_program
probe_rest a pdev s =
    let mapped = record s {
      drv = record s.drv { enable_base_addr = a.enable_map; timer7_base = a.timer_map };
      calls =
          s.calls
          ++ (ioremap cm_pers_regbase cm_pers_reglen
              ∷ ioremap dmtimer7_regbase dmtimer7_reglen
              ∷ if_granted a.request_irq_ret (request_irq s.drv.virq));
    } in
    probe_program a pdev (probe_irqs a mapped)

-- Lines 162 to 172: the two regions.
unfoldable pub probe_regions : Answers → Resource → ℕ → State → ProbeResult × State
probe_regions a r pdev s =
    let cm = request_mem_region cm_pers_regbase cm_pers_reglen in
    let timer = request_mem_region r.start ((sub32 r.end r.start + 1) % u32_mod) in
    if a.cm_pers_free
    then (if a.timer_free
        then probe_rest a pdev (emit (cm ∷ timer ∷ []) s)
        else (returns (minus ebusy), emit (cm ∷ []) s))
    else (returns (minus ebusy), s)

-- By the resource of the timer.
unfoldable pub probe_resource : Option Resource → Answers → ℕ → State → ProbeResult × State
probe_resource none a pdev s = (returns (minus 1), s)
probe_resource (some r) a pdev s = probe_regions a r pdev s

-- A request that fails is not recorded: it reserves nothing.
unfoldable pub probe : Answers → ℕ → State → ProbeResult × State
probe a pdev s =
    let t = record s { drv = record s.drv { virq = a.virq } } in
    if a.virq == 0 then (returns (minus 1), t) else probe_resource a.r_mem a pdev t

unfoldable pub remove : State → ℤ × State
remove s = (
  pos 0,
  emit
      (iowrite32 0x0 (s.drv.timer7_base + 0x7c)
        ∷ iowrite32 0x00 (s.drv.timer7_base + 0x2c)
        ∷ iounmap s.drv.enable_base_addr
        ∷ iounmap s.drv.timer7_base
        ∷ release_mem_region cm_pers_regbase cm_pers_reglen
        ∷ release_mem_region dmtimer7_regbase dmtimer7_reglen
        ∷ [])
      s,
)

-- `platform_driver_register` calls `dmtimer_probe` for a device that matches; its value is returned.
unfoldable pub init : ℤ → State → ℤ × State
init register_ret s = (register_ret, emit (platform_driver_register ∷ []) s)

stop_thread : Option ℕ → List Call
stop_thread none = []
stop_thread (some t) = kthread_stop t ∷ []

-- What `platform_driver_unregister` calls in turn, `dmtimer_remove` for a bound device, is `unbind`.
unfoldable pub exit : (State → State) → State → State
unfolding stop_thread
exit unbind s =
    let t = unbind (emit (stop_thread s.drv.my_thread ++ (platform_driver_unregister ∷ [])) s) in
    emit (tasklet_kill ∷ free_irq t.drv.virq ∷ []) t

-- `dmtimer_irq_handler`. It returns IRQ_HANDLED.
unfoldable pub irq_handler : State → State
irq_handler s =
    emit
      (iowrite32 0x30002 (s.drv.enable_base_addr + 0x7c)
        ∷ iowrite32 0x02 (s.drv.timer7_base + 0x30)
        ∷ iowrite32 0x02 (s.drv.timer7_base + 0x28)
        ∷ iowrite32 0x02 (s.drv.timer7_base + 0x2c)
        ∷ tasklet_schedule
        ∷ handle_nested_irq ((s.timer_irq_chip.base + 2) % u32_mod)
        ∷ [])
      s

-- `threaded_handler`
unfoldable pub threaded_handler : State → State
threaded_handler s =
    emit
      (iowrite32 0x02 (s.drv.timer7_base + 0x30)
        ∷ iowrite32 0x02 (s.drv.timer7_base + 0x28)
        ∷ iowrite32 0x02 (s.drv.timer7_base + 0x2c)
        ∷ tasklet_schedule
        ∷ [])
      s
