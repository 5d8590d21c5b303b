-- ===== src/Pwm/Driver.antt =====
-- lkml/ehrpwm/ehrpwm.c: the probe, the removal, the thread and the exit.
use Prim.Native.Nat.{bit_or}
use bbblack.Base.{
  ℕ, ◌+◌, ◌-◌, ◌*◌, ◌^◌, ◌==◌, leb, ◌&&◌, if◌then◌else◌, Bool, true, false, Option, none, some,
  List, [], ◌∷◌,
}
use bbblack.Base.Run.{Run, ◌>>=◌, ◌>>◌, pure, fault, get, modify}

-- `struct resource`: the first address and the last.
pub record Resource : Type 0 where
  pub start : ℕ
  pub end : ℕ

abbrev pub resource_size : Resource → ℕ
resource_size r = r.end - r.start + 1

-- `my_thread`: NULL, what `kthread_run` returns where it fails, or a thread.
pub data Task : Type 0 where
  null err task : Task

-- A part of the address space, by its first address and its length.
pub record Region : Type 0 where
  pub start : ℕ
  pub length : ℕ

-- `struct ehrpwm_struct`, of which `pdev`, `pwmss_base` and `virq` are not used, and what the driver has
-- of the kernel: the mappings that there are, the memory regions that it was given and those that it gave
-- back, and the registers that it wrote with the values, each list with the last first.
pub record Ehrpwm : Type 0 where
  pub r_mem : Option Resource
  pub pwm_base : Option ℕ
  pub cm_pers_base : Option ℕ
  pub ctrl : Option ℕ
  pub my_thread : Task
  pub mappings : List Region
  pub given : List Region
  pub released : List Region
  pub writes : List (ℕ × ℕ)

-- `struct pwmss_info` of the parent device
pub record PwmssInfo : Type 0 where
  pub pwmss_base : ℕ

-- What the kernel answers in the probe.
pub record Answers : Type 0 where
  pub resource : Option Resource
  pub has_pwm : Bool
  pub has_cm_pers : Bool
  pub has_ctrl : Bool
  pub pwm_base : Option ℕ
  pub cm_pers_base : Option ℕ
  pub ctrl : Option ℕ
  pub parent : Option PwmssInfo
  pub thread : Bool

abbrev pub cm_pers_region : Region
cm_pers_region = record { start = 1155530752; length = 1024 }

abbrev pub ctrl_region : Region
ctrl_region = record { start = 1155597924; length = 4 }

abbrev pub mem_region : Resource → Region
mem_region r = record { start = r.start; length = resource_size r }

-- An access to `width` bytes at an address: outside the mappings, it ends in a fault.
abbrev pub covers : Region → ℕ → ℕ → Bool
covers m a width = leb m.start a && leb (a + width) (m.start + m.length)

unfoldable pub is_mapped : List Region → ℕ → ℕ → Bool
is_mapped [] a width = false
is_mapped (m ∷ ms) a width = if covers m a width then true else is_mapped ms a width

-- A pointer that may be NULL, used as an address
abbrev pub deref : {A : Type 0} → Option A → Run Ehrpwm A
deref none = fault
deref (some a) = pure a

unfoldable pub access : ℕ → ℕ → Run Ehrpwm Unit
unfolding is_mapped
access width a s = (if is_mapped s.mappings a width then pure tt else fault) s

-- `iowrite32` with 4 and `iowrite16` with 2
unfoldable pub write : ℕ → ℕ → ℕ → Run Ehrpwm Unit
unfolding access
write width v a = do access width a; modify (λ s. record s { writes = (a, v) ∷ s.writes })

unfoldable pub request_mem_region : Region → Bool → Run Ehrpwm Unit
request_mem_region m granted =
    modify (λ s. record s { given = if granted then m ∷ s.given else s.given })

unfoldable pub ioremap : Region → Option ℕ → Run Ehrpwm (Option ℕ)
ioremap m none = pure none
ioremap m (some b) = do
  modify (λ s. record s { mappings = record { start = b; length = m.length } ∷ s.mappings })
  pure (some b)

-- Lines 83 to 107
unfoldable pub map_registers : Answers → Run Ehrpwm Unit
unfolding request_mem_region ioremap
map_registers A = do
  modify (λ s. record s { r_mem = A.resource })
  r ← deref A.resource
  request_mem_region (mem_region r) A.has_pwm
  request_mem_region cm_pers_region A.has_cm_pers
  request_mem_region ctrl_region A.has_ctrl
  ctrl ← ioremap ctrl_region A.ctrl
  modify (λ s. record s { ctrl = ctrl })
  pwm_base ← ioremap (mem_region r) A.pwm_base
  modify (λ s. record s { pwm_base = pwm_base })
  cm_pers_base ← ioremap cm_pers_region A.cm_pers_base
  modify (λ s. record s { cm_pers_base = cm_pers_base })

-- Lines 110 to 128: the clocks.
unfoldable pub enable_clocks : Option ℕ → Option PwmssInfo → Option ℕ → Run Ehrpwm Unit
unfolding write
enable_clocks ctrl parent cm_pers_base = do
  c ← deref ctrl
  write 4 1 c
  p ← deref parent
  write 4 (1 * 2 ^ 8) (p.pwmss_base + 8)
  write 4 (1 * 2 ^ 2) (p.pwmss_base + 4)
  access 4 (p.pwmss_base + 12)
  access 4 (p.pwmss_base + 4)
  m ← deref cm_pers_base
  write 4 2 m
  write 4 2 (m + 96)
  write 4 2 (m + 212)

-- The registers of pwm.h that are used.
abbrev pub tbctl : ℕ
tbctl = 0

abbrev pub tbcnt : ℕ
tbcnt = 8

abbrev pub tbprd : ℕ
tbprd = 10

abbrev pub cmpctl : ℕ
cmpctl = 14

abbrev pub cmpa : ℕ
cmpa = 18

abbrev pub cmpb : ℕ
cmpb = 20

abbrev pub aqctlb : ℕ
aqctlb = 24

-- Lines 131 to 148: the time base, the compare values and the action qualifier.
unfoldable pub program : ℕ → Run Ehrpwm Unit
unfolding write
program b = do
  write 2 (bit_or (bit_or 1 (7 * 2 ^ 7)) (7 * 2 ^ 10)) (b + tbctl)
  write 2 65535 (b + tbcnt)
  write 2 65535 (b + tbprd)
  write 2 0 (b + cmpctl)
  write 2 65280 (b + cmpa)
  write 2 65280 (b + cmpb)
  write 2 (bit_or 1 (3 * 2 ^ 6)) (b + aqctlb)

unfoldable pub pwm_probe : Answers → Run Ehrpwm ℕ
unfolding map_registers enable_clocks program
pwm_probe A = do
  map_registers A
  s ← get
  enable_clocks s.ctrl A.parent s.cm_pers_base
  b ← deref s.pwm_base
  program b
  modify (λ t. record t { my_thread = if A.thread then task else err })
  pure 0

-- `iounmap` of a pointer; NULL is not mapped.
abbrev pub without : ℕ → List Region → List Region
without b [] = []
without b (m ∷ ms) = let rest = without b ms in if m.start == b then rest else m ∷ rest

unfoldable pub iounmap : Option ℕ → Run Ehrpwm Unit
iounmap none = pure tt
iounmap (some b) = modify (λ s. record s { mappings = without b s.mappings })

unfoldable pub release_mem_region : Region → Run Ehrpwm Unit
release_mem_region m = modify (λ s. record s { released = m ∷ s.released })

unfoldable pub pwm_remove : Run Ehrpwm ℕ
unfolding iounmap release_mem_region
pwm_remove = do
  s ← get
  iounmap s.cm_pers_base
  iounmap s.pwm_base
  iounmap s.ctrl
  release_mem_region ctrl_region
  r ← deref s.r_mem
  release_mem_region (mem_region r)
  release_mem_region cm_pers_region
  pure 0

-- The thread, from one test of its loop to the next: whether it goes on.
unfoldable pub read_from : Bool → Option ℕ → Option ℕ → Run Ehrpwm Bool
unfolding access
read_from should_stop none cm_pers_base = pure false
read_from true (some b) cm_pers_base = pure false
read_from false (some b) cm_pers_base = do
  access 2 (b + tbcnt)
  access 2 (b + tbctl)
  access 2 (b + tbprd)
  m ← deref cm_pers_base
  access 4 m
  access 4 (m + 96)
  access 4 (m + 212)
  pure true

unfoldable pub read_pwm : Bool → Run Ehrpwm Bool
unfolding read_from
read_pwm should_stop s = read_from should_stop s.pwm_base s.cm_pers_base s
