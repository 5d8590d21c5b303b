-- ===== src/Irq/Chip.antt =====
-- lkml/dmtimer/irq.c: `timer_irq_chip` and its operations.
use Prim.Native.Nat.{bit_and, bit_or}
use bbblack.Base.{
  ℕ, zero, suc, ◌+◌, ◌%◌, ◌^◌, Option, none, some, List, [], ◌∷◌, ◌++◌, ltb, if◌then◌else◌,
}
use bbblack.Base.Int.{ℤ, pos}
use bbblack.Base.Word.{u32_mod, sub32, complement, to_u32, to_int}

-- `struct bb_irq_chip` without the callbacks of `chip`.
pub record BbIrqChip : Type 0 where
  pub enabled_mask : ℕ
  pub base : ℕ

-- `d->irq - timer_irq_chip.base`
abbrev pub line_of : ℕ → BbIrqChip → ℕ
line_of irq chip = sub32 irq chip.base

-- `~(1 << line)`. A shift by 32 or more is undefined, and then there is no result.
abbrev pub not_line : ℕ → Option ℕ
not_line line = if ltb line 32 then some (complement 32 (2 ^ line)) else none

with_mask : (ℕ → ℕ → ℕ) → Option ℕ → BbIrqChip → Option BbIrqChip
with_mask op none chip = none
with_mask op (some m) chip = some (record chip { enabled_mask = op chip.enabled_mask m })

-- `enabledMask &= ~(1 << line)`
unfoldable pub irqmask : ℕ → BbIrqChip → Option BbIrqChip
unfolding with_mask
irqmask irq chip = with_mask bit_and (not_line (line_of irq chip)) chip

-- `enabledMask |= ~(1 << line)`
unfoldable pub irqunmask : ℕ → BbIrqChip → Option BbIrqChip
unfolding with_mask
irqunmask irq chip = with_mask bit_or (not_line (line_of irq chip)) chip

-- The calls that set up one interrupt number.
pub data Call : Type 0 where
  irq_set_chip : ℕ → Call
  irq_set_handler : ℕ → Call
  irq_modify_status : ℕ → Call
  irq_free_descs : ℕ → ℕ → Call

-- The body of the loop, for `i`.
abbrev pub setup_line : ℕ → ℕ → List Call
setup_line base i =
    let irq = (base + i) % u32_mod in
    irq_set_chip irq ∷ irq_set_handler irq ∷ irq_modify_status irq ∷ []

-- The loop from `i`, with `n` rounds left.
unfoldable pub setup_lines : ℕ → ℕ → ℕ → List Call
setup_lines zero base i = []
setup_lines (suc n) base i = setup_line base i ++ setup_lines n base (i + 1)

-- `timer_irq_chip.base` is unsigned, so the test for an error compares an unsigned number with 0.
unfoldable pub irq_alloc_chip : ℤ → BbIrqChip → BbIrqChip × List Call
unfolding setup_lines
irq_alloc_chip irq_alloc_descs_ret chip =
    let base = to_u32 irq_alloc_descs_ret in
    let chip' = record chip { base = base } in
    if ltb base 0 then (chip', []) else (chip', setup_lines 4 base 0)

unfoldable pub irq_free_chip : BbIrqChip → List Call
irq_free_chip chip = irq_free_descs chip.base 4 ∷ []

-- It returns 0 whatever happened.
unfoldable pub irq_init : ℤ → BbIrqChip → ℤ × BbIrqChip × List Call
irq_init irq_alloc_descs_ret chip =
    let (chip', calls) = irq_alloc_chip irq_alloc_descs_ret chip in (pos 0, chip', calls)

unfoldable pub get_irq : ℕ → BbIrqChip → ℤ
get_irq nested_irq_num chip = to_int ((chip.base + nested_irq_num) % u32_mod)
