-- ===== src/Irq/Lines.antt =====
-- lkml/dmtimer/irq.c: masking and unmasking, line by line.
use Prim.Native.Nat.{bit_and, bit_or}
use bbblack.Base.{
  ℕ, ◌^◌, ◌<◌, ◌≡◌, refl, ◌∙◌, false, some, List, ◌++◌, ◌==◌, ltb, if◌then◌else◌, arith,
}
use bbblack.Base.Int.{ℤ, pos}
use bbblack.Base.Word.{
  complement, to_u32, bit, bit-lt, bit-bit_and, bit-bit_or, bit-complement, bit-pow, pow-lt,
}
use bbblack.Irq.Chip.{
  BbIrqChip, line_of, not_line, setup_line, irq_init, irqmask, irqunmask, irq_alloc_chip, Call,
}

bit-not_line :
    (k j : ℕ) → k < 32 → j < 32 → bit (complement 32 (2 ^ k)) j ≡ (if k == j then 0 else 1)
bit-not_line k j h h' =
    bit-complement 32 (2 ^ k) j (pow-lt 32 k h) h' ∙ rw (bit-pow k j) (ground arith)

not_line_lem : (k : ℕ) → k < 32 → not_line k ≡ some (complement 32 (2 ^ k))
not_line_lem k h = ground arith

-- Masking an interrupt number of the chip clears the bit of its line and no other.
pub irqmask_lem :
    (irq j : ℕ) (chip : BbIrqChip)
    → line_of irq chip < 32
    → j < 32
    → (c : BbIrqChip) × (irqmask irq chip ≡ some c)
      × (c.base ≡ chip.base)
      × (bit c.enabled_mask j ≡ (if line_of irq chip == j then 0 else bit chip.enabled_mask j))
unfolding irqmask
irqmask_lem irq j chip h h' =
    let k = line_of irq chip in
    let m = chip.enabled_mask in
    (
      record chip { enabled_mask = bit_and m (complement 32 (2 ^ k)) },
      rw (not_line_lem k h, irqmask),
      refl,
      bit-bit_and m (complement 32 (2 ^ k)) j
          ∙ rw (bit-not_line k j h h') (ground (arith, bit-lt m j)),
    )

-- Unmasking an interrupt number leaves the bit of its own line as it is, and sets those of all other
-- lines: `|=` is given the complement that belongs to `&=`.
pub irqunmask_lem :
    (irq j : ℕ) (chip : BbIrqChip)
    → line_of irq chip < 32
    → j < 32
    → (c : BbIrqChip) × (irqunmask irq chip ≡ some c)
      × (c.base ≡ chip.base)
      × (bit c.enabled_mask j ≡ (if line_of irq chip == j then bit chip.enabled_mask j else 1))
unfolding irqunmask
irqunmask_lem irq j chip h h' =
    let k = line_of irq chip in
    let m = chip.enabled_mask in
    (
      record chip { enabled_mask = bit_or m (complement 32 (2 ^ k)) },
      rw (not_line_lem k h, irqunmask),
      refl,
      bit-bit_or m (complement 32 (2 ^ k)) j
          ∙ rw (bit-not_line k j h h') (ground (arith, bit-lt m j)),
    )

not_below_zero : (b : ℕ) → ltb b 0 ≡ false
not_below_zero b = ground arith

-- The four lines, at the interrupt numbers from `base` on, modulo 2 ^ 32.
abbrev pub four_lines : ℕ → List Call
four_lines base =
    setup_line base 0 ++ (setup_line base 1 ++ (setup_line base 2 ++ setup_line base 3))

pub irq_alloc_chip_lem :
    (r : ℤ) (chip : BbIrqChip)
    → irq_alloc_chip r chip ≡ (record chip { base = to_u32 r }, four_lines (to_u32 r))
unfolding irq_alloc_chip
irq_alloc_chip_lem r chip = rw (not_below_zero (to_u32 r), irq_alloc_chip)

-- Whatever `irq_alloc_descs` returns, an error number too, the chip takes it for its base, all four
-- lines are set up there, and the initialisation returns 0.
pub irq_init_lem :
    (r : ℤ) (chip : BbIrqChip)
    → irq_init r chip ≡ (pos 0, record chip { base = to_u32 r }, four_lines (to_u32 r))
unfolding irq_init
irq_init_lem r chip = rw (irq_alloc_chip_lem r chip, irq_init)
