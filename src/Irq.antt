-- ===== src/Irq.antt =====
-- lkml/dmtimer/irq.c: the interrupt chip with four lines.
pub mod Chip
pub mod Lines
