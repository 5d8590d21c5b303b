-- ===== src/Dmtimer.antt =====
-- lkml/dmtimer/dmtimer.c: the platform driver of timer 7. `Driver` has its functions, the other
-- modules hold theorems.
pub mod Driver
mod Probe
mod Resources
mod Registers
mod Tests
