-- ===== src/Netfilter.antt =====
-- lkml/netfilter/netfilter.c: packet hooks with a switch in sysfs. `Hooks` has its functions, the other
-- modules hold theorems.
pub mod Hooks
mod Switch
mod Tests
