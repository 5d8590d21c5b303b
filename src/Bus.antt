-- ===== src/Bus.antt =====
-- lkml/ldm: the custom bus. `Types` has lkml/ldm/include/custom_bus.h, `Core` lkml/ldm/bus/custom_device.c
-- and `Client` lkml/ldm/driver/custom_driver.c; the other modules hold theorems.
pub mod Types
pub mod Core
pub mod Client
mod Match
mod Binding
mod Registry
mod Tests
