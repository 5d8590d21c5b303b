-- ===== src/Bus/Binding.antt =====
-- lkml/ldm/bus/custom_device.c, lkml/ldm/driver/custom_driver.c: the driver on the bus.
use bbblack.Base.{◌≡◌, refl, ◌↔◌, true, List, ℕ, some, codes}
use bbblack.Base.Int.{ℤ, pos}
use bbblack.Bus.Types.{CustomDevice}
use bbblack.Bus.Core.{custom_match, custom_probe, custom_register_device}
use bbblack.Bus.Client.{driver, custom_driver_init}
use bbblack.Bus.Match.{StartsWith, custom_match_iff}

-- Once the driver is initialised and a device registered, both are on the bus; the bus matches them
-- exactly when the name of the device begins with Custom-Device1, and its probe then finds the
-- driver's probe and logs success.
pub driver_binds_iff :
    (driver_register_ret device_register_ret : ℤ) (dev : CustomDevice)
    → let d = (custom_driver_init driver_register_ret driver).1 in
      let v = (custom_register_device device_register_ret dev).1 in
      (name : List ℕ) × (d.driver_name ≡ some name)
      × (d.bus ≡ v.bus)
      × ((custom_match v.dev_name name ≡ pos 1) ↔ StartsWith dev.name (codes "Custom-Device1"))
      × (custom_probe d v ≡ (pos 0, true))
unfolding custom_driver_init driver custom_register_device custom_probe
driver_binds_iff driver_register_ret device_register_ret dev =
    (codes "Custom-Device1", refl, refl, custom_match_iff dev.name (codes "Custom-Device1"), refl)
