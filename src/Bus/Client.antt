-- ===== src/Bus/Client.antt =====
-- lkml/ldm/driver/custom_driver.c: the driver for the device of the bus.
use bbblack.Base.{none, some, codes}
use bbblack.Base.Int.{ℤ, pos}
use bbblack.Bus.Types.{custom_bus_type, CustomDevice, CustomDriver}

unfoldable pub custom_probe : CustomDevice → ℤ
custom_probe dev = pos 0

unfoldable pub custom_remove : CustomDevice → ℤ
custom_remove dev = pos 0

-- `driver.name` is the text of `id`.
unfoldable pub custom_register_driver : ℤ → CustomDriver → ℤ × CustomDriver
custom_register_driver driver_register_ret d =
    (driver_register_ret, record d { bus = some custom_bus_type; driver_name = some d.id })

unfoldable pub driver : CustomDriver
unfolding custom_probe
driver = record {
  probe = some custom_probe;
  id = codes "Custom-Device1";
  driver_name = none;
  bus = none;
}

unfoldable pub custom_driver_init : ℤ → CustomDriver → ℤ × CustomDriver
unfolding custom_register_driver
custom_driver_init driver_register_ret d = custom_register_driver driver_register_ret d

-- `driver_unregister` belongs to the kernel, and `W` is what it changes.
module _ {W : Type 0} (driver_unregister : CustomDriver → W → W) where
  unfoldable pub custom_unregister_driver : CustomDriver → W → ℤ × W
  custom_unregister_driver d w = (pos 0, driver_unregister d w)

  unfoldable pub custom_driver_exit : CustomDriver → W → W
  unfolding custom_unregister_driver
  custom_driver_exit d w = (custom_unregister_driver d w).1
