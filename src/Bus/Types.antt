-- ===== src/Bus/Types.antt =====
-- lkml/ldm/include/custom_bus.h: the structures, with the fields that the modules use.
use bbblack.Base.{ℕ, Option, List}
use bbblack.Base.Int.{ℤ}

-- The objects to which `dev.parent` and `dev.bus` point.
pub data Obj : Type 0 where
  custom_bus_type custom_bus_parent cus_dev : Obj

-- `struct custom_device`. `name` is the text in the array of 30 bytes, `dev_name` that of `dev`.
pub record CustomDevice : Type 0 where
  pub name : List ℕ
  pub id : ℕ
  pub dev_name : List ℕ
  pub parent : Option Obj
  pub bus : Option Obj

-- `struct custom_driver`. `driver_name` is `driver.name`.
pub record CustomDriver : Type 0 where
  pub probe : Option (CustomDevice → ℤ)
  pub id : List ℕ
  pub driver_name : Option (List ℕ)
  pub bus : Option Obj
