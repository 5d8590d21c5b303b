-- ===== src/Bus/Tests.antt =====
-- lkml/ldm: the theorems on the bus at concrete data.
use bbblack.Base.{ℕ, ◌≡◌, refl, ◌↔◌, ◌⊎◌, true, none, some, List, [], ◌∷◌, codes}
use bbblack.Base.Int.{ℤ, pos, negsuc, is_neg}
use bbblack.Bus.Types.{custom_bus_type, custom_bus_parent, cus_dev, CustomDevice, CustomDriver}
use bbblack.Bus.Core.{custom_match, strncmp, State, Answers, custom_bus_init}
use bbblack.Bus.Client.{driver, custom_driver_init}
use bbblack.Bus.Match.{StartsWith, custom_match_iff}
use bbblack.Bus.Registry.{registered, first_failure, custom_bus_init_all_or_nothing}

abbrev first_device : CustomDevice
first_device = record {
  name = codes "Custom-Device1";
  id = 0;
  dev_name = [];
  parent = none;
  bus = none;
}

abbrev unloaded : State
unloaded = record { device = first_device; calls = [] }

abbrev answers : Answers
answers = record {
  bus_register_ret = pos 0;
  parent_register_ret = pos 0;
  device_register_ret = pos 0;
}

-- The driver of lkml/ldm/driver matches the device of lkml/ldm/bus.
driver_matches :
    (custom_match (codes "Custom-Device1") (codes "Custom-Device1") ≡ pos 1)
    × ((custom_driver_init (pos 0) driver).1.driver_name ≡ some (codes "Custom-Device1"))
unfolding custom_match strncmp custom_driver_init driver
driver_matches = (refl, refl)

custom_match_iff_example :
    (custom_match (codes "Custom-Device10") (codes "Custom-Device1") ≡ pos 1)
    ↔ StartsWith (codes "Custom-Device10") (codes "Custom-Device1")
custom_match_iff_example = custom_match_iff (codes "Custom-Device10") (codes "Custom-Device1")

abbrev failing : CustomDriver
failing = record { probe = some (λ _. negsuc 18); id = []; driver_name = none; bus = none }

abbrev long_name : List ℕ
long_name = codes "A-device-name-that-is-too-long-by-far"

custom_bus_init_all_or_nothing_example :
    let (r, t) = custom_bus_init (record answers { device_register_ret = negsuc 16 }) unloaded in
    let all : List ℤ = pos 0 ∷ pos 0 ∷ negsuc 16 ∷ [] in
    ((first_failure all ≡ none)
      × (r ≡ pos 0)
      × (registered [] t.calls ≡ cus_dev ∷ custom_bus_parent ∷ custom_bus_type ∷ []))
    ⊎ ((first_failure all ≡ some r) × (is_neg r ≡ true) × (registered [] t.calls ≡ []))
custom_bus_init_all_or_nothing_example =
    custom_bus_init_all_or_nothing (record answers { device_register_ret = negsuc 16 }) unloaded
