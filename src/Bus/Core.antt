-- ===== src/Bus/Core.antt =====
-- lkml/ldm/bus/custom_device.c: the bus, its parent device and its one device. Texts are the bytes
-- up to the NUL.
use bbblack.Base.{
  ℕ, zero, suc, ◌-◌, Bool, true, false, Option, none, some, List, [], ◌∷◌, ◌++◌, ◌==◌, ltb, leb,
  if◌then◌else◌, length, take, codes,
}
use bbblack.Base.Int.{ℤ, pos, negsuc, minus, is_neg, is_nonzero}
use bbblack.Bus.Types.{Obj, custom_bus_type, custom_bus_parent, cus_dev, CustomDevice, CustomDriver}

abbrev pub enomem : ℕ
enomem = 12

-- The library's `strncmp`: the first difference among `n` bytes; a text that ends is followed by NUL.
unfoldable pub strncmp : List ℕ → List ℕ → ℕ → ℤ
strncmp a b zero = pos 0
strncmp [] [] (suc n) = pos 0
strncmp [] (y ∷ b) (suc n) = negsuc 0
strncmp (x ∷ a) [] (suc n) = pos 1
strncmp (x ∷ a) (y ∷ b) (suc n) =
    let rest = strncmp a b n in if x == y then rest else if ltb x y then negsuc 0 else pos 1

-- `!x`
abbrev pub lognot : ℤ → ℤ
lognot x = if is_nonzero x then pos 0 else pos 1

unfoldable pub custom_match : List ℕ → List ℕ → ℤ
custom_match dev_name driver_name = lognot (strncmp dev_name driver_name (length driver_name))

-- What `custom_hotplug` leaves in the buffer, and its value.
unfoldable pub custom_hotplug : ℕ → ℤ × List ℕ
custom_hotplug buffer_size =
    let text = codes "CUSTOM_BUS_VERSION=1234" in
    (if leb buffer_size (length text) then minus enomem else pos 0, take (buffer_size - 1) text)

-- Whether `cdriver->probe && cdriver->probe(cdevice) == 0`. The addresses that `container_of` gives
-- are not NULL.
abbrev pub probe_ok : Option (CustomDevice → ℤ) → CustomDevice → Bool
probe_ok none cdevice = false
probe_ok (some probe) cdevice = if is_nonzero (probe cdevice) then false else true

-- The value, and whether it is success that is logged.
unfoldable pub custom_probe : CustomDriver → CustomDevice → ℤ × Bool
custom_probe cdriver cdevice = (pos 0, probe_ok cdriver.probe cdevice)

-- `driver_register` belongs to the kernel; its value is an argument.
unfoldable pub custom_register_driver : ℤ → CustomDriver → ℤ × CustomDriver
custom_register_driver driver_register_ret d =
    (driver_register_ret, record d { bus = some custom_bus_type })

-- `driver_unregister` is an argument too.
unfoldable pub custom_unregister_driver :
    {W : Type 0} → (CustomDriver → W → W) → CustomDriver → W → ℤ × W
custom_unregister_driver driver_unregister d w = (pos 0, driver_unregister d w)

unfoldable pub custom_register_device : ℤ → CustomDevice → ℤ × CustomDevice
custom_register_device device_register_ret d = (
  device_register_ret,
  record d { parent = some custom_bus_parent; bus = some custom_bus_type; dev_name = d.name },
)

-- `custom_device_alloc`: NULL, a `strcpy` past the end of the array `name`, or the device.
pub data Alloc : Type 0 where
  null : Alloc
  overflow : Alloc
  device : CustomDevice → Alloc

abbrev pub name_size : ℕ
name_size = 30

unfoldable pub custom_device_alloc : Bool → List ℕ → ℕ → Alloc
custom_device_alloc kzalloc_ok name id =
    if kzalloc_ok
    then (if ltb (length name) name_size
        then device (record { name = name; id = id; dev_name = []; parent = none; bus = none })
        else overflow)
    else null

-- The calls that change what is registered; one that fails is left out.
pub data Call : Type 0 where
  register : Obj → Call
  unregister : Obj → Call

-- The module's device and the calls so far.
pub record State : Type 0 where
  pub device : CustomDevice
  pub calls : List Call

pub record Answers : Type 0 where
  pub bus_register_ret : ℤ
  pub parent_register_ret : ℤ
  pub device_register_ret : ℤ

abbrev pub emit : List Call → State → State
emit cs s = record s { calls = s.calls ++ cs }

-- Lines 161 to 165: `err0` and, before it, `err1`.
abbrev pub err0 : ℤ → State → ℤ × State
err0 ret s = (ret, s)

abbrev pub err1 : ℤ → State → ℤ × State
err1 ret s = err0 ret (emit (unregister custom_bus_type ∷ []) s)

unfoldable pub init_device : Answers → State → ℤ × State
unfolding custom_register_device
init_device a s =
    let (ret, d) = custom_register_device a.device_register_ret s.device in
    let t = record s { device = d } in
    if is_neg ret
    then err1 ret (emit (unregister custom_bus_parent ∷ []) t)
    else (pos 0, emit (register cus_dev ∷ []) t)

unfoldable pub custom_bus_init : Answers → State → ℤ × State
unfolding init_device
custom_bus_init a s =
    if is_neg a.bus_register_ret
    then err0 a.bus_register_ret s
    else (let t = emit (register custom_bus_type ∷ []) s in
        if is_neg a.parent_register_ret
        then err1 a.parent_register_ret t
        else init_device a (emit (register custom_bus_parent ∷ []) t))

unfoldable pub custom_unregister_device : Obj → State → State
custom_unregister_device dev s = emit (unregister dev ∷ []) s

unfoldable pub custom_bus_exit : State → State
unfolding custom_unregister_device
custom_bus_exit s =
    emit (unregister custom_bus_parent ∷ unregister custom_bus_type ∷ [])
      (custom_unregister_device cus_dev s)
