-- ===== src/Bus/Match.antt =====
-- lkml/ldm/bus/custom_device.c: which devices a driver matches, and what the bus makes of its probe.
use bbblack.Base.{
  ℕ, zero, suc, ◌<◌, ◌≤◌, ◌≡◌, refl, ap, ap₂, ◌∙◌, ◌↔◌, ◌⊎◌, true, false, Option, none, some, List,
  [], ◌∷◌, ◌++◌, ltb, if◌then◌else◌, arith, length, Bool-cases, inl, inr,
}
use bbblack.Base.Int.{ℤ, pos, negsuc, minus, is_nonzero}
use bbblack.Bus.Types.{CustomDevice, CustomDriver}
use bbblack.Bus.Core.{
  enomem, strncmp, lognot, probe_ok, custom_match, custom_hotplug, custom_probe, overflow, device,
  name_size, custom_device_alloc,
}

-- `b` is how `a` begins.
abbrev pub StartsWith : List ℕ → List ℕ → Type 0
StartsWith a b = (rest : List ℕ) × (a ≡ b ++ rest)

strncmp_step :
    (x y n : ℕ) (a b : List ℕ)
    → strncmp (x ∷ a) (y ∷ b) (suc n) ≡ pos 0
    → (x ≡ y) × (strncmp a b n ≡ pos 0)
unfolding strncmp
strncmp_step x y n a b h = ground arith

strncmp→StartsWith : (a b : List ℕ) → strncmp a b (length b) ≡ pos 0 → StartsWith a b
unfolding strncmp
strncmp→StartsWith a [] h = (a, refl)
strncmp→StartsWith [] (y ∷ b) h = cc
strncmp→StartsWith (x ∷ a) (y ∷ b) h =
    let (e, h') = strncmp_step x y (length b) a b h in
    let (rest, e') = strncmp→StartsWith a b h' in (rest, ap₂ ◌∷◌ e e')

StartsWith→strncmp : (b rest : List ℕ) → strncmp (b ++ rest) b (length b) ≡ pos 0
unfolding strncmp
StartsWith→strncmp [] rest = refl
StartsWith→strncmp (y ∷ b) rest = ground (arith, StartsWith→strncmp b rest)

lognot_iff : (z : ℤ) → (lognot z ≡ pos 1) ↔ (z ≡ pos 0)
lognot_iff (pos zero) = (λ _. refl, λ _. refl)
lognot_iff (pos (suc n)) = (λ e. cc, λ e. cc)
lognot_iff (negsuc n) = (λ e. cc, λ e. cc)

-- A driver matches a device exactly when the name of the device begins with the name of the driver.
-- So "Custom-Device1" also matches "Custom-Device10", and a driver with an empty name every device.
pub custom_match_iff :
    (dev_name driver_name : List ℕ)
    → (custom_match dev_name driver_name ≡ pos 1) ↔ StartsWith dev_name driver_name
unfolding custom_match
custom_match_iff a b = (
  λ h. strncmp→StartsWith a b ((lognot_iff _).0 h),
  λ (rest, e). (lognot_iff (strncmp a b (length b))).1 (rw e (StartsWith→strncmp b rest)),
)

zero_of_test : (z : ℤ) → (if is_nonzero z then false else true) ≡ true → z ≡ pos 0
zero_of_test (pos zero) h = refl
zero_of_test (pos (suc n)) h = cc
zero_of_test (negsuc n) h = cc

probe_ok_iff :
    (p : Option (CustomDevice → ℤ)) (dev : CustomDevice)
    → (probe_ok p dev ≡ true) ↔ ((f : CustomDevice → ℤ) × (p ≡ some f) × (f dev ≡ pos 0))
probe_ok_iff none dev = (λ h. cc, λ (f, e, z). cc)
probe_ok_iff (some f) dev =
    (λ h. (f, refl, zero_of_test (f dev) h), λ (g, e, z). ap (λ o. probe_ok o dev) e ∙ rw z)

-- The probe of the bus returns 0 whatever the probe of the driver returns, and logs success exactly
-- when the driver has a probe and that returns 0: a failure does not reach the kernel.
pub custom_probe_lem :
    (d : CustomDriver) (dev : CustomDevice)
    → ((custom_probe d dev).0 ≡ pos 0)
      × (((custom_probe d dev).1 ≡ true)
          ↔ ((f : CustomDevice → ℤ) × (d.probe ≡ some f) × (f dev ≡ pos 0)))
unfolding custom_probe
custom_probe_lem d dev = (refl, probe_ok_iff d.probe dev)

-- An allocation that gets its memory writes past the end of `name` exactly for a name of 30 bytes or
-- more, and otherwise returns a device with that name and number.
pub custom_device_alloc_lem :
    (name : List ℕ) (id : ℕ)
    → ((custom_device_alloc true name id ≡ overflow) × (30 ≤ length name))
      ⊎ ((d : CustomDevice) × (custom_device_alloc true name id ≡ device d)
          × (length name < 30)
          × (d.name ≡ name)
          × (d.id ≡ id))
unfolding custom_device_alloc
custom_device_alloc_lem name id = elim (Bool-cases (ltb (length name) name_size)) [
  | inl h ↦ inr (
    record { name = name; id = id; dev_name = []; parent = none; bus = none },
    rw h,
    ground arith,
    refl,
    refl,
  )
  | inr h ↦ inl (rw h, ground arith)
]

-- `custom_hotplug` fails exactly when the text of 23 bytes and its NUL do not fit.
pub custom_hotplug_iff : (size : ℕ) → ((custom_hotplug size).0 ≡ minus enomem) ↔ (size ≤ 23)
unfolding custom_hotplug
custom_hotplug_iff size = ground arith
