-- ===== src/Bus/Registry.antt =====
-- lkml/ldm/bus/custom_device.c: what is registered after the initialisation and the exit.
use bbblack.Base.{
  ◌≡◌, refl, ap, ◌⊎◌, inl, inr, Bool, true, false, Option, none, some, List, [], ◌∷◌, ◌++◌,
  if◌then◌else◌, Bool-cases,
}
use bbblack.Base.Int.{ℤ, pos, is_neg}
use bbblack.Bus.Types.{Obj, custom_bus_type, custom_bus_parent, cus_dev}
use bbblack.Bus.Core.{
  Call, register, unregister, State, Answers, init_device, custom_bus_init, custom_bus_exit,
}

abbrev same : Obj → Obj → Bool
same custom_bus_type custom_bus_type = true
same custom_bus_parent custom_bus_parent = true
same cus_dev cus_dev = true
same _ _ = false

abbrev drop : Obj → List Obj → List Obj
drop o [] = []
drop o (p ∷ ps) = if same o p then ps else p ∷ drop o ps

-- What is registered after the calls, the latest first, from what was before.
abbrev pub registered : List Obj → List Call → List Obj
registered os [] = os
registered os (register o ∷ cs) = registered (o ∷ os) cs
registered os (unregister o ∷ cs) = registered (drop o os) cs

registered-append :
    (os : List Obj) (cs ds : List Call)
    → registered os (cs ++ ds) ≡ registered (registered os cs) ds
registered-append os [] ds = refl
registered-append os (register o ∷ cs) ds = registered-append (o ∷ os) cs ds
registered-append os (unregister o ∷ cs) ds = registered-append (drop o os) cs ds

-- The first of the results that is negative
abbrev pub first_failure : List ℤ → Option ℤ
first_failure [] = none
first_failure (r ∷ rs) = if is_neg r then some r else first_failure rs

abbrev pub results : Answers → List ℤ
results a = a.bus_register_ret ∷ a.parent_register_ret ∷ a.device_register_ret ∷ []

-- The initialisation registers all of the bus, its parent device and its device, and returns 0, if no
-- step fails; or it returns the negative value of the first step that failed, and leaves registered what
-- was before.
pub custom_bus_init_all_or_nothing :
    (a : Answers) (s : State)
    → let (r, t) = custom_bus_init a s in
      let before = registered [] s.calls in
      ((first_failure (results a) ≡ none)
        × (r ≡ pos 0)
        × (registered [] t.calls ≡ cus_dev ∷ custom_bus_parent ∷ custom_bus_type ∷ before))
      ⊎ ((first_failure (results a) ≡ some r)
          × (is_neg r ≡ true)
          × (registered [] t.calls ≡ before))
unfolding custom_bus_init init_device
custom_bus_init_all_or_nothing a s = elim (Bool-cases (is_neg a.bus_register_ret)) [
  | inl e ↦ inr (rw (e, custom_bus_init), rw (e, custom_bus_init) e, rw (e, custom_bus_init))
  | inr e ↦ elim (Bool-cases (is_neg a.parent_register_ret)) [
    | inl f ↦ inr (
      rw (e, custom_bus_init) (rw (f, custom_bus_init)),
      rw (e, custom_bus_init) (rw (f, custom_bus_init) f),
      rw (e, custom_bus_init) (rw (f, custom_bus_init) (simp registered-append)),
    )
    | inr f ↦ elim (Bool-cases (is_neg a.device_register_ret)) [
      | inl g ↦ inr (
        rw (e, custom_bus_init) (rw (f, custom_bus_init) (rw (g, custom_bus_init))),
        rw (e, custom_bus_init) (rw (f, custom_bus_init) (rw (g, custom_bus_init) g)),
        rw (e, custom_bus_init)
            (rw (f, custom_bus_init) (rw (g, custom_bus_init) (simp registered-append))),
      )
      | inr g ↦ inl (
        rw (e, custom_bus_init) (rw (f, custom_bus_init) (rw (g, custom_bus_init))),
        rw (e, custom_bus_init) (rw (f, custom_bus_init) (rw (g, custom_bus_init))),
        rw (e, custom_bus_init)
            (rw (f, custom_bus_init) (rw (g, custom_bus_init) (simp registered-append))),
      )
    ]
  ]
]

-- The exit after an initialisation that succeeded leaves registered what was before.
pub exit-custom_bus_init :
    (a : Answers) (s : State)
    → (custom_bus_init a s).0 ≡ pos 0
    → registered [] (custom_bus_exit (custom_bus_init a s).1).calls ≡ registered [] s.calls
unfolding custom_bus_exit
exit-custom_bus_init a s h = elim (custom_bus_init_all_or_nothing a s) [
  | inl (_, _, q) ↦ rw (registered-append, registered-append, q)
  | inr (_, n, _) ↦ cc (ap is_neg h)
]
