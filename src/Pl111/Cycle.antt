-- ===== src/Pl111/Cycle.antt =====
-- lkml/drm/fb_pl111.c: what a load and an unload of the module leave registered.
use bbblack.Base.{◌||◌, ◌≡◌, refl, ◌==◌, if◌then◌else◌, Bool, true, false, List, [], ◌∷◌, ◌++◌}
use bbblack.Base.Int.{ℤ, negsuc, pos, is_neg}
use bbblack.Pl111.Driver.{
  Call, drm_dev_register, platform_device_register, platform_driver_register,
  platform_driver_unregister, FbDevice, Answers, emit, pdrv_probe, pdrv_remove, fb_init, fb_exit,
}
use bbblack.Pl111.Laws.{is_refused, display_calls, mask_calls, pdrv_probe_lem}

pub data Thing : Type 0 where
  platform_device platform_driver drm_device : Thing

-- A list without its first platform driver
abbrev without_driver : List Thing → List Thing
without_driver [] = []
without_driver (platform_driver ∷ ts) = ts
without_driver (t ∷ ts) = t ∷ without_driver ts

-- What is registered after the calls, the last first, from what was before. A registration whose result
-- is negative registers nothing.
abbrev pub registered : List Thing → List Call → List Thing
registered ts [] = ts
registered ts (platform_device_register r ∷ cs) =
    registered (if is_neg r then ts else platform_device ∷ ts) cs
registered ts (platform_driver_register r ∷ cs) =
    registered (if is_neg r then ts else platform_driver ∷ ts) cs
registered ts (drm_dev_register r ∷ cs) = registered (if is_neg r then ts else drm_device ∷ ts) cs
registered ts (platform_driver_unregister ∷ cs) = registered (without_driver ts) cs
registered ts (_ ∷ cs) = registered ts cs

abbrev cycle_calls : ℤ → ℤ → ℤ → Bool → Bool → List Call
cycle_calls device_ret driver_ret drm_ret unset refused =
    (platform_device_register device_ret ∷ platform_driver_register driver_ret ∷ [])
    ++ (mask_calls unset ++ (if refused then [] else display_calls drm_ret))
    ++ (platform_driver_unregister ∷ [])

left :
    (device_ret driver_ret drm_ret : ℤ) (unset refused : Bool)
    → is_neg device_ret ≡ false
    → is_neg driver_ret ≡ false
    → registered [] (cycle_calls device_ret driver_ret drm_ret unset refused) ≡ (
        if is_neg drm_ret || refused
        then platform_device ∷ []
        else drm_device ∷ platform_device ∷ [])
left r r' (pos n) true true e e' = rw (e, e')
left r r' (pos n) true false e e' = rw (e, e')
left r r' (pos n) false true e e' = rw (e, e')
left r r' (pos n) false false e e' = rw (e, e')
left r r' (negsuc n) true true e e' = rw (e, e')
left r r' (negsuc n) true false e e' = rw (e, e')
left r r' (negsuc n) false true e e' = rw (e, e')
left r r' (negsuc n) false false e e' = rw (e, e')

-- A load whose registrations of the platform device and of the driver succeed returns 0 whatever the probe
-- answers, and the unload after it gives back only the driver: the platform device is still registered,
-- and so is the DRM device if the probe was not refused its mask and the DRM core took the device. It is
-- for a kernel that calls the probe when the driver is registered and the removal when it is
-- unregistered, from a state without earlier calls.
pub fb_exit-fb_init :
    (device_ret driver_ret : ℤ) (A : Answers) (d : FbDevice)
    → is_neg device_ret ≡ false
    → is_neg driver_ret ≡ false
    → d.calls ≡ []
    → let loaded = fb_init device_ret driver_ret (λ t. (pdrv_probe A t).1) d in
      let t = fb_exit (λ t. (pdrv_remove t).1) loaded.1 in
      (loaded.0 ≡ pos 0)
      × (registered [] t.calls ≡ (
          if is_neg A.dev_register || is_refused A
          then platform_device ∷ []
          else drm_device ∷ platform_device ∷ []))
unfolding fb_init fb_exit pdrv_remove
fb_exit-fb_init device_ret driver_ret A d e e' fresh =
    let d1 =
      emit (platform_device_register device_ret ∷ platform_driver_register driver_ret ∷ [])
        (record d { has_callbacks = true }) in
    let (_, c, _) = pdrv_probe_lem A d1 in
    (
      refl,
      rw c (
          rw fresh (
            left device_ret driver_ret A.dev_register (A.coherent_dma_mask == 0) (is_refused A) e
              e')),
    )
