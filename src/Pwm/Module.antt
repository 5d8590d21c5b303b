-- ===== src/Pwm/Module.antt =====
-- lkml/ehrpwm/ehrpwm.c: the load and the exit of the module. What the kernel does with the driver's
-- callbacks and with its thread is an argument.
use bbblack.Base.{ℕ, ◌≤◌, ◌≡◌, ◌↔◌, refl, Bool, true, ◌&&◌, [], ◌∷◌, length}
use bbblack.Base.Int.{ℤ, pos}
use bbblack.Base.Run.{Run, On, ok, and_then, ◌>>=◌, ◌>>◌, pure, get}
use bbblack.Pwm.Driver.{
  Resource, resource_size, PwmssInfo, Ehrpwm, Task, null, task, Answers, pwm_probe, pwm_remove,
  mem_region, cm_pers_region, ctrl_region,
}
use bbblack.Pwm.Access.{HasBytes, mapped_answers, probed, pwm_probe_lem}
use bbblack.Pwm.Regions.{IsFresh, removed, pwm_remove_lem, pwm_remove-pwm_probe}

-- `platform_driver_register` may call the probe, and its value is returned.
unfoldable pub pwm_init : (Run Ehrpwm ℕ → Run Ehrpwm ℤ) → Answers → Run Ehrpwm ℤ
pwm_init platform_driver_register A = platform_driver_register (pwm_probe A)

stop_thread : (Task → Run Ehrpwm Unit) → Task → Run Ehrpwm Unit
stop_thread kthread_stop null = pure tt
stop_thread kthread_stop t = kthread_stop t

-- `platform_driver_unregister` may call the removal.
unfoldable pub pwm_exit :
    (Task → Run Ehrpwm Unit) → (Run Ehrpwm ℕ → Run Ehrpwm Unit) → Run Ehrpwm Unit
unfolding stop_thread
pwm_exit kthread_stop platform_driver_unregister = do
  s ← get
  stop_thread kthread_stop s.my_thread
  platform_driver_unregister pwm_remove

-- With one device that matches: registering the driver calls the probe, and returns 0 if it did.
abbrev pub Binds : (Run Ehrpwm ℕ → Run Ehrpwm ℤ) → Type 0
Binds register =
    (probe : Run Ehrpwm ℕ) (s t : Ehrpwm) → probe s ≡ (ok 0, t) → register probe s ≡ (ok (pos 0), t)

-- Unregistering it calls the removal for the device that is bound, and does not look at its value.
abbrev pub Unbinds : (Run Ehrpwm ℕ → Run Ehrpwm Unit) → Type 0
Unbinds unregister =
    (remove : Run Ehrpwm ℕ) (s t : Ehrpwm) (n : ℕ)
    → remove s ≡ (ok n, t)
    → unregister remove s ≡ (ok tt, t)

module _ (register : Run Ehrpwm ℕ → Run Ehrpwm ℤ) (registers : Binds register)
    (unregister : Run Ehrpwm ℕ → Run Ehrpwm Unit) (unregisters : Unbinds unregister)
    (kthread_stop : Task → Run Ehrpwm Unit)
    (waits : (s : Ehrpwm) → kthread_stop task s ≡ (ok tt, s)) where
  -- Loading the module with a device whose resource has 26 bytes or more and whose mappings succeed, where
  -- the parent has its data and the 16 bytes of its registers are mapped and the thread can be started, and
  -- unloading it returns 0 from the load and takes away the mappings of the probe, where no other starts at
  -- the same address. It gives back three memory regions, whichever the probe was given: just as many as it
  -- was given exactly when all three were granted, if none was given or given back before. It is for a
  -- kernel that calls the probe when the driver is registered and the removal when it is unregistered, and
  -- waits for the thread in `kthread_stop`.
  pub pwm_exit-pwm_init :
      (r : Resource) (b m c : ℕ) (p : PwmssInfo) (has_pwm has_cm_pers has_ctrl : Bool) (s : Ehrpwm)
      → HasBytes s.mappings p.pwmss_base 16
      → 26 ≤ resource_size r
      → IsFresh m s.mappings
      → IsFresh b s.mappings
      → IsFresh c s.mappings
      → s.given ≡ []
      → s.released ≡ []
      → On
          (λ n t.
            (n ≡ pos 0)
            × (t.mappings ≡ s.mappings)
            × (t.released ≡ cm_pers_region ∷ mem_region r ∷ ctrl_region ∷ [])
            × ((length t.given ≡ length t.released)
                ↔ ((has_pwm && has_cm_pers && has_ctrl) ≡ true)))
          (λ _. ⊥)
          (and_then
            (pwm_init register (mapped_answers r b m c p has_pwm has_cm_pers has_ctrl true) s)
            (λ n. pwm_exit kthread_stop unregister >>= λ _. pure n))
  unfolding pwm_init pwm_exit stop_thread
  pwm_exit-pwm_init r b m c p has_pwm has_cm_pers has_ctrl s hp long fm fb fc g l =
      let P = probed r b m c p has_pwm has_cm_pers has_ctrl true s in
      let R = removed r b m c p has_pwm has_cm_pers has_ctrl true s in
      let loads = pwm_probe_lem r b m c p has_pwm has_cm_pers has_ctrl true s hp long in
      let unloads = pwm_remove_lem r b m c p has_pwm has_cm_pers has_ctrl true s in
      let (_, same, back, counts) = rw unloads at (
        rw loads at (
          pwm_remove-pwm_probe r b m c p has_pwm has_cm_pers has_ctrl true s hp long fm fb fc g
            l)) in
      rw (registers _ s P loads)
        (rw (waits P) (rw (unregisters pwm_remove P R 0 unloads) (refl, same, back, counts)))
