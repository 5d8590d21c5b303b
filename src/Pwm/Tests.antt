-- ===== src/Pwm/Tests.antt =====
-- lkml/ehrpwm/ehrpwm.c: a device whose mappings succeed, without its control module's region.
use bbblack.Base.{ℕ, ◌+◌, ◌≡◌, ◌≢◌, ◌↔◌, refl, true, false, ◌&&◌, none, [], ◌∷◌, arith, length}
use bbblack.Base.Int.{ℤ, pos}
use bbblack.Base.Run.{Run, On, ok, faults, fault, pure, and_then, ◌>>=◌}
use bbblack.Pwm.Driver.{
  Resource, PwmssInfo, Ehrpwm, Task, task, null, pwm_probe, read_pwm, is_mapped, mem_region,
  cm_pers_region, ctrl_region, tbcnt,
}
use bbblack.Pwm.Access.{HasBytes, HasBytes-head, mapped_answers, probed}
use bbblack.Pwm.Registers.{IsPwm, pwm_probe_programs}
use bbblack.Pwm.Regions.{removed}
use bbblack.Pwm.Module.{pwm_init, pwm_exit, pwm_exit-pwm_init}
use bbblack.Pwm.Missing.{pwm_probe_needs}
use bbblack.Pwm.Steps.{Module, started, stopping, unloaded, Steps, start, next, stop}
use bbblack.Pwm.Unload.{read_pwm_safe, pwm_exit_ends, unbind_faults}

abbrev resource : Resource
resource = record { start = 1210122752; end = 1210122879 }

abbrev parent : PwmssInfo
parent = record { pwmss_base = 4096 }

abbrev fresh : Ehrpwm
fresh = record {
  r_mem = none;
  pwm_base = none;
  cm_pers_base = none;
  ctrl = none;
  my_thread = null;
  mappings = record { start = 4096; length = 16 } ∷ [];
  given = [];
  released = [];
  writes = [];
}

has_parent : HasBytes fresh.mappings parent.pwmss_base 16
has_parent = HasBytes-head (record { start = 4096; length = 16 }) []

pwm_probe_programs_example :
    On
      (λ n t. (n ≡ 0) × IsPwm 8192 t.writes)
      (λ _. ⊥)
      (pwm_probe (mapped_answers resource 8192 12288 16384 parent true true false true) fresh)
pwm_probe_programs_example =
    pwm_probe_programs resource 8192 12288 16384 parent true true false true fresh has_parent
      (omega arith)

-- A kernel with one device, whose removal leaves nothing to look at, and a thread that stops when asked.
abbrev register : Run Ehrpwm ℕ → Run Ehrpwm ℤ
register probe s = and_then (probe s) (λ n t. (ok (pos n), t))

abbrev unregister : Run Ehrpwm ℕ → Run Ehrpwm Unit
unregister remove s = and_then (remove s) (λ n t. (ok tt, t))

abbrev kthread_stop : Task → Run Ehrpwm Unit
kthread_stop task = pure tt
kthread_stop _ = fault

pwm_exit-pwm_init_example :
    On
      (λ n t.
        (n ≡ pos 0)
        × (t.mappings ≡ fresh.mappings)
        × (t.released ≡ cm_pers_region ∷ mem_region resource ∷ ctrl_region ∷ [])
        × ((length t.given ≡ length t.released) ↔ ((true && true && false) ≡ true)))
      (λ _. ⊥)
      (and_then
        (pwm_init register
          (mapped_answers resource 8192 12288 16384 parent true true false true)
          fresh)
        (λ n. pwm_exit kthread_stop unregister >>= λ _. pure n))
pwm_exit-pwm_init_example =
    pwm_exit-pwm_init register (λ probe s t e. rw e refl) unregister (λ remove s t n e. rw e refl)
      kthread_stop (λ s. refl) resource 8192 12288 16384 parent true true false fresh has_parent
      (omega arith) ((λ e. omega arith), tt) ((λ e. omega arith), tt) ((λ e. omega arith), tt) refl
      refl

abbrev running : Module
running = started (probed resource 8192 12288 16384 parent true true false true fresh)

abbrev asked : Module
asked = record running { should_stop = true; phase = stopping }

asked-Steps : Steps false running asked
asked-Steps = next running running asked (start running) (stop running refl refl)

read_pwm_safe_example : read_pwm true asked.driver ≡ (ok false, asked.driver)
read_pwm_safe_example =
    read_pwm_safe resource 8192 12288 16384 parent true true false fresh asked (omega arith)
      asked-Steps refl

pwm_exit_ends_example :
    (u : Module) × Steps false asked u
    × (u.phase ≡ unloaded)
    × (u.driver ≡ removed resource 8192 12288 16384 parent true true false true fresh)
    × (u.alive ≡ false)
pwm_exit_ends_example =
    pwm_exit_ends resource 8192 12288 16384 parent true true false fresh asked (omega arith)
      asked-Steps refl

nowhere_else : is_mapped fresh.mappings (8192 + tbcnt) 2 ≡ false
unfolding is_mapped
nowhere_else = refl

unbind_faults_example :
    (t : Module) × Steps true running t
    × (t.alive ≡ true)
    × (read_pwm t.should_stop t.driver ≡ (faults, t.driver))
unbind_faults_example =
    unbind_faults resource 8192 12288 16384 parent true true false fresh nowhere_else

pwm_probe_needs_example :
    let a = mapped_answers resource 8192 12288 16384 parent true true false true in
    On
      (λ ret _.
        (ret ≡ 0)
        × (a.resource ≢ none)
        × (a.ctrl ≢ none)
        × (a.pwm_base ≢ none)
        × (a.cm_pers_base ≢ none)
        × (a.parent ≢ none))
      (λ _. Unit)
      (pwm_probe a fresh)
pwm_probe_needs_example =
    pwm_probe_needs (mapped_answers resource 8192 12288 16384 parent true true false true) fresh
