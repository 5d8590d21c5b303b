-- ===== src/Pwm/Steps.antt =====
-- lkml/ehrpwm/ehrpwm.c: the steps of the thread, of the exit of the module and of a removal of the device.
use bbblack.Base.{◌≡◌, Bool, true, false}
use bbblack.Base.Run.{ok}
use bbblack.Pwm.Driver.{Ehrpwm, task, pwm_remove, read_pwm}

-- How far the exit has come: `kthread_stop` asks the thread to stop and waits until it has returned;
-- then the driver is unregistered, by which the device is removed.
pub data Phase : Type 0 where
  loaded stopping unloaded : Phase

pub record Module : Type 0 where
  pub driver : Ehrpwm
  pub alive : Bool
  pub should_stop : Bool
  pub phase : Phase

-- After a probe that returned and that started the thread
abbrev pub started : Ehrpwm → Module
started d = record { driver = d; alive = true; should_stop = false; phase = loaded }

-- The steps of the thread and of `pwm_exit`, of which the test of `my_thread` for NULL succeeds after a
-- probe that returned. With `unbinds` there are also removals of the device while
-- the module stays loaded.
pub data Step (unbinds : Bool) : Module → Module → Type 0 where
  turn :
      (s : Module) (goes_on : Bool) (d : Ehrpwm)
      → s.alive ≡ true
      → read_pwm s.should_stop s.driver ≡ (ok goes_on, d)
      → Step unbinds s (record s { driver = d; alive = goes_on })
  stop :
      (s : Module)
      → s.phase ≡ loaded
      → s.driver.my_thread ≡ task
      → Step unbinds s (record s { should_stop = true; phase = stopping })
  unregister :
      (s : Module) (d : Ehrpwm)
      → s.phase ≡ stopping
      → s.alive ≡ false
      → pwm_remove s.driver ≡ (ok 0, d)
      → Step unbinds s (record s { driver = d; phase = unloaded })
  unbind :
      (s : Module) (d : Ehrpwm)
      → unbinds ≡ true
      → s.phase ≡ loaded
      → pwm_remove s.driver ≡ (ok 0, d)
      → Step unbinds s (record s { driver = d })

pub data Steps (unbinds : Bool) : Module → Module → Type 0 where
  start : (s : Module) → Steps unbinds s s
  next : (s t u : Module) → Steps unbinds s t → Step unbinds t u → Steps unbinds s u
