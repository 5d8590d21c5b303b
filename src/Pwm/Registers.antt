-- ===== src/Pwm/Registers.antt =====
-- lkml/ehrpwm/ehrpwm.c: what stands in the registers of the PWM module after the probe.
use bbblack.Base.{
  ℕ, ◌+◌, ◌/◌, ◌%◌, ◌^◌, ◌≤◌, ◌<◌, ◌≡◌, refl, ◌==◌, if◌then◌else◌, Bool, Option, none, some, List,
  [], ◌∷◌, arith,
}
use bbblack.Base.Run.{On}
use bbblack.Pwm.Driver.{
  Resource, resource_size, PwmssInfo, Ehrpwm, pwm_probe, tbctl, tbcnt, tbprd, cmpa, cmpb, aqctlb,
}
use bbblack.Pwm.Access.{HasBytes, mapped_answers, pwm_probe_lem}

-- The value that was written to an address last
abbrev pub last_write : List (ℕ × ℕ) → ℕ → Option ℕ
last_write [] a = none
last_write (w ∷ ws) a = let rest = last_write ws a in if w.0 == a then some w.1 else rest

-- `n` bits of a register from bit `lo` on
abbrev pub field : ℕ → ℕ → ℕ → ℕ
field lo n v = v / 2 ^ lo % 2 ^ n

-- The time base counts down from 65535, each of its clock's prescalers at its largest value and all
-- other bits of the control register 0; both compare values lie within the period, and the output B
-- is cleared at zero and toggled at the compare value A.
pub record IsPwm (b : ℕ) (ws : List (ℕ × ℕ)) : Type 0 where
  pub control : ℕ
  pub is_control : last_write ws (b + tbctl) ≡ some control
  pub counts_down : field 0 2 control ≡ 1
  pub high_speed_prescaler : field 7 3 control ≡ 7
  pub prescaler : field 10 3 control ≡ 7
  pub no_other : (field 2 5 control ≡ 0) × (field 13 3 control ≡ 0)
  pub counter : last_write ws (b + tbcnt) ≡ some 65535
  pub period : last_write ws (b + tbprd) ≡ some 65535
  pub compare : ℕ
  pub compare_a : last_write ws (b + cmpa) ≡ some compare
  pub compare_b : last_write ws (b + cmpb) ≡ some compare
  pub in_period : compare < 65535
  pub actions : ℕ
  pub is_actions : last_write ws (b + aqctlb) ≡ some actions
  pub at_zero : field 0 2 actions ≡ 1
  pub down_at_a : field 6 2 actions ≡ 3

-- Where the memory resource is there and large enough for the registers, every mapping succeeds, and
-- the parent has its data and its mapping, the probe returns 0 with the PWM module set up so, whatever
-- regions were refused and whether or not the thread could be started.
pub pwm_probe_programs :
    (r : Resource) (b m c : ℕ) (p : PwmssInfo) (has_pwm has_cm_pers has_ctrl thread : Bool)
    (s : Ehrpwm)
    → HasBytes s.mappings p.pwmss_base 16
    → 26 ≤ resource_size r
    → On
        (λ n t. (n ≡ 0) × IsPwm b t.writes)
        (λ _. ⊥)
        (pwm_probe (mapped_answers r b m c p has_pwm has_cm_pers has_ctrl thread) s)
pwm_probe_programs r b m c p has_pwm has_cm_pers has_ctrl thread s hp long =
    rw (pwm_probe_lem r b m c p has_pwm has_cm_pers has_ctrl thread s hp long) (
      refl,
      record {
        control = 8065;
        is_control = ground arith;
        counts_down = refl;
        high_speed_prescaler = refl;
        prescaler = refl;
        no_other = (refl, refl);
        counter = ground arith;
        period = ground arith;
        compare = 65280;
        compare_a = ground arith;
        compare_b = ground arith;
        in_period = omega arith;
        actions = 193;
        is_actions = ground arith;
        at_zero = refl;
        down_at_a = refl;
      },
    )
