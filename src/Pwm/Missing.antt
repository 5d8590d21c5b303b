-- ===== src/Pwm/Missing.antt =====
-- lkml/ehrpwm/ehrpwm.c: the probe where something that it asked for is missing.
use bbblack.Base.{ℕ, ◌+◌, ◌*◌, ◌^◌, ◌≡◌, refl, ◌∙◌, ◌≢◌, Option, none, some}
use bbblack.Base.Run.{Run, On, On-and_then, and_then, On-any, On-map, Triple, runs_by, ◌then_runs◌}
use bbblack.Pwm.Driver.{
  Resource, PwmssInfo, Ehrpwm, Answers, deref, access, write, map_registers, enable_clocks, program,
  pwm_probe,
}

-- A part after which `X`, which is not about the state, still holds
pass : {X A : Type 0} (m : Run Ehrpwm A) → Triple (λ _. X) m (λ _ _. X) (λ _. Unit)
pass m = runs_by λ s x. On-map _ _ _ _ (m s) (On-any (m s)) (λ a t u. x) (λ t u. tt)

deref_lem :
    {X A : Type 0} (o : Option A) → Triple (λ _. X) (deref o) (λ _ _. X × (o ≢ none)) (λ _. Unit)
deref_lem none = runs_by (λ s x. tt)
deref_lem (some a) = runs_by (λ s x. (x, λ e. cc))

enable_clocks_needs :
    {X : Type 0} (c : Option ℕ) (p : Option PwmssInfo) (m : Option ℕ)
    → Triple
        (λ _. X)
        (enable_clocks c p m)
        (λ _ _. ((X × (c ≢ none)) × (p ≢ none)) × (m ≢ none))
        (λ _. Unit)
unfolding enable_clocks
enable_clocks_needs c p m = deref_lem c then_runs (λ ctrl. pass (write 4 1 ctrl) then_runs (λ _.
    deref_lem p then_runs (λ info. pass (write 4 (1 * 2 ^ 8) (info.pwmss_base + 8)) then_runs (λ _.
      pass (write 4 (1 * 2 ^ 2) (info.pwmss_base + 4)) then_runs (λ _.
        pass (access 4 (info.pwmss_base + 12)) then_runs (λ _.
          pass (access 4 (info.pwmss_base + 4)) then_runs (λ _. deref_lem m then_runs (λ cm.
            pass (λ s.
              and_then (write 4 2 cm s)
                (λ _ t. and_then (write 4 2 (cm + 96) t) (λ _. write 4 2 (cm + 212))))))))))))

-- What the mappings leave in the structure
abbrev Mapped : Answers → Ehrpwm → Type 0
Mapped a s =
    (a.resource ≢ none)
    × (s.ctrl ≡ a.ctrl)
    × (s.pwm_base ≡ a.pwm_base)
    × (s.cm_pers_base ≡ a.cm_pers_base)

mapped_by :
    (r : Option Resource) (c p m : Option ℕ) (a : Answers) (s : Ehrpwm)
    → a.resource ≡ r
    → On
        (λ _ t. (r ≢ none) × (t.ctrl ≡ c) × (t.pwm_base ≡ p) × (t.cm_pers_base ≡ m))
        (λ _. Unit)
        (map_registers (record a { resource = r; ctrl = c; pwm_base = p; cm_pers_base = m }) s)
unfolding map_registers
mapped_by none c p m a s e = tt
mapped_by (some r) none none none a s e = ((λ q. cc), refl, refl, refl)
mapped_by (some r) none none (some m) a s e = ((λ q. cc), refl, refl, refl)
mapped_by (some r) none (some p) none a s e = ((λ q. cc), refl, refl, refl)
mapped_by (some r) none (some p) (some m) a s e = ((λ q. cc), refl, refl, refl)
mapped_by (some r) (some c) none none a s e = ((λ q. cc), refl, refl, refl)
mapped_by (some r) (some c) none (some m) a s e = ((λ q. cc), refl, refl, refl)
mapped_by (some r) (some c) (some p) none a s e = ((λ q. cc), refl, refl, refl)
mapped_by (some r) (some c) (some p) (some m) a s e = ((λ q. cc), refl, refl, refl)

-- The probe returns only 0, no error, and only if the memory resource, the three mappings and the data of
-- the parent device were all there.
pub pwm_probe_needs :
    (a : Answers) (s : Ehrpwm)
    → On
        (λ ret _.
          (ret ≡ 0)
          × (a.resource ≢ none)
          × (a.ctrl ≢ none)
          × (a.pwm_base ≢ none)
          × (a.cm_pers_base ≢ none)
          × (a.parent ≢ none))
        (λ _. Unit)
        (pwm_probe a s)
unfolding pwm_probe
pwm_probe_needs a s =
    On-and_then (λ _. Mapped a) _ (λ _. Unit) (map_registers a s) _
      (mapped_by a.resource a.ctrl a.pwm_base a.cm_pers_base a s refl)
      (λ _ t (has_resource, e_ctrl, e_pwm, e_cm).
        ((enable_clocks_needs t.ctrl a.parent t.cm_pers_base then_runs (λ _.
            deref_lem t.pwm_base then_runs (λ b. pass (program b) then_runs (λ _.
              runs_by λ u ((((_, ctrl), parent), cm), pwm). (
                refl,
                has_resource,
                λ q. ctrl (e_ctrl ∙ q),
                λ q. pwm (e_pwm ∙ q),
                λ q. cm (e_cm ∙ q),
                parent,
              ))))).runs
          t tt))
