-- ===== src/Pwm/Regions.antt =====
-- lkml/ehrpwm/ehrpwm.c: the memory regions and the mappings that the removal gives back.
use bbblack.Base.{
  All, ℕ, ◌≤◌, ◌≡◌, ◌≢◌, ◌↔◌, refl, ap, ◌∙◌, Bool, true, ◌&&◌, List, [], ◌∷◌, arith, length,
}
use bbblack.Base.Run.{On, ok, and_then}
use bbblack.Pwm.Driver.{
  Resource, resource_size, Region, PwmssInfo, Ehrpwm, pwm_probe, pwm_remove, iounmap,
  release_mem_region, without, is_mapped, mem_region, cm_pers_region, ctrl_region,
}
use bbblack.Pwm.Access.{HasBytes, mapped_answers, take_if, pwm_probe_lem, probed}

-- A mapping that is taken away might as well not have been there.
pub without_three :
    (x y z : ℕ) (m n o : Region) (ms : List Region)
    → m.start ≡ x
    → n.start ≡ y
    → o.start ≡ z
    → without z (without y (without x (m ∷ n ∷ o ∷ ms))) ≡ without z (without y (without x ms))
without_three x y z m n o ms e f g = ground (arith, e, f, g)

pub mapped-without :
    (x : ℕ) (ms : List Region) (a width : ℕ)
    → is_mapped (without x ms) a width ≡ true
    → is_mapped ms a width ≡ true
unfolding is_mapped
mapped-without x [] a width h = h
mapped-without x (m ∷ ms) a width h = ground (arith, mapped-without x ms a width)

-- An address at which no mapping starts
abbrev pub IsFresh : ℕ → List Region → Type 0
IsFresh x ms = All (λ m. m.start ≢ x) ms

without-IsFresh : (x : ℕ) (ms : List Region) → IsFresh x ms → without x ms ≡ ms
without-IsFresh x [] h = refl
without-IsFresh x (m ∷ ms) (h, hs) = ground (arith, h, without-IsFresh x ms hs)

module _ (r : Resource) (b m c : ℕ) (p : PwmssInfo)
    (has_pwm has_cm_pers has_ctrl thread : Bool) where
  abbrev pub removed : Ehrpwm → Ehrpwm
  removed s =
      let t : Ehrpwm = probed r b m c p has_pwm has_cm_pers has_ctrl thread s in
      record t {
        mappings = without c (without b (without m t.mappings));
        released = cm_pers_region ∷ mem_region r ∷ ctrl_region ∷ s.released;
      }

  pub pwm_remove_lem :
      (s : Ehrpwm)
      → pwm_remove (probed r b m c p has_pwm has_cm_pers has_ctrl thread s) ≡ (ok 0, removed s)
  unfolding pwm_remove iounmap release_mem_region
  pwm_remove_lem s = refl

  all_given :
      (length (
          take_if has_ctrl ctrl_region
            (take_if has_cm_pers cm_pers_region (take_if has_pwm (mem_region r) [])))
        ≡ 3)
      ↔ ((has_pwm && has_cm_pers && has_ctrl) ≡ true)
  all_given = ground arith

  -- A removal after a probe that mapped the registers returns 0 and takes away the mappings of the probe,
  -- where no other starts at the same address. It gives back three memory regions, whichever the probe
  -- was given: just as many as it was given exactly when all three were granted.
  pub pwm_remove-pwm_probe :
      (s : Ehrpwm)
      → HasBytes s.mappings p.pwmss_base 16
      → 26 ≤ resource_size r
      → IsFresh m s.mappings
      → IsFresh b s.mappings
      → IsFresh c s.mappings
      → s.given ≡ []
      → s.released ≡ []
      → On
          (λ n t.
            (n ≡ 0)
            × (t.mappings ≡ s.mappings)
            × (t.released ≡ cm_pers_region ∷ mem_region r ∷ ctrl_region ∷ [])
            × ((length t.given ≡ length t.released)
                ↔ ((has_pwm && has_cm_pers && has_ctrl) ≡ true)))
          (λ _. ⊥)
          (and_then
            (pwm_probe (mapped_answers r b m c p has_pwm has_cm_pers has_ctrl thread) s)
            (λ _. pwm_remove))
  pwm_remove-pwm_probe s hp long fm fb fc g l =
      let bare : without c (without b (without m s.mappings)) ≡ s.mappings =
        ap (λ ms. without c (without b ms)) (without-IsFresh m s.mappings fm)
        ∙ ap (without c) (without-IsFresh b s.mappings fb)
        ∙ without-IsFresh c s.mappings fc in
      rw (pwm_probe_lem r b m c p has_pwm has_cm_pers has_ctrl thread s hp long) (
        rw (pwm_remove_lem s) (
          refl,
          without_three m b c (record { start = m; length = 1024 })
                (record { start = b; length = resource_size r }) (record { start = c; length = 4 })
                s.mappings refl refl refl
              ∙ bare,
          ap (λ ms. cm_pers_region ∷ mem_region r ∷ ctrl_region ∷ ms) l,
          rw g (rw l all_given),
        ))
