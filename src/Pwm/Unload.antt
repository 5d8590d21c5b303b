-- ===== src/Pwm/Unload.antt =====
-- lkml/ehrpwm/ehrpwm.c: the thread next to the exit of the module and to a removal of the device.
use bbblack.Base.{
  ℕ, ◌+◌, ◌≤◌, ◌≡◌, refl, ap, sym, ◌∙◌, Bool, true, false, some, List, ◌∷◌, arith, inl, inr,
  Bool-cases, not,
}
use mathlib.Core.Path.{subst}
use bbblack.Base.Run.{ok, faults}
use bbblack.Pwm.Driver.{
  Resource, resource_size, Region, PwmssInfo, Ehrpwm, pwm_remove, read_pwm, read_from, access,
  without, is_mapped, tbcnt, tbctl, tbprd,
}
use bbblack.Pwm.Access.{HasBytes, HasBytes-head, HasBytes-tail, probed}
use bbblack.Pwm.Regions.{removed, pwm_remove_lem, without_three, mapped-without}
use bbblack.Pwm.Steps.{
  Phase, loaded, stopping, unloaded, Module, started, Step, turn, stop, unregister, unbind, Steps,
  start, next,
}

read_pwm_lem :
    (b m : ℕ) (should_stop : Bool) (s : Ehrpwm)
    → s.pwm_base ≡ some b
    → s.cm_pers_base ≡ some m
    → HasBytes s.mappings b 26
    → HasBytes s.mappings m 1024
    → read_pwm should_stop s ≡ (ok (not should_stop), s)
unfolding read_pwm read_from access
read_pwm_lem b m true s e f hb hm = simp e
read_pwm_lem b m false s e f hb hm = simp (
  e,
  f,
  hb (b + tbcnt) 2 (omega arith) (omega arith),
  hb (b + tbctl) 2 (omega arith) (omega arith),
  hb (b + tbprd) 2 (omega arith) (omega arith),
  hm m 4 (omega arith) (omega arith),
  hm (m + 96) 4 (omega arith) (omega arith),
  hm (m + 212) 4 (omega arith) (omega arith),
)

-- Until the driver is unregistered it is as the probe left it, and the thread is asked to stop exactly
-- while the exit waits; after that there is no thread.
abbrev pub Sound : Ehrpwm → Phase → Ehrpwm → Bool → Bool → Type 0
Sound P loaded d alive should_stop = (d ≡ P) × (should_stop ≡ false)
Sound P stopping d alive should_stop = (d ≡ P) × (should_stop ≡ true)
Sound P unloaded d alive should_stop = alive ≡ false

abbrev pub IsSound : Ehrpwm → Module → Type 0
IsSound P s = Sound P s.phase s.driver s.alive s.should_stop

-- `P` is the driver after the probe, with what the thread reads mapped.
module _ (P : Ehrpwm) (reads : (b : Bool) → read_pwm b P ≡ (ok (not b), P)) where
  read_keeps : (d d' : Ehrpwm) (b go : Bool) → d ≡ P → read_pwm b d ≡ (ok go, d') → d' ≡ P
  read_keeps d d' b go e f = ap (λ x. x.1) (sym f ∙ ap (read_pwm b) e ∙ reads b)

  turn-Sound :
      (ph : Phase) (d d' : Ehrpwm) (b go : Bool)
      → Sound P ph d true b
      → read_pwm b d ≡ (ok go, d')
      → Sound P ph d' go b
  turn-Sound loaded d d' b go (e, f) h = (read_keeps d d' b go e h, f)
  turn-Sound stopping d d' b go (e, f) h = (read_keeps d d' b go e h, f)
  turn-Sound unloaded d d' b go e h = cc

  Step-IsSound : (s t : Module) → IsSound P s → Step false s t → IsSound P t
  Step-IsSound s t h (turn s' go d a e) =
      turn-Sound s.phase s.driver d s.should_stop go
        (subst (λ x. Sound P s.phase s.driver x s.should_stop) a h) e
  Step-IsSound s t h (stop s' p q) =
      let (same, _) : Sound P loaded s.driver s.alive s.should_stop =
        subst (λ ph. Sound P ph s.driver s.alive s.should_stop) p h in
      (same, refl)
  Step-IsSound s t h (unregister s' d p q r) = q
  Step-IsSound s t h (unbind s' d p q r) = cc

  Steps-IsSound : (s t : Module) → Steps false s t → IsSound P s → IsSound P t
  Steps-IsSound s t (start s') h = h
  Steps-IsSound s t (next s' u t' p q) h = Step-IsSound u t (Steps-IsSound s u p h) q

  -- A thread that is there takes its turn without a fault.
  turn_is_safe :
      (ph : Phase) (d : Ehrpwm) (b : Bool) → Sound P ph d true b → read_pwm b d ≡ (ok (not b), d)
  turn_is_safe loaded d b (e, f) = rw e (reads b)
  turn_is_safe stopping d b (e, f) = rw e (reads b)
  turn_is_safe unloaded d b e = cc

  thread_safe :
      (t : Module)
      → Steps false (started P) t
      → t.alive ≡ true
      → read_pwm t.should_stop t.driver ≡ (ok (not t.should_stop), t.driver)
  thread_safe t p a = turn_is_safe t.phase t.driver t.should_stop (
      subst (λ x. Sound P t.phase t.driver x t.should_stop) a
        (Steps-IsSound (started P) t p (refl, refl)))

  module _ (R : Ehrpwm) (removes : pwm_remove P ≡ (ok 0, R)) where
    exit_from :
        (t : Module)
        → t.phase ≡ stopping
        → t.driver ≡ P
        → t.should_stop ≡ true
        → (u : Module) × Steps false t u × (u.phase ≡ unloaded) × (u.driver ≡ R) × (u.alive ≡ false)
    exit_from t p e f = elim (Bool-cases t.alive) [
      | inl a ↦
          let v : Module = record t { driver = P; alive = false } in
          let u : Module = record v { driver = R; phase = unloaded } in
          let ends : read_pwm t.should_stop t.driver ≡ (ok false, P) = rw f (rw e (reads true)) in
          (
            u,
            next t v u (next t t v (start t) (turn t false P a ends))
                (unregister v R p refl removes),
            refl,
            refl,
            refl,
          )
      | inr a ↦
          let u : Module = record t { driver = R; phase = unloaded } in
          (u, next t t u (start t) (unregister t R p a (rw e removes)), refl, refl, a)
    ]

    exit_ends :
        (t : Module)
        → Steps false (started P) t
        → t.phase ≡ stopping
        → (u : Module) × Steps false t u × (u.phase ≡ unloaded) × (u.driver ≡ R) × (u.alive ≡ false)
    exit_ends t p e =
        let (same, asked) : Sound P stopping t.driver t.alive t.should_stop =
          subst (λ ph. Sound P ph t.driver t.alive t.should_stop) e
            (Steps-IsSound (started P) t p (refl, refl)) in
        exit_from t e same asked

still_gone :
    (ms : List Region) (x y z a : ℕ)
    → is_mapped ms a 2 ≡ false
    → is_mapped (without z (without y (without x ms))) a 2 ≡ false
still_gone ms x y z a h = elim (Bool-cases (is_mapped (without z (without y (without x ms))) a 2)) [
  | inl q ↦
      let clash : true ≡ false =
        sym (
          mapped-without x ms a 2 (
            mapped-without y (without x ms) a 2
              (mapped-without z (without y (without x ms)) a 2 q)))
        ∙ h in
      cc
  | inr q ↦ q
]

module _ (r : Resource) (b m c : ℕ) (p : PwmssInfo) (has_pwm has_cm_pers has_ctrl : Bool)
    (s : Ehrpwm) where
  reads_probed :
      26 ≤ resource_size r
      → (ss : Bool)
      → read_pwm ss (probed r b m c p has_pwm has_cm_pers has_ctrl true s)
        ≡ (ok (not ss), probed r b m c p has_pwm has_cm_pers has_ctrl true s)
  reads_probed long ss =
      let cm : Region = record { start = m; length = 1024 } in
      let pw : Region = record { start = b; length = resource_size r } in
      let rest : List Region = record { start = c; length = 4 } ∷ s.mappings in
      read_pwm_lem b m ss (probed r b m c p has_pwm has_cm_pers has_ctrl true s) refl refl
        (λ a width lo hi.
          HasBytes-tail cm (pw ∷ rest) b (resource_size r) (HasBytes-head pw rest) a width lo
            (omega arith))
        (HasBytes-head cm (pw ∷ rest))

  -- After a probe that mapped the registers and started the thread, whatever turns the thread takes next to the exit of the
  -- module, every turn of a thread that is there finds the registers mapped, and ends the thread exactly
  -- if it was asked to stop.
  pub read_pwm_safe :
      (t : Module)
      → 26 ≤ resource_size r
      → Steps false (started (probed r b m c p has_pwm has_cm_pers has_ctrl true s)) t
      → t.alive ≡ true
      → read_pwm t.should_stop t.driver ≡ (ok (not t.should_stop), t.driver)
  read_pwm_safe t long =
      thread_safe (probed r b m c p has_pwm has_cm_pers has_ctrl true s) (reads_probed long) t

  -- After a probe that mapped the registers and started the thread, an exit that waits for the thread
  -- comes to its end: from wherever the thread is, there are steps to a state without a thread, in which
  -- the device was removed.
  pub pwm_exit_ends :
      (t : Module)
      → 26 ≤ resource_size r
      → Steps false (started (probed r b m c p has_pwm has_cm_pers has_ctrl true s)) t
      → t.phase ≡ stopping
      → (u : Module) × Steps false t u
        × (u.phase ≡ unloaded)
        × (u.driver ≡ removed r b m c p has_pwm has_cm_pers has_ctrl true s)
        × (u.alive ≡ false)
  pwm_exit_ends t long =
      exit_ends (probed r b m c p has_pwm has_cm_pers has_ctrl true s) (reads_probed long)
        (removed r b m c p has_pwm has_cm_pers has_ctrl true s)
        (pwm_remove_lem r b m c p has_pwm has_cm_pers has_ctrl true s) t

  -- After a probe that mapped the registers and started the thread, a removal of the device alone is also
  -- a step, and after it the next turn of the thread ends in a fault, where no other mapping has the
  -- registers.
  pub unbind_faults :
      is_mapped s.mappings (b + tbcnt) 2 ≡ false
      → (t : Module) × Steps true (started (probed r b m c p has_pwm has_cm_pers has_ctrl true s)) t
        × (t.alive ≡ true)
        × (read_pwm t.should_stop t.driver ≡ (faults, t.driver))
  unfolding read_pwm read_from access
  unbind_faults gone =
      let P : Ehrpwm = probed r b m c p has_pwm has_cm_pers has_ctrl true s in
      let R : Ehrpwm = removed r b m c p has_pwm has_cm_pers has_ctrl true s in
      let t : Module = record (started P) { driver = R } in
      let not_there : is_mapped R.mappings (b + tbcnt) 2 ≡ false =
        ap (λ ms. is_mapped ms (b + tbcnt) 2)
          (without_three m b c (record { start = m; length = 1024 })
            (record { start = b; length = resource_size r }) (record { start = c; length = 4 })
            s.mappings refl refl refl)
        ∙ still_gone s.mappings m b c (b + tbcnt) gone in
      (
        t,
        next (started P) (started P) t (start (started P)) (
            unbind (started P) R refl refl
              (pwm_remove_lem r b m c p has_pwm has_cm_pers has_ctrl true s)),
        refl,
        rw not_there refl,
      )
