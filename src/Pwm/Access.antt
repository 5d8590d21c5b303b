-- ===== src/Pwm/Access.antt =====
-- lkml/ehrpwm/ehrpwm.c: accesses to registers that are mapped.
use bbblack.Base.{
  ℕ, ◌+◌, ◌*◌, ◌^◌, ◌≤◌, ◌≡◌, refl, if◌then◌else◌, Bool, true, some, List, ◌∷◌, arith,
}
use Prim.Native.Nat.{bit_or}
use bbblack.Base.Run.{ok}
use bbblack.Pwm.Driver.{
  Region, Resource, resource_size, PwmssInfo, Ehrpwm, Answers, is_mapped, access, write,
  enable_clocks, program, tbctl, tbcnt, tbprd, cmpctl, cmpa, cmpb, aqctlb, map_registers, pwm_probe,
  task, err, mem_region, cm_pers_region, ctrl_region,
}

-- The `n` bytes from `b` on are mapped.
abbrev pub HasBytes : List Region → ℕ → ℕ → Type 0
HasBytes ms b n = (a width : ℕ) → b ≤ a → a + width ≤ b + n → is_mapped ms a width ≡ true

pub HasBytes-head : (m : Region) (ms : List Region) → HasBytes (m ∷ ms) m.start m.length
unfolding is_mapped
HasBytes-head m ms a width lo hi = ground arith

pub HasBytes-tail :
    (m : Region) (ms : List Region) (b n : ℕ) → HasBytes ms b n → HasBytes (m ∷ ms) b n
unfolding is_mapped
HasBytes-tail m ms b n h a width lo hi = ground (arith, h a width lo hi)

abbrev pub programmed : ℕ → List (ℕ × ℕ) → List (ℕ × ℕ)
programmed b ws =
    (b + aqctlb, bit_or 1 (3 * 2 ^ 6))
    ∷ (b + cmpb, 65280)
    ∷ (b + cmpa, 65280)
    ∷ (b + cmpctl, 0)
    ∷ (b + tbprd, 65535)
    ∷ (b + tbcnt, 65535)
    ∷ (b + tbctl, bit_or (bit_or 1 (7 * 2 ^ 7)) (7 * 2 ^ 10))
    ∷ ws

pub program_lem :
    (b : ℕ) (s : Ehrpwm)
    → HasBytes s.mappings b 26
    → program b s ≡ (ok tt, record s { writes = programmed b s.writes })
unfolding program write access
program_lem b s h = simp (
  h (b + tbctl) 2 (omega arith) (omega arith),
  h (b + tbcnt) 2 (omega arith) (omega arith),
  h (b + tbprd) 2 (omega arith) (omega arith),
  h (b + cmpctl) 2 (omega arith) (omega arith),
  h (b + cmpa) 2 (omega arith) (omega arith),
  h (b + cmpb) 2 (omega arith) (omega arith),
  h (b + aqctlb) 2 (omega arith) (omega arith),
)

abbrev pub clocked : ℕ → PwmssInfo → ℕ → List (ℕ × ℕ) → List (ℕ × ℕ)
clocked c p m ws =
    (m + 212, 2)
    ∷ (m + 96, 2)
    ∷ (m, 2)
    ∷ (p.pwmss_base + 4, 1 * 2 ^ 2)
    ∷ (p.pwmss_base + 8, 1 * 2 ^ 8)
    ∷ (c, 1)
    ∷ ws

pub enable_clocks_lem :
    (c : ℕ) (p : PwmssInfo) (m : ℕ) (s : Ehrpwm)
    → HasBytes s.mappings c 4
    → HasBytes s.mappings p.pwmss_base 16
    → HasBytes s.mappings m 1024
    → enable_clocks (some c) (some p) (some m) s
      ≡ (ok tt, record s { writes = clocked c p m s.writes })
unfolding enable_clocks write access
enable_clocks_lem c p m s hc hp hm = simp (
  hc c 4 (omega arith) (omega arith),
  hp (p.pwmss_base + 8) 4 (omega arith) (omega arith),
  hp (p.pwmss_base + 4) 4 (omega arith) (omega arith),
  hp (p.pwmss_base + 12) 4 (omega arith) (omega arith),
  hm m 4 (omega arith) (omega arith),
  hm (m + 96) 4 (omega arith) (omega arith),
  hm (m + 212) 4 (omega arith) (omega arith),
)

-- The answers where the memory is there, every mapping succeeds and the parent has its data; the regions
-- may be refused, and the thread may fail.
abbrev pub mapped_answers : Resource → ℕ → ℕ → ℕ → PwmssInfo → Bool → Bool → Bool → Bool → Answers
mapped_answers r b m c p has_pwm has_cm_pers has_ctrl thread = record {
  resource = some r;
  has_pwm = has_pwm;
  has_cm_pers = has_cm_pers;
  has_ctrl = has_ctrl;
  pwm_base = some b;
  cm_pers_base = some m;
  ctrl = some c;
  parent = some p;
  thread = thread;
}

abbrev pub take_if : Bool → Region → List Region → List Region
take_if granted m ms = if granted then m ∷ ms else ms

module _ (r : Resource) (b m c : ℕ) (p : PwmssInfo)
    (has_pwm has_cm_pers has_ctrl thread : Bool) where
  -- After the mappings, and after the probe
  abbrev mapped_state : Ehrpwm → Ehrpwm
  mapped_state s = record s {
    r_mem = some r;
    pwm_base = some b;
    cm_pers_base = some m;
    ctrl = some c;
    mappings =
        record { start = m; length = 1024 }
        ∷ record { start = b; length = resource_size r }
        ∷ record { start = c; length = 4 }
        ∷ s.mappings;
    given =
        take_if has_ctrl ctrl_region
          (take_if has_cm_pers cm_pers_region (take_if has_pwm (mem_region r) s.given));
  }

  abbrev pub probed : Ehrpwm → Ehrpwm
  probed s = record (mapped_state s) {
    my_thread = if thread then task else err;
    writes = programmed b (clocked c p m s.writes);
  }

  pub pwm_probe_lem :
      (s : Ehrpwm)
      → HasBytes s.mappings p.pwmss_base 16
      → 26 ≤ resource_size r
      → pwm_probe (mapped_answers r b m c p has_pwm has_cm_pers has_ctrl thread) s
        ≡ (ok 0, probed s)
  unfolding pwm_probe map_registers
  pwm_probe_lem s hp long =
      let cm : Region = record { start = m; length = 1024 } in
      let pw : Region = record { start = b; length = resource_size r } in
      let ct : Region = record { start = c; length = 4 } in
      let ms : List Region = cm ∷ pw ∷ ct ∷ s.mappings in
      let has_c : HasBytes ms c 4 =
        HasBytes-tail cm (pw ∷ ct ∷ s.mappings) c 4
          (HasBytes-tail pw (ct ∷ s.mappings) c 4 (HasBytes-head ct s.mappings)) in
      let has_p : HasBytes ms p.pwmss_base 16 =
        HasBytes-tail cm (pw ∷ ct ∷ s.mappings) p.pwmss_base 16 (
          HasBytes-tail pw (ct ∷ s.mappings) p.pwmss_base 16
            (HasBytes-tail ct s.mappings p.pwmss_base 16 hp)) in
      let has_b : HasBytes ms b 26 = λ a width lo hi.
        HasBytes-tail cm (pw ∷ ct ∷ s.mappings) b (resource_size r)
          (HasBytes-head pw (ct ∷ s.mappings)) a width lo (omega arith) in
      rw
        (enable_clocks_lem c p m (mapped_state s) has_c has_p
          (HasBytes-head cm (pw ∷ ct ∷ s.mappings)))
        (rw (program_lem b (record (mapped_state s) { writes = clocked c p m s.writes }) has_b)
          refl)
