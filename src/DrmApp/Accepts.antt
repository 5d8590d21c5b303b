-- ===== src/DrmApp/Accepts.antt =====
-- lkml/drm-app/drm_app.c: which connectors get a buffer, and a card with more than ten of them.
use bbblack.Base.{
  ap, ℕ, zero, suc, ◌+◌, ◌*◌, ◌%◌, ◌<◌, ◌≡◌, ◌≢◌, refl, sym, ◌∙◌, ◌==◌, ==_iff, Bool, true, false,
  Option, none, some, List, ltb, inl, inr, Bool-cases, get_elem?, arith, get_or, overwrite,
  if◌then◌else◌, set, replicate,
}
use bbblack.Base.Run.{On, On-map, Triple, runs_by, ◌then_runs◌, pure, fault}
use bbblack.DrmApp.Types.{
  Mode, Connector, Details, Kernel, FbBase, null, empty_slot, Slot, Env, Prog, kernel, word64,
  zeros,
}
use bbblack.DrmApp.Scan.{
  or_fault, create_buffer, set_mode, is_skipped, use_connector, details_overflow, with_details,
  read_connector, connector, scan, asked, replied, no_modes, no_mode, force_connector,
}
use bbblack.DrmApp.Crtc.{used}
use bbblack.DrmApp.Arrays.{get_elem?-set_other, word64_lem}

-- Every entry of `fb_base` that is not NULL is for a connector that was read as 201.
abbrev pub Accepted : List ℕ → List Slot → Type 0
Accepted ws slots =
    (j : ℕ) (b : Slot) → get_elem? slots j ≡ some b → b.base ≢ null → word64 ws j ≡ some 201

Accepted-set :
    (ws : List ℕ) (slots : List Slot) (i : ℕ) (b : Slot)
    → word64 ws i ≡ some 201
    → Accepted ws slots
    → Accepted ws (set slots i b)
Accepted-set ws slots i b e acc j c f ne = elim (Bool-cases (i == j)) [
  | inl q ↦ rw⁻¹ ((==_iff i j).0 q) e
  | inr q ↦ acc j c (sym (get_elem?-set_other slots i j b (λ h. ground arith)) ∙ f) ne
]

pub empty_slots_null :
    (n j : ℕ) (b : Slot) → get_elem? (replicate n empty_slot) j ≡ some b → b.base ≡ null
empty_slots_null zero j b h = cc
empty_slots_null (suc n) zero b h =
    ap (λ o. elim o as (λ _. FbBase) [ none ↦ null | some c ↦ c.base ]) (sym h)
empty_slots_null (suc n) (suc j) b h = empty_slots_null n j b h

module _ {W : Type 0} (ws : List ℕ) where
  abbrev pub Scanned : Env W → Type 0
  Scanned s = (s.res_conn_buf ≡ ws) × Accepted ws s.slots

  abbrev pub Steps : {A : Type 0} → Prog W A → Type 0
  Steps m = Triple Scanned m (λ _. Scanned) (λ _. Unit)

  module _ (K : Kernel W) where
    create_buffer-Steps :
        (i : ℕ) (mode : Mode) → word64 ws i ≡ some 201 → Steps (create_buffer K i mode)
    unfolding create_buffer
    create_buffer-Steps i mode e = runs_by (λ s (p, acc). (p, Accepted-set ws s.slots i _ e acc))

    set_mode-Steps : (encoder id : ℕ) (mode : Mode) → Steps (set_mode K encoder id mode)
    unfolding set_mode
    set_mode-Steps encoder id mode = runs_by (λ s p. p)

    fault_if-Steps : (b : Bool) → Steps (if b then fault {S = Env W} else pure tt)
    fault_if-Steps true = runs_by (λ s p. tt)
    fault_if-Steps false = runs_by (λ s p. p)

    use_connector-Steps :
        (i id encoder : ℕ) (conn : Connector) (modes : List Mode)
        → word64 ws i ≡ some id
        → Steps (use_connector K i id encoder conn modes)
    unfolding use_connector
    use_connector-Steps i id encoder conn modes e = elim (Bool-cases (is_skipped id conn)) [
      | inl q ↦ rw q (runs_by (λ s p. p))
      | inr q ↦ rw q (
          create_buffer-Steps i (get_or modes 0 no_mode) (e ∙ ap some (used id conn q))
          then_runs λ _. fault_if-Steps (ltb 50 conn.count_modes) then_runs λ _.
              set_mode-Steps (encoder % 4294967296) id (get_or modes 0 no_mode))
    ]

    with_details-Steps :
        (i id encoder : ℕ) (conn : Connector) (second : Option (Connector × Details))
        → word64 ws i ≡ some id
        → Steps (with_details K i id encoder conn second)
    unfolding with_details
    with_details-Steps i id encoder conn none e = use_connector-Steps i id encoder conn no_modes e
    with_details-Steps i id encoder conn (some (c, d)) e = elim (Bool-cases (details_overflow d)) [
      | inl q ↦ rw q (runs_by (λ s p. tt))
      | inr q ↦ rw q (use_connector-Steps i id encoder c (overwrite d.modes no_modes) e)
    ]

    -- An element that is read, with what it was
    or_fault-Steps :
        (o : Option ℕ)
        → Triple Scanned (or_fault {W = W} o) (λ v s. Scanned s × (o ≡ some v)) (λ _. Unit)
    or_fault-Steps none = runs_by (λ s p. tt)
    or_fault-Steps (some v) = runs_by (λ s p. (p, refl))

    read_connector-Steps :
        (i id : ℕ) (es : List ℕ) → word64 ws i ≡ some id → Steps (read_connector K i id es)
    unfolding read_connector
    read_connector-Steps i id es e = or_fault-Steps (word64 es i) then_runs λ encoder.
        runs_by {m = kernel (K.get_connector (asked id encoder))} (λ s (p, _). p) then_runs λ first.
        runs_by {m = kernel (K.get_details (replied first (asked id encoder)))} (λ s p. p)
        then_runs λ second.
            with_details-Steps i id encoder (replied first (asked id encoder)) second e

    pub connector-Steps : (i : ℕ) → Steps (connector K i)
    unfolding connector
    connector-Steps i = runs_by (λ s (p, acc).
        ((or_fault-Steps (word64 s.res_conn_buf i) then_runs λ id.
        runs_by (λ t (q, e). (read_connector-Steps i id s.res_enc_buf (rw⁻¹ p e)).runs t q)).runs
          s (p, acc)))

    pub scan-Steps : (n i : ℕ) → Steps (scan K n i)
    unfolding scan
    scan-Steps zero i = runs_by (λ s p. p)
    scan-Steps (suc n) i = connector-Steps i then_runs λ _. scan-Steps n (suc i)

-- Of the kernel's list, the identifier `2 * i` is 201, and the list ends there or the next one is 0.
abbrev pub Is201Last : List ℕ → ℕ → Type 0
Is201Last ids i = (get_or ids (2 * i) 0 ≡ 201) × (get_or ids (2 * i + 1) 0 ≡ 0)

-- From the arrays as they are after the requests for the resources, when the kernel stored `ids`, the
-- loop over the connectors makes a buffer for entry 2, or for an entry `i` where the kernel's list has
-- 201 at `2 * i` and then 0 or its end; for no other.
pub scan-Is201Last :
    {W : Type 0} (K : Kernel W) (ids : List ℕ) (n : ℕ) (s : Env W)
    → s.res_conn_buf ≡ force_connector (overwrite ids zeros)
    → s.slots ≡ replicate 50 empty_slot
    → On
        (λ _ t.
          (i : ℕ) (b : Slot)
          → i < 10
          → i ≢ 2
          → get_elem? t.slots i ≡ some b
          → b.base ≢ null
          → Is201Last ids i)
        (λ _. Unit)
        (scan K n 0 s)
scan-Is201Last K ids n s e fresh =
    let ws : List ℕ = force_connector (overwrite ids zeros) in
    let none_yet : Accepted ws s.slots = λ j b there ne.
      absurd (ne (empty_slots_null 50 j b (ap (λ l. get_elem? l j) (sym fresh) ∙ there))) in
    On-map (λ _ t. (t.res_conn_buf ≡ ws) × Accepted ws t.slots) _ (λ _. Unit) (λ _. Unit)
      (scan K n 0 s) ((scan-Steps ws K n 0).runs s (e, none_yet))
      (λ _ t (_, acc) i b lt ne there some_base.
        let read : some (get_or ids (2 * i) 0 + 4294967296 * get_or ids (2 * i + 1) 0) ≡ some 201 =
          sym (word64_lem ids i lt ne) ∙ acc i b there some_base in
        let sum : get_or ids (2 * i) 0 + 4294967296 * get_or ids (2 * i + 1) 0 ≡ 201 =
          ap (λ o. elim o as (λ _. ℕ) [ none ↦ 0 | some v ↦ v ]) read in
        (omega arith, omega arith))
      (λ _ u. u)
