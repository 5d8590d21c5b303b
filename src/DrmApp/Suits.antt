-- ===== src/DrmApp/Suits.antt =====
-- lkml/drm-app/drm_app.c: a card that the program was written for, and the loop over its connectors.
use mathlib.Core.Path.{subst}
use bbblack.Base.{
  ℕ, zero, suc, ◌+◌, ◌*◌, ◌%◌, ◌≤◌, ◌<◌, ◌≡◌, ◌⊎◌, ap, ◌∙◌, true, false, Option, none, some, List,
  [], ◌∷◌, ltb, inl, inr, Bool-cases, get_elem?, arith, get_or, overwrite, if◌then◌else◌, length,
  set,
}
use bbblack.Base.Run.{Triple, runs_by, ◌then_runs◌, pure, fault}
use bbblack.DrmApp.Types.{
  CardRes, Ids, Mode, Connector, Details, Kernel, null, mapped, Slot, Env, Prog,
}
use bbblack.DrmApp.Scan.{
  ids_overflow, created, new_slot, create_buffer, set_mode, is_skipped, use_connector,
  details_overflow, with_details, read_connector, connector, scan, asked, replied, no_modes,
  no_mode,
}
use bbblack.DrmApp.Arrays.{length-set, word64-some}

-- A buffer that is not painted, or that is mapped with room for its words.
abbrev pub Paintable : Slot → Type 0
Paintable b = (b.base ≡ null) ⊎ ((b.base ≡ mapped) × (4 * (b.fb_h * b.fb_w) ≤ b.size))

abbrev pub FewIds : Option (CardRes × Ids) → Type 0
FewIds none = Unit
FewIds (some (res, ids)) = (res.count_connectors ≤ 10) × (ids_overflow ids ≡ false)

abbrev pub FewDetails : Option (Connector × Details) → Type 0
FewDetails none = Unit
FewDetails (some (c, d)) = (c.count_modes ≤ 50) × (details_overflow d ≡ false)

-- A card that is there, with at most ten connectors, at most fifty modes each, no more properties and
-- encoders than the arrays have room for, and memory for its buffers, all of which is mapped.
pub record Suits {W : Type 0} (K : Kernel W) : Type 0 where
  pub opens : (w : W) → (K.open_card w).0 ≡ true
  pub few_connectors :
      (r : CardRes) (w : W)
      → r.count_connectors ≤ 10
      → (replied (K.get_resources w).0 r).count_connectors ≤ 10
  pub few_ids : (r : CardRes) (w : W) → FewIds (K.get_ids r w).0
  pub few_modes :
      (c : Connector) (w : W)
      → c.count_modes ≤ 50
      → (replied (K.get_connector c w).0 c).count_modes ≤ 50
  pub few_details : (c : Connector) (w : W) → c.count_modes ≤ 50 → FewDetails (K.get_details c w).0
  pub room :
      (x y offset : ℕ) (w v : W)
      → let c = created x y (K.create_dumb x y 32 w).0 in
        Paintable (new_slot c (K.mmap c.size offset v).0)

pub set-Paintable :
    (slots : List Slot) (i : ℕ) (b : Slot)
    → Paintable b
    → ((j : ℕ) (c : Slot) → get_elem? slots j ≡ some c → Paintable c)
    → (j : ℕ) (c : Slot) → get_elem? (set slots i b) j ≡ some c
    → Paintable c
set-Paintable [] i b h hs j c e = hs j c e
set-Paintable (x ∷ slots) zero b h hs zero c e =
    subst Paintable (ap (λ o. elim o as (λ _. Slot) [ none ↦ b | some d ↦ d ]) e) h
set-Paintable (x ∷ slots) zero b h hs (suc j) c e = hs (suc j) c e
set-Paintable (x ∷ slots) (suc i) b h hs zero c e = hs zero c e
set-Paintable (x ∷ slots) (suc i) b h hs (suc j) c e =
    set-Paintable slots i b h (λ k d. hs (suc k) d) j c e

module _ {W : Type 0} where
  -- What holds all along
  abbrev pub Good : Env W → Type 0
  Good s =
      (s.res.count_connectors ≤ 10)
      × (length s.res_conn_buf ≡ 20)
      × (length s.res_enc_buf ≡ 20)
      × (length s.slots ≡ 50)
      × ((j : ℕ) (b : Slot) → get_elem? s.slots j ≡ some b → Paintable b)

  abbrev pub Goes : {A : Type 0} → Prog W A → Type 0
  Goes m = Triple Good m (λ _. Good) (λ _. ⊥)

module _ {W : Type 0} (K : Kernel W) (S : Suits K) where
  create_buffer-Goes : (i : ℕ) (mode : Mode) → Goes (create_buffer K i mode)
  unfolding create_buffer
  create_buffer-Goes i mode = runs_by (λ s (n, c, e, l, p). (
    n,
    c,
    e,
    length-set s.slots i _ ∙ l,
    set-Paintable s.slots i _ (S.room mode.hdisplay mode.vdisplay _ s.world _) p,
  ))

  set_mode-Goes : (encoder id : ℕ) (mode : Mode) → Goes (set_mode K encoder id mode)
  unfolding set_mode
  set_mode-Goes encoder id mode = runs_by (λ s p. p)

  fault_if-Goes : (n : ℕ) → n ≤ 50 → Goes (if ltb 50 n then fault {S = Env W} else pure tt)
  fault_if-Goes n h = let few : ltb 50 n ≡ false = ground arith in rw few (runs_by (λ s p. p))

  use_connector-Goes :
      (i id encoder : ℕ) (conn : Connector) (modes : List Mode)
      → conn.count_modes ≤ 50
      → Goes (use_connector K i id encoder conn modes)
  unfolding use_connector
  use_connector-Goes i id encoder conn modes h = elim (Bool-cases (is_skipped id conn)) [
    | inl q ↦ rw q (runs_by (λ s p. p))
    | inr q ↦ rw q (
        create_buffer-Goes i (get_or modes 0 no_mode) then_runs λ _.
        fault_if-Goes conn.count_modes h then_runs λ _.
        set_mode-Goes (encoder % 4294967296) id (get_or modes 0 no_mode))
  ]

  with_details-Goes :
      (i id encoder : ℕ) (conn : Connector) (second : Option (Connector × Details))
      → conn.count_modes ≤ 50
      → FewDetails second
      → Goes (with_details K i id encoder conn second)
  unfolding with_details
  with_details-Goes i id encoder conn none h f = use_connector-Goes i id encoder conn no_modes h
  with_details-Goes i id encoder conn (some (c, d)) h (n, e) =
      rw e (use_connector-Goes i id encoder c (overwrite d.modes no_modes) n)

  read_connector-Goes :
      (i id : ℕ) (es : List ℕ) → length es ≡ 20 → i < 10 → Goes (read_connector K i id es)
  unfolding read_connector
  read_connector-Goes i id es len lt =
      let (encoder, e) = word64-some es i len lt in
      let conn : W → Connector =
        λ w. replied (K.get_connector (asked id encoder) w).0 (asked id encoder) in
      runs_by (λ s p.
        let v : W = (K.get_connector (asked id encoder) s.world).1 in
        rw e (
          (with_details-Goes i id encoder (conn s.world) (K.get_details (conn s.world) v).0
              (S.few_modes (asked id encoder) s.world (omega arith))
              (S.few_details (conn s.world) v
                (S.few_modes (asked id encoder) s.world (omega arith)))).runs
            (record s { world = (K.get_details (conn s.world) v).1 }) p))

  connector-Goes : (i : ℕ) → i < 10 → Goes (connector K i)
  unfolding connector
  connector-Goes i lt = runs_by (λ s (n, c, e, l, p).
      let (id, q) = word64-some s.res_conn_buf i c lt in
      rw q ((read_connector-Goes i id s.res_enc_buf e lt).runs s (n, c, e, l, p)))

  pub scan-Goes : (n i : ℕ) → n + i ≤ 10 → Goes (scan K n i)
  unfolding scan
  scan-Goes zero i h = runs_by (λ s p. p)
  scan-Goes (suc n) i h =
      connector-Goes i (omega arith) then_runs λ _. scan-Goes n (suc i) (omega arith)
