-- ===== src/DrmApp/Overruns.antt =====
-- lkml/drm-app/drm_app.c: a card with more connectors than the arrays have elements.
use bbblack.Base.{
  ℕ, zero, suc, ◌+◌, ◌≤◌, ◌<◌, ◌≡◌, refl, ◌∙◌, ap, true, Option, none, some, List, inl, inr,
  Bool-cases, get_elem?, arith, length, replicate, set, sym, ==_iff, ◌==◌,
}
use bbblack.Base.Run.{
  OrFaults, OrFaults-and_then, OrFaults-On, OrFaults-never, faults, Triple, runs_by, ◌then_runs◌,
  get, modify,
}
use bbblack.DrmApp.Types.{CardRes, Ids, Kernel, empty_slot, Env, initial, kernel, word64, zeros}
use bbblack.DrmApp.Scan.{
  ids_overflow, store_ids, get_resources, connector, scan, force_connector, replied,
}
use bbblack.DrmApp.Show.{run, main}
use bbblack.DrmApp.Arrays.{length-none, length-set, length-overwrite}
use bbblack.DrmApp.Faults.{get_resources-EndsByFault, scan-EndsByFault}
use bbblack.DrmApp.Accepts.{empty_slots_null, Scanned, connector-Steps}

read_past : (ws : List ℕ) → length ws ≡ 20 → word64 ws 10 ≡ none
read_past ws h = rw (word64, length-none ws 20 (omega arith)) refl

module _ {W : Type 0} (K : Kernel W) where
  module _ (ws : List ℕ) (short : word64 ws 10 ≡ none) where
    tenth_faults : Triple (Scanned ws) (connector K 10) (λ _ _. ⊥) (λ _. Unit)
    unfolding connector
    tenth_faults = runs_by (λ s (p, _). rw p (rw short tt))

    scan_faults :
        (n i : ℕ) → i ≤ 10 → 10 < n + i → Triple (Scanned ws) (scan K n i) (λ _ _. ⊥) (λ _. Unit)
    unfolding scan
    scan_faults zero i h k = absurd (omega arith)
    scan_faults (suc n) i h k = elim (Bool-cases (i == 10)) [
      | inl q ↦ rw ((==_iff i 10).0 q) (tenth_faults then_runs λ _. runs_by (λ s bot. absurd bot))
      | inr q ↦
          connector-Steps ws K i then_runs λ _. scan_faults n (suc i) (ground arith) (omega arith)
    ]

  -- After the two requests for the resources
  abbrev Ready : Env W → Type 0
  Ready s =
      (10 < s.res.count_connectors)
      × (length s.res_conn_buf ≡ 20)
      × (s.slots ≡ replicate 50 empty_slot)

  -- A reply with more connectors than the arrays have room for
  abbrev Many : Option (CardRes × Ids) → Type 0
  Many reply =
      (res : CardRes) × (ids : Ids) × (reply ≡ some (res, ids)) × (10 < res.count_connectors)

  abbrev Fresh : Env W → Type 0
  Fresh s = s.slots ≡ replicate 50 empty_slot

  store_ids-Ready :
      (res : CardRes) (ids : Ids)
      → 10 < res.count_connectors
      → Triple Fresh (store_ids K (some (res, ids))) (λ _. Ready) (λ _. Unit)
  unfolding store_ids
  store_ids-Ready res ids h = elim (Bool-cases (ids_overflow ids)) [
    | inl q ↦ rw q (runs_by (λ s p. tt))
    | inr q ↦ rw q (runs_by (λ s p. (h, length-overwrite ids.connectors zeros, p)))
  ]

  reply-Ready :
      (reply : Option (CardRes × Ids))
      → Triple (λ s. Fresh s × Many reply) (store_ids K reply) (λ _. Ready) (λ _. Unit)
  reply-Ready reply =
      runs_by (λ s (p, (res, ids, e, h)). rw e ((store_ids-Ready res ids h).runs s p))

  module _ (many : (r : CardRes) (w : W) → Many (K.get_ids r w).0) where
    get_resources-Ready : Triple Fresh (get_resources K) (λ _. Ready) (λ _. Unit)
    unfolding get_resources
    get_resources-Ready =
        runs_by {m = kernel K.get_resources} {Q = λ _. Fresh} (λ s p. p) then_runs λ first.
        runs_by {m = modify (λ s. record s { res = replied first s.res })} {Q = λ _. Fresh}
          (λ s p. p)
        then_runs λ _. runs_by {m = get} {Q = λ _. Fresh} (λ s p. p) then_runs λ s.
            runs_by {m = kernel (K.get_ids s.res)} {Q = λ reply t. Fresh t × Many reply}
              (λ t p. (p, many s.res t.world))
            then_runs λ reply. reply-Ready reply then_runs λ _.
                runs_by
                  {m = modify (λ s. record s { res_conn_buf = force_connector s.res_conn_buf })}
                  (λ s (c, len, p). (
                    c,
                    length-set (set s.res_conn_buf 4 201) 5 0
                        ∙ length-set s.res_conn_buf 4 201
                        ∙ len,
                    p,
                  ))

    scan-Ready :
        (r : Env W)
        → Triple (λ s. Ready s × (r ≡ s)) (scan K r.res.count_connectors 0) (λ _ _. ⊥) (λ _. Unit)
    scan-Ready r = runs_by (λ s ((c, len, p), e).
        (scan_faults s.res_conn_buf (read_past s.res_conn_buf len) r.res.count_connectors 0
            (omega arith) (rw e (omega arith))).runs
          s
          (
            refl,
            λ j b there ne.
                absurd (ne (empty_slots_null 50 j b (ap (λ l. get_elem? l j) (sym p) ∙ there))),
          ))

    run_overruns : (s : Env W) → Fresh s → OrFaults (λ _ _. ⊥) (run K s)
    unfolding run
    run_overruns s fresh =
        let s1 : Env W = record s { world = K.get_magic s.world } in
        OrFaults-and_then (λ _. Ready) (λ _ _. ⊥) (get_resources K s1) _
          (OrFaults-On (λ _. Ready) _ (λ _. Unit) (get_resources K s1)
            (get_resources-Ready.runs s1 fresh) (get_resources-EndsByFault K s1))
          (λ _ r ready.
            let n = r.res.count_connectors in
            OrFaults-and_then (λ _ _. ⊥) (λ _ _. ⊥) (scan K n 0 r) _
              (OrFaults-On (λ _ _. ⊥) _ (λ _. Unit) (scan K n 0 r)
                ((scan-Ready r).runs r (ready, refl)) (scan-EndsByFault K n 0 r))
              (λ _ _ bot. absurd bot))

    -- On a card that is there and that reports more than ten connectors, the program comes to an access
    -- outside one of its arrays, and to no other end before that.
    pub main_overruns : (w : W) → (K.open_card w).0 ≡ true → (main K (initial w)).0 ≡ faults
    unfolding main
    main_overruns w opened =
        let s : Env W = record (initial w) { world = (K.open_card w).1 } in
        rw opened (OrFaults-never (run K s) (run_overruns s refl))
