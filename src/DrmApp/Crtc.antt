-- ===== src/DrmApp/Crtc.antt =====
-- lkml/drm-app/drm_app.c: the CRTC requests of a run.
use bbblack.Base.{
  ℕ, zero, suc, ◌≡◌, refl, ◌%◌, Bool, true, false, Option, none, some, List, [], ◌∷◌, All, ltb,
  overwrite, inl, inr, Bool-cases, get_elem?, arith, get_or, if◌then◌else◌,
}
use bbblack.Base.Run.{
  On, Kept, runs_by, ◌then_runs◌, pure, fault, get, modify, ok, exits, aborts, faults, out_of_fuel,
  Outcome,
}
use bbblack.DrmApp.Types.{
  CardRes, Ids, Mode, Connector, Details, Kernel, Slot, Call, Env, initial, emit, kernel, send,
  word64,
}
use bbblack.DrmApp.Scan.{
  or_fault, ids_overflow, store_ids, get_resources, create_buffer, set_mode, is_skipped,
  use_connector, details_overflow, with_details, read_connector, connector, scan, asked, replied,
  force_connector, no_modes, no_mode,
}
use bbblack.DrmApp.Show.{
  colour, paint, is_null, put_slot, paint_slot, paint_found, paint_at, paint_all, show, run, main,
}

-- A request to set a CRTC is for number 197, the frame buffer 211 and the connector 201.
abbrev pub IsFixed : Call → Type 0
IsFixed (Call.set_crtc c) =
    (c.crtc_id ≡ 197) × (c.fb_id ≡ 211) × (c.connectors ≡ 201 ∷ []) × (c.mode_valid ≡ 1)
IsFixed _ = Unit

pub used : (id : ℕ) (conn : Connector) → is_skipped id conn ≡ false → id ≡ 201
used id conn h = ground arith

module _ {W : Type 0} where
  abbrev pub Fixed : Env W → Type 0
  Fixed s = All IsFixed s.calls

  emit-Fixed : (c : Call) → IsFixed c → Kept Fixed (emit {W = W} c)
  emit-Fixed c h = runs_by (λ s p. (h, p))

  modify-Fixed : (f : Env W → Env W) → ((s : Env W) → Fixed s → Fixed (f s)) → Kept Fixed (modify f)
  modify-Fixed f h = runs_by h

  kernel-Fixed : {A : Type 0} (f : W → A × W) → Kept Fixed (kernel f)
  kernel-Fixed f = runs_by (λ s p. p)

  send-Fixed : (f : W → W) → Kept Fixed (send f)
  send-Fixed f = runs_by (λ s p. p)

  or_fault-Fixed : (o : Option ℕ) → Kept Fixed (or_fault {W = W} o)
  or_fault-Fixed none = runs_by (λ s p. p)
  or_fault-Fixed (some v) = runs_by (λ s p. p)

  fault_if-Fixed : (b : Bool) → Kept Fixed (if b then fault {S = Env W} else pure tt)
  fault_if-Fixed true = runs_by (λ s p. p)
  fault_if-Fixed false = runs_by (λ s p. p)

  module _ (K : Kernel W) where
    create_buffer-Fixed : (i : ℕ) (mode : Mode) → Kept Fixed (create_buffer K i mode)
    unfolding create_buffer
    create_buffer-Fixed i mode = runs_by (λ s p. (tt, (tt, (tt, (tt, p)))))

    set_mode-Fixed :
        (encoder id : ℕ) (mode : Mode) → id ≡ 201 → Kept Fixed (set_mode K encoder id mode)
    unfolding set_mode
    set_mode-Fixed encoder id mode e =
        runs_by (λ s p. ((refl, refl, rw e refl, refl), (tt, (tt, p))))

    use_connector-Fixed :
        (i id encoder : ℕ) (conn : Connector) (modes : List Mode)
        → Kept Fixed (use_connector K i id encoder conn modes)
    unfolding use_connector
    use_connector-Fixed i id encoder conn modes = elim (Bool-cases (is_skipped id conn)) [
      | inl q ↦ rw q (runs_by (λ s p. p))
      | inr q ↦ rw q (
          create_buffer-Fixed i (get_or modes 0 no_mode) then_runs λ _.
          fault_if-Fixed (ltb 50 conn.count_modes) then_runs λ _.
          set_mode-Fixed (encoder % 4294967296) id (get_or modes 0 no_mode) (used id conn q))
    ]

    with_details-Fixed :
        (i id encoder : ℕ) (conn : Connector) (second : Option (Connector × Details))
        → Kept Fixed (with_details K i id encoder conn second)
    unfolding with_details
    with_details-Fixed i id encoder conn none = use_connector-Fixed i id encoder conn no_modes
    with_details-Fixed i id encoder conn (some (c, d)) = elim (Bool-cases (details_overflow d)) [
      | inl q ↦ rw q (runs_by (λ s p. p))
      | inr q ↦ rw q (use_connector-Fixed i id encoder c (overwrite d.modes no_modes))
    ]

    read_connector-Fixed : (i id : ℕ) (es : List ℕ) → Kept Fixed (read_connector K i id es)
    unfolding read_connector
    read_connector-Fixed i id es = or_fault-Fixed (word64 es i) then_runs λ encoder.
        kernel-Fixed (K.get_connector (asked id encoder)) then_runs λ first.
        kernel-Fixed (K.get_details (replied first (asked id encoder))) then_runs λ second.
        with_details-Fixed i id encoder (replied first (asked id encoder)) second

    connector-Fixed : (i : ℕ) → Kept Fixed (connector K i)
    unfolding connector
    connector-Fixed i = runs_by {m = get} (λ s p. p) then_runs λ s.
        or_fault-Fixed (word64 s.res_conn_buf i) then_runs λ id.
        read_connector-Fixed i id s.res_enc_buf

    scan-Fixed : (n i : ℕ) → Kept Fixed (scan K n i)
    unfolding scan
    scan-Fixed zero i = runs_by (λ s p. p)
    scan-Fixed (suc n) i = connector-Fixed i then_runs λ _. scan-Fixed n (suc i)

    store_ids-Fixed : (second : Option (CardRes × Ids)) → Kept Fixed (store_ids K second)
    unfolding store_ids
    store_ids-Fixed none = runs_by (λ s p. p)
    store_ids-Fixed (some (res, ids)) = elim (Bool-cases (ids_overflow ids)) [
      | inl q ↦ rw q (runs_by (λ s p. p))
      | inr q ↦ rw q (runs_by (λ s p. p))
    ]

    get_resources-Fixed : Kept Fixed (get_resources K)
    unfolding get_resources
    get_resources-Fixed = kernel-Fixed K.get_resources then_runs λ first.
        modify-Fixed (λ s. record s { res = replied first s.res }) (λ s p. p) then_runs λ _.
        runs_by {m = get} (λ s p. p) then_runs λ s.
        kernel-Fixed (K.get_ids s.res) then_runs λ second. store_ids-Fixed second then_runs λ _.
        modify-Fixed (λ s. record s { res_conn_buf = force_connector s.res_conn_buf }) (λ s p. p)

    put_slot-Fixed : (j : ℕ) (p : Outcome Unit × Slot) → Kept Fixed (put_slot {W = W} j p)
    put_slot-Fixed j (ok a, c) = runs_by (λ s p. p)
    put_slot-Fixed j (exits n, c) = runs_by (λ s p. p)
    put_slot-Fixed j (aborts, c) = runs_by (λ s p. p)
    put_slot-Fixed j (faults, c) = runs_by (λ s p. p)
    put_slot-Fixed j (out_of_fuel, c) = runs_by (λ s p. p)

    paint_slot-Fixed : (j : ℕ) (b : Slot) → Kept Fixed (paint_slot K j b)
    unfolding paint_slot
    paint_slot-Fixed j b =
        kernel-Fixed K.rand then_runs λ r. put_slot-Fixed j (paint (colour r) b.fb_h 0 b)

    paint_found-Fixed : (j : ℕ) (o : Option Slot) → Kept Fixed (paint_found K j o)
    unfolding paint_found
    paint_found-Fixed j none = runs_by (λ s p. p)
    paint_found-Fixed j (some b) = elim (Bool-cases (is_null b)) [
      | inl q ↦ rw q (runs_by (λ s p. p))
      | inr q ↦ rw q (paint_slot-Fixed j b)
    ]

    paint_at-Fixed : (j : ℕ) → Kept Fixed (paint_at K j)
    unfolding paint_at
    paint_at-Fixed j =
        runs_by {m = get} (λ s p. p) then_runs λ s. paint_found-Fixed j (get_elem? s.slots j)

    paint_all-Fixed : (n j : ℕ) → Kept Fixed (paint_all K n j)
    unfolding paint_all
    paint_all-Fixed zero j = runs_by (λ s p. p)
    paint_all-Fixed (suc n) j = paint_at-Fixed j then_runs λ _. paint_all-Fixed n (suc j)

    show-Fixed : (n : ℕ) → Kept Fixed (show K n)
    unfolding show
    show-Fixed zero = runs_by (λ s p. p)
    show-Fixed (suc n) = runs_by {m = get} (λ s p. p) then_runs λ s.
        paint_all-Fixed s.res.count_connectors 0 then_runs λ _.
        send-Fixed (K.usleep 100000) then_runs λ _.
        emit-Fixed (Call.usleep 100000) tt then_runs λ _. show-Fixed n

    run-Fixed : Kept Fixed (run K)
    unfolding run
    run-Fixed = send-Fixed K.get_magic then_runs λ _. get_resources-Fixed then_runs λ _.
        runs_by {m = get} (λ s p. p) then_runs λ s.
        scan-Fixed s.res.count_connectors 0 then_runs λ _. send-Fixed K.drop_master then_runs λ _.
        emit-Fixed Call.drop_master tt then_runs λ _.
        show-Fixed 500 then_runs λ _. runs_by {m = pure 0} (λ s p. p)

    opened-Fixed : (b : Bool) → Kept Fixed (if b then run K else (λ s. (exits 255, s)))
    opened-Fixed true = run-Fixed
    opened-Fixed false = runs_by (λ s p. p)

    -- Whatever the kernel replies, every CRTC that a run sets is number 197 with the frame buffer 211 on
    -- the connector 201, also when none of them is one that the kernel reported or that the run created.
    pub main-Fixed : (w : W) → On (λ _ t. Fixed t) Fixed (main K (initial w))
    unfolding main
    main-Fixed w =
        (kernel-Fixed K.open_card then_runs λ opened. opened-Fixed opened).runs (initial w) tt
