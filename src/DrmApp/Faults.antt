-- ===== src/DrmApp/Faults.antt =====
-- lkml/drm-app/drm_app.c: the requests and the loop over the connectors end only by an access outside an
-- array, if they do not return.
use bbblack.Base.{ℕ, zero, suc, Option, none, some, List, ltb, inl, inr, Bool-cases, overwrite}
use bbblack.Base.Run.{OrFaults, OrFaults-and_then, modify}
use bbblack.DrmApp.Types.{CardRes, Ids, Mode, Connector, Details, Kernel, Env, Prog, word64}
use bbblack.DrmApp.Scan.{
  force_connector, ids_overflow, store_ids, get_resources, or_fault, create_buffer, set_mode,
  is_skipped, use_connector, details_overflow, with_details, read_connector, connector, scan, asked,
  replied, no_modes,
}

abbrev pub EndsByFault : {W A : Type 0} → Prog W A → Type 0
EndsByFault {W} m = (s : Env W) → OrFaults (λ _ _. Unit) (m s)

module _ {W : Type 0} (K : Kernel W) where
  store_ids-EndsByFault : (reply : Option (CardRes × Ids)) → EndsByFault (store_ids K reply)
  unfolding store_ids
  store_ids-EndsByFault none s = tt
  store_ids-EndsByFault (some (res, ids)) s = elim (Bool-cases (ids_overflow ids)) [
    | inl q ↦ rw q tt
    | inr q ↦ rw q tt
  ]

  pub get_resources-EndsByFault : EndsByFault (get_resources K)
  unfolding get_resources
  get_resources-EndsByFault s =
      let (first, v) = K.get_resources s.world in
      let res = replied first s.res in
      let (second, w) = K.get_ids res v in
      let t : Env W = record s { res = res; world = w } in
      OrFaults-and_then (λ _ _. Unit) (λ _ _. Unit) (store_ids K second t)
        (λ _. modify (λ u. record u { res_conn_buf = force_connector u.res_conn_buf }))
        (store_ids-EndsByFault second t) (λ _ _ _. tt)

  use_connector-EndsByFault :
      (i id encoder : ℕ) (conn : Connector) (modes : List Mode)
      → EndsByFault (use_connector K i id encoder conn modes)
  unfolding use_connector create_buffer set_mode
  use_connector-EndsByFault i id encoder conn modes s = elim (Bool-cases (is_skipped id conn)) [
    | inl q ↦ rw q tt
    | inr q ↦
        rw q elim (Bool-cases (ltb 50 conn.count_modes)) [ inl q' ↦ rw q' tt | inr q' ↦ rw q' tt ]
  ]

  with_details-EndsByFault :
      (i id encoder : ℕ) (conn : Connector) (reply : Option (Connector × Details))
      → EndsByFault (with_details K i id encoder conn reply)
  unfolding with_details
  with_details-EndsByFault i id encoder conn none s =
      use_connector-EndsByFault i id encoder conn no_modes s
  with_details-EndsByFault i id encoder conn (some (c, d)) s =
      elim (Bool-cases (details_overflow d)) [
        | inl q ↦ rw q tt
        | inr q ↦ rw q (use_connector-EndsByFault i id encoder c (overwrite d.modes no_modes) s)
      ]

  or_fault-EndsByFault : (o : Option ℕ) → EndsByFault (or_fault {W = W} o)
  or_fault-EndsByFault none s = tt
  or_fault-EndsByFault (some v) s = tt

  read_connector-EndsByFault : (i id : ℕ) (es : List ℕ) → EndsByFault (read_connector K i id es)
  unfolding read_connector
  read_connector-EndsByFault i id es s =
      OrFaults-and_then (λ _ _. Unit) (λ _ _. Unit) (or_fault (word64 es i) s) _
        (or_fault-EndsByFault (word64 es i) s)
        (λ encoder t _.
          let (first, v) = K.get_connector (asked id encoder) t.world in
          let conn = replied first (asked id encoder) in
          let (second, w) = K.get_details conn v in
          with_details-EndsByFault i id encoder conn second (record t { world = w }))

  connector-EndsByFault : (i : ℕ) → EndsByFault (connector K i)
  unfolding connector
  connector-EndsByFault i s =
      OrFaults-and_then (λ _ _. Unit) (λ _ _. Unit) (or_fault (word64 s.res_conn_buf i) s) _
        (or_fault-EndsByFault (word64 s.res_conn_buf i) s)
        (λ id t _. read_connector-EndsByFault i id s.res_enc_buf t)

  pub scan-EndsByFault : (n i : ℕ) → EndsByFault (scan K n i)
  unfolding scan
  scan-EndsByFault zero i s = tt
  scan-EndsByFault (suc n) i s =
      OrFaults-and_then (λ _ _. Unit) (λ _ _. Unit) (connector K i s) _ (connector-EndsByFault i s)
        (λ _ t _. scan-EndsByFault n (suc i) t)
