-- ===== src/DrmApp/Returns.antt =====
-- lkml/drm-app/drm_app.c: on a card that the program was written for, it comes to its end.
use bbblack.Base.{
  ℕ, zero, suc, ◌+◌, ◌*◌, ◌≤◌, ◌<◌, ◌≡◌, refl, ap, ◌∙◌, Bool, true, false, Option, none, some, inl,
  inr, arith, set,
}
use bbblack.Base.Run.{
  On, On-map, Triple, runs_by, ◌then_runs◌, modify, pure, Outcome, ok, exits, aborts, faults,
  out_of_fuel,
}
use bbblack.DrmApp.Types.{
  CardRes, Ids, Kernel, null, mapped, Slot, Call, initial, send, emit, zeros,
}
use bbblack.DrmApp.Scan.{store_ids, get_resources, replied, force_connector}
use bbblack.DrmApp.Show.{
  colour, paint, is_null, put_slot, paint_slot, paint_found, paint_at, paint_all, show, run, main,
}
use bbblack.DrmApp.Arrays.{length-set, length-overwrite, get_elem?-some}
use bbblack.DrmApp.Paint.{IsPainted, paint_lem}
use bbblack.DrmApp.Accepts.{empty_slots_null}
use bbblack.DrmApp.Suits.{Paintable, FewIds, Suits, set-Paintable, Good, Goes, scan-Goes}

module _ {W : Type 0} (K : Kernel W) (S : Suits K) where
  store_ids-Goes : (second : Option (CardRes × Ids)) → FewIds second → Goes (store_ids K second)
  unfolding store_ids
  store_ids-Goes none f = runs_by (λ s p. p)
  store_ids-Goes (some (res, ids)) (n, e) = rw e (
      runs_by (λ s (_, _, _, l, p).
        (n, length-overwrite ids.connectors zeros, length-overwrite ids.encoders zeros, l, p)))

  get_resources-Goes : Goes (get_resources K)
  unfolding get_resources
  get_resources-Goes = runs_by (λ s (n, c, e, l, p).
      let v : W = (K.get_resources s.world).1 in
      let r : CardRes = replied (K.get_resources s.world).0 s.res in
      ((store_ids-Goes (K.get_ids r v).0 (S.few_ids r v) then_runs λ _.
      runs_by {m = modify (λ t. record t { res_conn_buf = force_connector t.res_conn_buf })}
        (λ t (n', c', e', l', p'). (
          n',
          length-set (set t.res_conn_buf 4 201) 5 0 ∙ length-set t.res_conn_buf 4 201 ∙ c',
          e',
          l',
          p',
        ))).runs
        (record s { res = r; world = (K.get_ids r v).1 })
        (S.few_connectors s.res s.world n, c, e, l, p)))

  put_slot-Goes :
      (j : ℕ) (p : Outcome Unit × Slot)
      → On (λ _ c. Paintable c) (λ _. ⊥) p
      → Goes (put_slot {W = W} j p)
  put_slot-Goes j (ok a, c) h =
      runs_by
        (λ s (n, f, e, l, p). (n, f, e, length-set s.slots j c ∙ l, set-Paintable s.slots j c h p))
  put_slot-Goes j (exits n, c) h = absurd h
  put_slot-Goes j (aborts, c) h = absurd h
  put_slot-Goes j (faults, c) h = absurd h
  put_slot-Goes j (out_of_fuel, c) h = absurd h

  paint_slot-Goes :
      (j : ℕ) (b : Slot)
      → b.base ≡ mapped
      → 4 * (b.fb_h * b.fb_w) ≤ b.size
      → Goes (paint_slot K j b)
  unfolding paint_slot
  paint_slot-Goes j b m room = runs_by (λ s p.
      let col : ℕ = colour (K.rand s.world).0 in
      (put_slot-Goes j (paint col b.fb_h 0 b) (
          On-map (λ _ c. IsPainted col 0 (b.fb_h * b.fb_w) b c) (λ _ c. Paintable c) (λ _. ⊥)
            (λ _. ⊥) (paint col b.fb_h 0 b) (paint_lem col b m room)
            (λ _ c q. inr (q.base ∙ m, rw (q.fb_w, q.fb_h, q.size) room)) (λ _ u. u))).runs
        (record s { world = (K.rand s.world).1 }) p)

  paint_found-Goes : (j : ℕ) (b : Slot) → Paintable b → Goes (paint_found K j (some b))
  unfolding paint_found
  paint_found-Goes j b (inl e) =
      let yes : is_null b ≡ true = ap (λ x. elim x as (λ _. Bool) [ null ↦ true | _ ↦ false ]) e in
      rw yes (runs_by (λ s p. p))
  paint_found-Goes j b (inr (m, room)) =
      let no : is_null b ≡ false = ap (λ x. elim x as (λ _. Bool) [ null ↦ true | _ ↦ false ]) m in
      rw no (paint_slot-Goes j b m room)

  paint_at-Goes : (j : ℕ) → j < 50 → Goes (paint_at K j)
  unfolding paint_at
  paint_at-Goes j lt = runs_by (λ s (n, c, e, l, p).
      let (b, q) = get_elem?-some s.slots j (omega arith) in
      rw q ((paint_found-Goes j b (p j b q)).runs s (n, c, e, l, p)))

  paint_all-Goes : (n j : ℕ) → n + j ≤ 10 → Goes (paint_all K n j)
  unfolding paint_all
  paint_all-Goes zero j h = runs_by (λ s p. p)
  paint_all-Goes (suc n) j h =
      paint_at-Goes j (omega arith) then_runs λ _. paint_all-Goes n (suc j) (omega arith)

  show-Goes : (n : ℕ) → Goes (show K n)
  unfolding show
  show-Goes zero = runs_by (λ s p. p)
  show-Goes (suc n) = runs_by (λ s p.
      (paint_all-Goes s.res.count_connectors 0 (omega (arith, p.0)) then_runs λ _.
      runs_by {m = send (K.usleep 100000)} {Q = λ _. Good} (λ t q. q) then_runs λ _.
      runs_by {m = emit (Call.usleep 100000)} {Q = λ _. Good} (λ t q. q) then_runs λ _.
      show-Goes n).runs
        s p)

  return_zero : Triple (Good {W = W}) (pure {A = ℕ} 0) (λ n _. n ≡ 0) (λ _. ⊥)
  return_zero = runs_by (λ s p. refl)

  run-Goes : Triple Good (run K) (λ n _. n ≡ 0) (λ _. ⊥)
  unfolding run
  run-Goes = runs_by {m = send K.get_magic} {Q = λ _. Good} (λ s p. p) then_runs λ _.
      get_resources-Goes then_runs λ _. runs_by (λ s p.
        (scan-Goes K S s.res.count_connectors 0 (omega (arith, p.0)) then_runs λ _.
        runs_by {m = send K.drop_master} {Q = λ _. Good} (λ t q. q) then_runs λ _.
        runs_by {m = emit Call.drop_master} {Q = λ _. Good} (λ t q. q) then_runs λ _.
        show-Goes 500 then_runs λ _. return_zero).runs
          s p)

  -- On a card that is there, with at most ten connectors and at most fifty modes for each, with no more
  -- identifiers, properties and encoders than the arrays have room for, and with memory for its
  -- buffers, all of which is mapped, the program returns 0.
  pub main_returns : (w : W) → On (λ n _. n ≡ 0) (λ _. ⊥) (main K (initial w))
  unfolding main
  main_returns w = rw (S.opens w) (
      run-Goes.runs (record (initial w) { world = (K.open_card w).1 })
        (omega arith, refl, refl, refl, λ j b e. inl (empty_slots_null 50 j b e)))
