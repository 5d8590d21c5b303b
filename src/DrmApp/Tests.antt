-- ===== src/DrmApp/Tests.antt =====
-- lkml/drm-app/drm_app.c: a card with a screen of 2 times 1 words, and runs on it.
use bbblack.Base.{
  inr, ℕ, ◌+◌, ◌*◌, ◌≡◌, refl, true, Option, none, some, List, [], ◌∷◌, get_elem?, arith, overwrite,
}
use bbblack.Base.Run.{On, faults}
use bbblack.DrmApp.Types.{Mode, Kernel, map_failed, mapped, Slot, Env, initial, zeros, word64}
use bbblack.DrmApp.Scan.{force_connector, scan}
use bbblack.DrmApp.Show.{paint, main}
use bbblack.DrmApp.Paint.{IsPainted, paint_lem, paint_faults}
use bbblack.DrmApp.Arrays.{word64_lem}
use bbblack.DrmApp.Crtc.{Fixed, main-Fixed}
use bbblack.DrmApp.Suits.{Suits}
use bbblack.DrmApp.Returns.{main_returns}
use bbblack.DrmApp.Overruns.{main_overruns}

abbrev screen : Mode
screen = record { hdisplay = 2; vdisplay = 1; others = 0 }

-- A card with `n` connectors, of which the kernel stores `ids`; every connector is in use.
abbrev card : ℕ → List ℕ → Kernel Unit
card n ids = record {
  open_card = λ w. (true, w);
  get_magic = λ w. w;
  get_resources = λ w. (
    some (record { count_fbs = 0; count_crtcs = 1; count_connectors = n; count_encoders = 1 }),
    w,
  );
  get_ids = λ r w. (
    some (
      record { count_fbs = 0; count_crtcs = 1; count_connectors = n; count_encoders = 1 },
      record { fbs = []; crtcs = 40 ∷ []; connectors = ids; encoders = 50 ∷ [] },
    ),
    w,
  );
  get_connector =
      λ c w. (some (record c { count_modes = 1; count_encoders = 1; connection = 1 }), w);
  get_details = λ c w. (
    some (c, record { modes = screen ∷ []; props = []; prop_values = []; encoders = 50 ∷ [] }),
    w,
  );
  create_dumb = λ x y bpp w. (some (4 * x, 3, 4 * (y * x)), w);
  add_fb = λ c w. w;
  map_dumb = λ h w. (some 4096, w);
  mmap = λ n o w. (some (λ p. 0), w);
  get_encoder = λ e w. w;
  get_crtc = λ c w. (none, w);
  set_crtc = λ c w. w;
  drop_master = λ w. w;
  rand = λ w. (65535, w);
  usleep = λ n w. w;
}

abbrev buffer : Slot
buffer = record { base = mapped; fb_w = 2; fb_h = 2; size = 16; pixels = λ p. 9 }

paint_lem_example : On (λ _ c. IsPainted 7 0 (2 * 2) buffer c) (λ _. ⊥) (paint 7 2 0 buffer)
paint_lem_example = paint_lem 7 buffer refl (omega arith)

abbrev not_mapped : Slot
not_mapped = record { base = map_failed; fb_w = 2; fb_h = 1; size = 0; pixels = λ p. 0 }

paint_faults_example : paint 7 1 0 not_mapped ≡ (faults, not_mapped)
paint_faults_example = paint_faults 7 0 1 not_mapped refl refl refl

word64_lem_example :
    word64 (force_connector (overwrite (7 ∷ 201 ∷ 9 ∷ []) zeros)) 1 ≡ some (9 + 4294967296 * 0)
word64_lem_example = word64_lem (7 ∷ 201 ∷ 9 ∷ []) 1 (omega arith) (λ e. omega arith)

abbrev ready : Env Unit
ready = record (initial tt) { res_conn_buf = force_connector (overwrite (201 ∷ []) zeros) }

main-Fixed_example : On (λ _ t. Fixed t) Fixed (main (card 1 (201 ∷ [])) (initial tt))
main-Fixed_example = main-Fixed (card 1 (201 ∷ [])) tt

main_overruns_example : (main (card 11 []) (initial tt)).0 ≡ faults
main_overruns_example = main_overruns (card 11 []) (λ r w. (_, _, refl, omega arith)) tt refl

-- What the scan finds for entry 0: a connector 201 that ends the list gets its buffer, and with another
-- after it, none.
abbrev found : List ℕ → Option ℕ
found ids =
    elim (get_elem?
      (scan (card 1 ids) 1 0
        (record ready { res_conn_buf = force_connector (overwrite ids zeros) })).1.slots
      0) [ none ↦ none | some b ↦ elim (b.base) [ mapped ↦ some b.fb_w | _ ↦ none ] ]

found_alone : found (201 ∷ []) ≡ some 2
unfolding scan
found_alone = refl

found_before_another : found (201 ∷ 202 ∷ []) ≡ none
unfolding scan
found_before_another = refl

card_Suits : Suits (card 1 (201 ∷ []))
card_Suits = record {
  opens = λ w. refl;
  few_connectors = λ r w h. omega arith;
  few_ids = λ r w. (omega arith, refl);
  few_modes = λ c w h. omega arith;
  few_details = λ c w h. (h, refl);
  room = λ x y o w v. inr (refl, omega arith);
}

main_returns_example : On (λ n _. n ≡ 0) (λ _. ⊥) (main (card 1 (201 ∷ [])) (initial tt))
main_returns_example = main_returns (card 1 (201 ∷ [])) card_Suits tt
