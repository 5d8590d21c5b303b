-- ===== src/Pl111/Laws.antt =====
-- lkml/drm/fb_pl111.c: what the probe returns, and the mode that the connector offers.
use mathlib.Core.Path.{subst}
use bbblack.Base.{
  ◌-◌, ◌^◌, ◌≤◌, ◌≡◌, refl, sym, ◌∙◌, ◌==◌, ◌&&◌, if◌then◌else◌, Bool, true, false, Option, none,
  some, List, [], ◌∷◌, ◌++◌, append_assoc, inl, inr, Bool-cases, arith,
}
use bbblack.Base.Int.{ℤ, pos, negsuc, is_nonzero}
use bbblack.Base.Run.{On}
use bbblack.Pl111.Driver.{
  DisplayMode, fb_pl111_mode, pl111_formats, Call, dma_coerce_mask_and_coherent, devm_drm_dev_init,
  drm_mode_config_init, drm_connector_helper_add, drm_connector_init, drm_simple_display_pipe_init,
  drm_plane_enable_fb_damage_clips, drm_mode_config_reset, drm_dev_register, Limits, FbDevice,
  Answers, emit, mode_limits, after, init_display, pdrv_probe, get_modes,
}

-- The calls of a probe that is not refused
abbrev pub display_calls : ℤ → List Call
display_calls dev_register =
    devm_drm_dev_init
    ∷ drm_mode_config_init
    ∷ drm_connector_helper_add
    ∷ drm_connector_init
    ∷ drm_simple_display_pipe_init pl111_formats
    ∷ drm_plane_enable_fb_damage_clips
    ∷ drm_mode_config_reset
    ∷ drm_dev_register dev_register
    ∷ []

abbrev pub mask_calls : Bool → List Call
mask_calls true = dma_coerce_mask_and_coherent (2 ^ 32 - 1) ∷ []
mask_calls false = []

-- The device has no mask and none can be set.
abbrev pub is_refused : Answers → Bool
is_refused A = (A.coherent_dma_mask == 0) && is_nonzero A.coerce

after_lem : (ret next : ℤ) → after ret next ≡ next
after_lem (pos n) next = refl
after_lem (negsuc n) next = refl

init_display_lem :
    (A : Answers) (d : FbDevice)
    → let (ret, t) = init_display A d in
      (ret ≡ A.dev_register)
      × (t.calls ≡ d.calls ++ display_calls A.dev_register)
      × (t.limits ≡ some mode_limits)
unfolding init_display
init_display_lem A d = (
  after_lem A.dev_init _ ∙ after_lem A.connector_init _ ∙ after_lem A.pipe_init A.dev_register,
  simp append_assoc,
  refl,
)

-- The probe returns the error of the DMA mask, and has done nothing else, where the device has no mask
-- and none can be set. Otherwise it makes all calls of the display, sets the limits, and returns what
-- `drm_dev_register` returned, whatever the calls before it returned.
pub pdrv_probe_lem :
    (A : Answers) (d : FbDevice)
    → let (ret, t) = pdrv_probe A d in
      (ret ≡ (if is_refused A then A.coerce else A.dev_register))
      × (t.calls
          ≡ d.calls
            ++ (mask_calls (A.coherent_dma_mask == 0)
                ++ (if is_refused A then [] else display_calls A.dev_register)))
      × (t.limits ≡ (if is_refused A then d.limits else some mode_limits))
unfolding pdrv_probe
pdrv_probe_lem A d = elim (Bool-cases (A.coherent_dma_mask == 0)) [
  | inl q ↦ rw q (elim (Bool-cases (is_nonzero A.coerce)) [
    | inl p ↦ rw p (refl, refl, refl)
    | inr p ↦
        let (r, c, l) = init_display_lem A (emit (mask_calls true) d) in
        rw p (r, c ∙ append_assoc d.calls (mask_calls true) (display_calls A.dev_register), l)
  ])
  | inr q ↦ rw q (init_display_lem A d)
]

abbrev pub Fits : DisplayMode → Option Limits → Type 0
Fits m none = ⊥
Fits m (some l) =
    (l.min_width ≤ m.hdisplay)
    × (m.hdisplay ≤ l.max_width)
    × (l.min_height ≤ m.vdisplay)
    × (m.vdisplay ≤ l.max_height)

-- After a probe that is not refused, the connector offers one mode more, says so, and the mode fits the
-- limits of the display, where `drm_mode_duplicate` makes a copy.
pub get_modes-pdrv_probe :
    (A : Answers) (duplicate : DisplayMode → Option DisplayMode) (d : FbDevice)
    → is_refused A ≡ false
    → ((m : DisplayMode) → duplicate m ≡ some m)
    → let t = (pdrv_probe A d).1 in
      On
        (λ n u. (n ≡ pos 1) × (m : DisplayMode) × (u.modes ≡ t.modes ++ (m ∷ [])) × Fits m u.limits)
        (λ _. ⊥)
        (get_modes false duplicate t)
unfolding get_modes
get_modes-pdrv_probe A duplicate d h copies =
    let (_, _, limits) = pdrv_probe_lem A d in
    let set_up : (pdrv_probe A d).1.limits ≡ some mode_limits = limits ∙ rw h refl in
    rw (copies fb_pl111_mode) (
      refl,
      fb_pl111_mode,
      refl,
      subst (Fits fb_pl111_mode) (sym set_up) (omega arith, omega arith, omega arith, omega arith),
    )
