-- ===== src/Pl111/Driver.antt =====
-- lkml/drm/fb_pl111.c: the probe, the modes of the connector, the load and the unload.
use bbblack.Base.{
  ℕ, ◌-◌, ◌^◌, ◌==◌, if◌then◌else◌, Bool, true, Option, none, some, List, [], ◌∷◌, ◌++◌,
}
use bbblack.Base.Int.{ℤ, pos, is_neg, is_nonzero}
use bbblack.Base.Run.{Run, pure, fault, ◌>>◌, modify}

-- `DRM_SIMPLE_MODE(hd, vd, hd_mm, vd_mm)`
pub record DisplayMode : Type 0 where
  pub hdisplay : ℕ
  pub vdisplay : ℕ
  pub width_mm : ℕ
  pub height_mm : ℕ

abbrev pub fb_pl111_mode : DisplayMode
fb_pl111_mode = record { hdisplay = 240; vdisplay = 320; width_mm = 37; height_mm = 49 }

pub data Format : Type 0 where
  rgb565 xrgb8888 : Format

abbrev pub pl111_formats : List Format
pl111_formats = rgb565 ∷ xrgb8888 ∷ []

-- The calls of the DRM helpers and of the driver model, in order; a registration with its result
pub data Call : Type 0 where
  dma_coerce_mask_and_coherent : ℕ → Call
  devm_drm_dev_init drm_mode_config_init drm_connector_helper_add drm_connector_init : Call
  drm_simple_display_pipe_init : List Format → Call
  drm_plane_enable_fb_damage_clips drm_mode_config_reset : Call
  drm_dev_register platform_device_register platform_driver_register : ℤ → Call
  platform_driver_unregister : Call

-- The limits of `ddev.mode_config`
pub record Limits : Type 0 where
  pub min_width : ℕ
  pub max_width : ℕ
  pub min_height : ℕ
  pub max_height : ℕ

-- The globals `fbdev` and `pdrv` as far as the driver sets them, the modes that were added to the
-- connector, and the calls.
pub record FbDevice : Type 0 where
  pub limits : Option Limits
  pub has_callbacks : Bool
  pub modes : List DisplayMode
  pub calls : List Call

-- What the kernel answers in the probe.
pub record Answers : Type 0 where
  pub coherent_dma_mask : ℕ
  pub coerce : ℤ
  pub dev_init : ℤ
  pub connector_init : ℤ
  pub pipe_init : ℤ
  pub dev_register : ℤ

abbrev pub emit : List Call → FbDevice → FbDevice
emit cs d = record d { calls = d.calls ++ cs }

abbrev pub mode_limits : Limits
mode_limits = record { min_width = 24; max_width = 240; min_height = 37; max_height = 320 }

-- A result that is negative is printed and then overwritten.
abbrev pub after : ℤ → ℤ → ℤ
after ret next = if is_neg ret then next else next

-- Lines 148 to 183
unfoldable pub init_display : Answers → FbDevice → ℤ × FbDevice
init_display A d =
    let d1 = emit (devm_drm_dev_init ∷ drm_mode_config_init ∷ drm_connector_helper_add ∷ []) d in
    let d2 = emit (drm_connector_init ∷ drm_simple_display_pipe_init pl111_formats ∷ []) d1 in
    let d3 = record d2 { limits = some mode_limits } in
    let d4 =
      emit
        (drm_plane_enable_fb_damage_clips
          ∷ drm_mode_config_reset
          ∷ drm_dev_register A.dev_register
          ∷ [])
        d3 in
    (after A.dev_init (after A.connector_init (after A.pipe_init A.dev_register)), d4)

unfoldable pub pdrv_probe : Answers → FbDevice → ℤ × FbDevice
unfolding init_display
pdrv_probe A d =
    if A.coherent_dma_mask == 0
    then (let d1 = emit (dma_coerce_mask_and_coherent (2 ^ 32 - 1) ∷ []) d in
        if is_nonzero A.coerce then (A.coerce, d1) else init_display A d1)
    else init_display A d

unfoldable pub pdrv_remove : FbDevice → ℤ × FbDevice
pdrv_remove d = (pos 0, d)

add_mode : Option DisplayMode → Run FbDevice ℤ
add_mode none = fault
add_mode (some m) = do modify (λ d. record d { modes = d.modes ++ (m ∷ []) }); pure (pos 1)

-- A connector that is NULL is only reported before it is used; `drm_mode_duplicate` may return NULL,
-- which `drm_mode_probed_add` does not take.
unfoldable pub get_modes : Bool → (DisplayMode → Option DisplayMode) → Run FbDevice ℤ
unfolding add_mode
get_modes is_null drm_mode_duplicate =
    if is_null then fault else add_mode (drm_mode_duplicate fb_pl111_mode)

-- The arguments are the results of both registrations, which are dropped, and `bind`, which is what
-- `platform_driver_register` calls in turn: `pdrv_probe` for a device that matches.
unfoldable pub fb_init : ℤ → ℤ → (FbDevice → FbDevice) → FbDevice → ℤ × FbDevice
fb_init device_ret driver_ret bind d = (
  pos 0,
  bind (
      emit (platform_device_register device_ret ∷ platform_driver_register driver_ret ∷ [])
        (record d { has_callbacks = true })),
)

-- What `platform_driver_unregister` calls in turn, `pdrv_remove` for a bound device, is `unbind`.
unfoldable pub fb_exit : (FbDevice → FbDevice) → FbDevice → FbDevice
fb_exit unbind d = unbind (emit (platform_driver_unregister ∷ []) d)
