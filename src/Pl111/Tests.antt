-- ===== src/Pl111/Tests.antt =====
-- lkml/drm/fb_pl111.c: a probe in which only the registration succeeds.
use bbblack.Base.{◌≡◌, refl, none, [], ◌∷◌, false}
use bbblack.Base.Int.{pos, negsuc}
use bbblack.Pl111.Driver.{FbDevice, Answers, pdrv_probe, pdrv_remove, fb_init, fb_exit}
use bbblack.Pl111.Cycle.{drm_device, platform_device, registered, fb_exit-fb_init}

abbrev fresh : FbDevice
fresh = record { limits = none; has_callbacks = false; modes = []; calls = [] }

abbrev failing : Answers
failing = record {
  coherent_dma_mask = 0;
  coerce = pos 0;
  dev_init = negsuc 11;
  connector_init = negsuc 11;
  pipe_init = negsuc 21;
  dev_register = pos 0;
}

fb_exit-fb_init_example :
    let loaded = fb_init (pos 0) (pos 0) (λ t. (pdrv_probe failing t).1) fresh in
    let t = fb_exit (λ t. (pdrv_remove t).1) loaded.1 in
    (loaded.0 ≡ pos 0) × (registered [] t.calls ≡ drm_device ∷ platform_device ∷ [])
fb_exit-fb_init_example = fb_exit-fb_init (pos 0) (pos 0) failing fresh refl refl refl
