-- ===== src/DrmApp.antt =====
-- lkml/drm-app/drm_app.c, the program that shows colours on the screens of a DRM device.
mod Types
mod Scan
mod Show
mod Paint
mod Arrays
mod Faults
mod Accepts
mod Crtc
mod Makes
mod Overruns
mod Suits
mod Returns
mod Tests
