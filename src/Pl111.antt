-- ===== src/Pl111.antt =====
-- lkml/drm/fb_pl111.c, a DRM driver for a framebuffer without hardware.
mod Driver
mod Laws
mod Cycle
mod Tests
