-- ===== src/Capture.antt =====
-- The program of lkml/v4l2-app/grabber.c on the driver of lkml/v4l2/vid4linux.c, with videobuf2 between
-- them.
mod Turns
mod Videobuf2
mod Handed
mod Along
mod Rotation
mod Queueing
mod Start
mod Filled
mod Stall
mod Tests
