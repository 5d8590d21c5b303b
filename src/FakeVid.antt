-- ===== src/FakeVid.antt =====
-- lkml/v4l2/vid4linux.c: the fake capture driver. `State` has the data, `Queue` the videobuf2
-- operations, `Thread` the frame generation thread, `Format` the format ioctls, `Init` the
-- initialisation and the exit; the other modules hold theorems.
pub mod State
pub mod Queue
pub mod Format
pub mod Tables
pub mod Init
pub mod Thread
pub mod Schedule
pub mod FormatLaws
mod InitLaws
pub mod Order
mod Refine
pub mod Progress
pub mod Content
mod Tests
