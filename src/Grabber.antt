-- ===== src/Grabber.antt =====
-- lkml/v4l2-app/grabber.c, the program that opens the video device and sets it up for capturing.
pub mod Types
pub mod Frames
mod Setup
mod Main
mod Retry
pub mod Takes
mod Count
mod Delivers
mod Serving
mod Memory
mod Balance
mod Release
mod Quiet
mod Idle
pub mod Asks
pub mod Loop
mod Forced
mod Format
mod Plain
mod Accepted
mod Sized
mod Fits
mod Served
mod Tests
