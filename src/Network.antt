-- ===== src/Network.antt =====
-- lkml/network and lkml/vlan-app, a module that captures packets and a program that sends them.
mod Order
mod Capture
mod CaptureLaws
mod Sender
mod SenderLaws
mod Tests
