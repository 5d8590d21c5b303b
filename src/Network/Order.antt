-- ===== src/Network/Order.antt =====
-- lkml/network/netcapture.c, lkml/vlan-app/vlan_packet.c: 16-bit values in the byte order of the network.
use bbblack.Base.{ℕ, ◌+◌, ◌*◌, ◌/◌, ◌%◌}

-- `htons` and `ntohs` on a processor that stores the low byte first
abbrev pub htons : ℕ → ℕ
htons x = x % 256 * 256 + x / 256 % 256
