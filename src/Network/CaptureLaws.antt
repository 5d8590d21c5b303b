-- ===== src/Network/CaptureLaws.antt =====
-- lkml/network/netcapture.c: what is captured, and what is said of it.
use bbblack.Base.{
  ℕ, ◌/◌, ◌%◌, ◌<◌, ◌≡◌, ◌↔◌, ◌==◌, ◌&&◌, if◌then◌else◌, Bool, true, Option, none, some, List, [],
  ◌∷◌, ◌++◌, arith,
}
use bbblack.Base.Word.{bit_and-mask}
use bbblack.Network.Order.{htons}
use bbblack.Network.Capture.{
  SkBuff, Line, captured, packet, vlan_id, Net, reported_vlan, packet_rcv, eth_p_ip, kind_of,
}

-- Reversing the bytes twice gives a 16-bit value back.
pub htons-htons : (x : ℕ) → x < 65536 → htons (htons x) ≡ x
htons-htons x h = omega arith

-- The number that is printed as the VLAN of a packet is the VLAN's, the low twelve bits of its tag,
-- exactly if the two bytes of the tag are equal.
pub reported_vlan_iff :
    (tci : ℕ) → tci < 65536 → (reported_vlan tci ≡ tci % 4096) ↔ (tci / 256 ≡ tci % 256)
unfolding reported_vlan
reported_vlan_iff tci h = rw (bit_and-mask (htons tci) 12) ((λ e. omega arith), (λ e. omega arith))

-- What the kernel documents of a `packet_type` in its list: it gets the packets of its type, of its
-- device, or of every device where that is NULL.
abbrev pub is_for : Option ℕ → ℕ → Bool
is_for none d = true
is_for (some e) d = e == d

abbrev pub gets : Net → SkBuff → Bool
gets n s = n.is_added && (n.type == s.protocol) && is_for n.dev s.dev

unfoldable pub receive : List SkBuff → Net → Net
receive [] n = n
receive (s ∷ ss) n = receive ss (if gets n s then (packet_rcv s n).1 else n)

-- The packets of the Internet Protocol that come from the device found, or from any if none was
abbrev pub is_wanted : Option ℕ → SkBuff → Bool
is_wanted found s = (htons eth_p_ip == s.protocol) && is_for found s.dev

abbrev pub wanted : Option ℕ → List SkBuff → List ℕ
wanted found [] = []
wanted found (s ∷ ss) =
    let rest = wanted found ss in if is_wanted found s then s.skb ∷ rest else rest

-- What is printed about a packet of the Internet Protocol
abbrev pub lines_of : SkBuff → List Line
lines_of s =
    captured
    ∷ (kind_of s.pkt_type
        ++ (packet s.dev 2048 s.ip_protocol ∷ vlan_id (reported_vlan s.vlan_tci) ∷ []))

-- What is printed about the packets that are wanted, in the order in which they come
abbrev pub printed : Option ℕ → List SkBuff → List Line
printed found [] = []
printed found (s ∷ ss) =
    let rest = printed found ss in if is_wanted found s then lines_of s ++ rest else rest

-- While the handler for `found` is in the kernel's list
abbrev Listens : Option ℕ → Net → Type 0
Listens found n = (n.type ≡ htons eth_p_ip) × (n.dev ≡ found) × (n.is_added ≡ true)
