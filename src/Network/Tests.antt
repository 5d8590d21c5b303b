-- ===== src/Network/Tests.antt =====
-- lkml/network/netcapture.c, lkml/vlan-app/vlan_packet.c: runs on a few packets.
use bbblack.Base.{
  ◌+◌, ℕ, ◌/◌, ◌%◌, ◌≡◌, ◌↔◌, refl, false, none, some, [], ◌∷◌, ◌++◌, replicate, arith,
}
use bbblack.Base.Int.{pos}
use bbblack.Base.Run.{out_of_fuel}
use bbblack.Network.Capture.{SkBuff, Net, reported_vlan}
use bbblack.Network.CaptureLaws.{reported_vlan_iff}
use bbblack.Network.Sender.{Answers, Sent, main}
use bbblack.Network.SenderLaws.{greeting, main_sends}

reported_vlan_iff_example : (reported_vlan 257 ≡ 257 % 4096) ↔ (257 / 256 ≡ 257 % 256)
reported_vlan_iff_example = reported_vlan_iff 257 (omega arith)

vlan_100_as : reported_vlan 100 ≡ 1024
unfolding reported_vlan
vlan_100_as = refl

abbrev ip_from : ℕ → SkBuff
ip_from d = record {
  skb = 7 + d;
  dev = d;
  pkt_type = 0;
  protocol = 8;
  ip_protocol = 17;
  vlan_tci = 100;
}

abbrev arp : SkBuff
arp = record { skb = 1; dev = 3; pkt_type = 1; protocol = 1544; ip_protocol = 0; vlan_tci = 0 }

abbrev unloaded : Net
unloaded = record { type = 0; dev = none; is_added = false; dev_refs = []; freed = []; log = [] }

abbrev answers : Answers
answers = record {
  gethostbyname = some (169 ∷ 254 ∷ 115 ∷ 6 ∷ []);
  socket = pos 3;
  setsockopt = λ fd. pos 0;
}

abbrev silent : Sent
silent = record { closed_fds = []; sent = [] }

main_sends_example : main answers 2 silent ≡ (
  out_of_fuel,
  record silent { sent = replicate 2 (greeting (169 ∷ 254 ∷ 115 ∷ 6 ∷ [])) ++ [] },
)
main_sends_example = main_sends answers (169 ∷ 254 ∷ 115 ∷ 6 ∷ []) 2 silent refl refl
