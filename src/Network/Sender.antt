-- ===== src/Network/Sender.antt =====
-- lkml/vlan-app/vlan_packet.c: the program that sends the same packet for ever.
use bbblack.Base.{
  ℕ, zero, suc, ◌==◌, if◌then◌else◌, Option, none, some, List, [], ◌∷◌, ◌++◌, codes, replicate,
  take,
}
use bbblack.Base.Int.{ℤ, is_neg}
use bbblack.Base.Run.{Run, exits, out_of_fuel, fault}
use bbblack.Network.Order.{htons}

-- `struct sockaddr_in`: the bytes of the address, and the port as it is stored.
pub record Sockaddr : Type 0 where
  pub sin_port : ℕ
  pub sin_addr : List ℕ

pub record Datagram : Type 0 where
  pub payload : List ℕ
  pub to : Sockaddr

-- What the C library and the kernel answer. `setsockopt` is given the socket, which may be -1.
pub record Answers : Type 0 where
  pub gethostbyname : Option (List ℕ)
  pub socket : ℤ
  pub setsockopt : ℤ → ℤ

-- The sockets that were closed and the datagrams that were sent, the last one first.
pub record Sent : Type 0 where
  pub closed_fds : List ℤ
  pub sent : List Datagram

abbrev pub serverport : ℕ
serverport = 5581

abbrev pub buffer : List ℕ
buffer = codes "@DeathFire" ++ replicate 1014 0

abbrev pub strlen : List ℕ → ℕ
strlen [] = 0
strlen (c ∷ cs) = let rest = strlen cs in if c == 0 then 0 else suc rest

-- The endless loop, as far as its fuel goes.
unfoldable pub send_loop : ℕ → Sockaddr → Run Sent Unit
send_loop zero servaddr s = (out_of_fuel, s)
send_loop (suc n) servaddr s =
    send_loop n servaddr
      (record s { sent = record { payload = take (strlen buffer) buffer; to = servaddr } ∷ s.sent })

-- `server->h_addr` where `gethostbyname` found nothing is a read through NULL.
unfoldable pub sender : Option (List ℕ) → ℕ → Run Sent Unit
unfolding send_loop
sender none fuel = fault
sender (some addr) fuel = send_loop fuel (record { sin_port = htons serverport; sin_addr = addr })

unfoldable pub main : Answers → ℕ → Run Sent Unit
unfolding sender
main A fuel =
    if is_neg (A.setsockopt A.socket)
    then (λ s. (exits 255, record s { closed_fds = A.socket ∷ s.closed_fds }))
    else sender A.gethostbyname fuel
