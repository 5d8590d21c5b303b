-- ===== src/Network/SenderLaws.antt =====
-- lkml/vlan-app/vlan_packet.c: that the program does not end by itself, and what it sends.
use bbblack.Base.{
  ◌*◌, ℕ, zero, suc, ◌+◌, ◌≡◌, refl, ap, ◌∙◌, false, some, List, ◌∷◌, ◌++◌, codes, replicate,
}
use bbblack.Base.Int.{is_neg}
use bbblack.Base.Run.{out_of_fuel}
use bbblack.Network.Sender.{Datagram, Answers, Sent, send_loop, sender, main}

-- The text without its NUL, to port 5581, of which the bytes are stored as 21 and 205, of the host
abbrev pub greeting : List ℕ → Datagram
greeting addr = record {
  payload = codes "@DeathFire";
  to = record { sin_port = 21 + 205 * 256; sin_addr = addr };
}

replicate-cons :
    (n : ℕ) (d : Datagram) (ds : List Datagram)
    → replicate n d ++ (d ∷ ds) ≡ d ∷ (replicate n d ++ ds)
replicate-cons zero d ds = refl
replicate-cons (suc n) d ds = ap (λ l. d ∷ l) (replicate-cons n d ds)

send_loop_lem :
    (n : ℕ) (addr : List ℕ) (s : Sent)
    → send_loop n (greeting addr).to s
      ≡ (out_of_fuel, record s { sent = replicate n (greeting addr) ++ s.sent })
unfolding send_loop
send_loop_lem zero addr s = refl
send_loop_lem (suc n) addr s =
    send_loop_lem n addr (record s { sent = greeting addr ∷ s.sent })
    ∙ ap (λ l. (out_of_fuel, record s { sent = l })) (replicate-cons n (greeting addr) s.sent)

-- Where the host is found and the socket is bound to the interface, the program does not end: with any
-- fuel it uses it up, and has sent as many datagrams, all of them the same.
pub main_sends :
    (A : Answers) (addr : List ℕ) (fuel : ℕ) (s : Sent)
    → A.gethostbyname ≡ some addr
    → is_neg (A.setsockopt A.socket) ≡ false
    → main A fuel s ≡ (out_of_fuel, record s { sent = replicate fuel (greeting addr) ++ s.sent })
unfolding main sender
main_sends A addr fuel s e ok = rw ok (rw e (send_loop_lem fuel addr s))
