-- ===== src/Network/Capture.antt =====
-- lkml/network/netcapture.c: the handler, the load and the unload.
use Prim.Native.Nat.{bit_and}
use bbblack.Base.{
  ℕ, ◌==◌, if◌then◌else◌, Bool, true, false, Option, none, some, List, [], ◌∷◌, ◌++◌,
}
use bbblack.Base.Int.{ℤ, pos}
use bbblack.Network.Order.{htons}

-- The fields of `struct sk_buff` that are read, and a number by which it is known; `dev` is its device.
pub record SkBuff : Type 0 where
  pub skb : ℕ
  pub dev : ℕ
  pub pkt_type : ℕ
  pub protocol : ℕ
  pub ip_protocol : ℕ
  pub vlan_tci : ℕ

-- The texts that `switch (skb->pkt_type)` chooses from
pub data Kind : Type 0 where
  to_us to_all to_group to_someone_else outgoing loopback fastroute : Kind

-- What is printed
pub data Line : Type 0 where
  captured : Line
  kind : Kind → Line
  packet : ℕ → ℕ → ℕ → Line
  vlan_id : ℕ → Line

-- The cases of the `switch`, by the values of linux/if_packet.h
unfoldable pub kind_of : ℕ → List Line
kind_of t =
    if t == 0
    then kind to_us ∷ []
    else if t == 1
    then kind to_all ∷ []
    else if t == 2
    then kind to_group ∷ []
    else if t == 3
    then kind to_someone_else ∷ []
    else if t == 4
    then kind outgoing ∷ []
    else if t == 5
    then kind loopback ∷ []
    else if t == 6
    then kind fastroute ∷ []
    else []

-- `network_packet`, whether it is linked into the kernel's list, the references to devices that were
-- taken, the buffers that were freed, and what was printed.
pub record Net : Type 0 where
  pub type : ℕ
  pub dev : Option ℕ
  pub is_added : Bool
  pub dev_refs : List ℕ
  pub freed : List ℕ
  pub log : List Line

unfoldable pub reported_vlan : ℕ → ℕ
reported_vlan tci = bit_and (htons tci) 4095

unfoldable pub packet_rcv : SkBuff → Net → ℤ × Net
unfolding kind_of reported_vlan
packet_rcv s n = (
  pos 0,
  record n {
    freed = n.freed ++ (s.skb ∷ []);
    log =
        n.log
        ++ (captured
            ∷ (kind_of s.pkt_type
                ++ (packet s.dev (htons s.protocol) s.ip_protocol
                    ∷ vlan_id (reported_vlan s.vlan_tci)
                    ∷ [])));
  },
)

abbrev pub eth_p_ip : ℕ
eth_p_ip = 2048

-- The reference that `dev_get_by_name` takes of a device that it finds
abbrev pub hold : Option ℕ → List ℕ → List ℕ
hold none refs = refs
hold (some d) refs = d ∷ refs

unfoldable pub net_init : Option ℕ → Net → ℤ × Net
net_init dev_get_by_name n = (
  pos 0,
  record n {
    type = htons eth_p_ip;
    dev = dev_get_by_name;
    is_added = true;
    dev_refs = hold dev_get_by_name n.dev_refs;
  },
)

unfoldable pub net_cleanup : Net → Net
net_cleanup n = record n { is_added = false }
