-- ===== src/Vns.antt =====
-- The connection to the network simulator: sr_vns_comm.c.
use pwospf.Base.{
  ℕ, ◌+◌, Bool, false, ◌&&◌, not, List, Option, none, some, ltb, ◌==◌, if◌then◌else◌, String,
  Outcome, done, aborted,
}
use pwospf.Wire.{htonl, htons, ethertype_arp}
use pwospf.Wire.Bytes.{Bytes, get16, get32, load}
use pwospf.Routing.{SrIf, sr_get_interface, same_mac}

abbrev pub vns_packet : ℕ
vns_packet = 4

-- c_packet_header with the frame behind it, as it is written to the socket.
pub record VnsPacket : Type 0 where
  pub m_len : ℕ
  pub m_type : ℕ
  pub m_interface_name : String
  pub frame : List ℕ

-- The interface exists, and has the source address of the frame at `p`.
unfoldable pub ether_addrs_match_interface : List SrIf → Bytes → ℕ → String → Bool
ether_addrs_match_interface if_list buf p name = elim (sr_get_interface if_list name) [
  | none ↦ false
  | some iface ↦ same_mac (load buf (p + 6) 6) iface.addr
]

-- What is written for the frame of `len` bytes at `p`; `none` is the result -1. The header before
-- the frame has 24 bytes. The write itself succeeds.
unfoldable pub sr_send_packet : List SrIf → Bytes → ℕ → ℕ → String → Option VnsPacket
unfolding ether_addrs_match_interface
sr_send_packet if_list buf p len iface =
    if ltb len 14
    then none
    else (if ether_addrs_match_interface if_list buf p iface
        then some (record {
          m_len = htonl (len + 24);
          m_type = htonl vns_packet;
          m_interface_name = iface;
          frame = load buf p len;
        })
        else none)

-- An ARP request that asks for another address than the interface's. A missing interface is a
-- failed `assert`, which stands behind the test of the length.
unfoldable pub sr_arp_req_not_for_us : List SrIf → Bytes → ℕ → ℕ → String → Outcome Bool
sr_arp_req_not_for_us if_list packet p len interface =
    if ltb len 42 then done false else (elim (sr_get_interface if_list interface) [
      | none ↦ aborted
      | some iface ↦ done (
          get16 packet (p + 12) == htons ethertype_arp
          && get16 packet (p + 14 + 6) == htons 1
          && not (get32 packet (p + 14 + 24) == iface.ip))
    ])
