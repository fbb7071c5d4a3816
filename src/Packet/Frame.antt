-- ===== src/Packet/Frame.antt =====
-- sr_handlepacket of sr_router.c: a frame that comes in, and what goes out for it.
use pwospf.Base.{
  ℕ, false, List, [], ◌++◌, Option, none, some, ltb, ◌==◌, if◌then◌else◌, String, Outcome, done,
  ◌>>=◌,
}
use pwospf.Wire.{EthernetHdr, htons, ethertype_ip, ethertype_arp}
use pwospf.Wire.Bytes.{Bytes, store}
use pwospf.Wire.Layout.{read_eth, read_arp, eth_bytes, arp_bytes}
use pwospf.Arp.{handle_arp, answers, learns, ignores}
use pwospf.Vns.{sr_send_packet}
use pwospf.Packet.{Instance, PacketState, Output, written, leave_hdr_room}
use pwospf.Packet.Link.{create_eth_hdr}
use pwospf.Packet.Ip.{handle_ip}

-- The state that a frame of `len` bytes on an interface starts with. `head` is what malloc left in
-- the memory of the response.
unfoldable pub arrived : Bytes → ℕ → String → Bytes → PacketState
arrived packet len interface head = record {
  memory = packet;
  packet = 0;
  len = len;
  interface = interface;
  buffer = head;
  response = 0;
  res_len = 0;
  rt_entry = none;
  dyn_entry = none;
  forward = false;
  ok_to_send = false;
}

-- The interface that a finished response is sent out of.
unfoldable pub out_interface : PacketState → Option String
out_interface ps = elim ps.dyn_entry [
  | some e ↦ some e.interface
  | none ↦ elim ps.rt_entry [
    | some e ↦ some e.interface
    | none ↦ if ps.ok_to_send then some ps.interface else none
  ]
]

-- The end of the case of IP, with the response that create_eth_hdr has finished.
unfoldable pub send_response : Instance → PacketState → List Output
unfolding out_interface
send_response sr ps = elim (out_interface ps) [
  | none ↦ []
  | some interface ↦ written (sr_send_packet sr.if_list ps.buffer 0 ps.res_len interface)
]

-- The case of IP.
unfoldable pub receive_ip :
    Instance → ℕ → ℕ → PacketState → EthernetHdr → Outcome (Instance × List Output)
unfolding send_response
receive_ip sr now raw ps perm_eth = handle_ip sr now raw ps >>= λ (sr', ps', out, respond).
    if respond
    then (create_eth_hdr sr' now ps' perm_eth >>= λ (sr2, ps2, more, complete).
        done (sr2, out ++ more ++ (if complete then send_response sr2 ps2 else [])))
    else done (sr', out)

-- The case of ARP. A reply that was learnt, with the address in the cache, sends nothing. Else the
-- response goes back, if it has a length: that of the reply, none for a packet that is too short,
-- and for any other the length of the Ethernet header, with the bytes that malloc left.
unfoldable pub receive_arp :
    Instance → ℕ → PacketState → EthernetHdr → Outcome (Instance × List Output)
receive_arp sr now ps eth =
    handle_arp sr.if_list ps.interface sr.arp_cache now ps.len (read_arp ps.memory ps.packet) eth
    >>= λ handled. elim handled [
      | answers e a ↦
          let b = store ps.buffer 0 (eth_bytes e ++ arp_bytes a) in
          done (sr, written (sr_send_packet sr.if_list b 0 42 ps.interface))
      | learns cache (some _) ↦ done (record sr { arp_cache = cache }, [])
      | learns cache none ↦ done (
        record sr { arp_cache = cache },
        written (sr_send_packet sr.if_list ps.buffer 0 ps.res_len ps.interface),
      )
      | ignores ↦ done (
        sr,
        if ltb ps.len 28
            then []
            else written (sr_send_packet sr.if_list ps.buffer 0 ps.res_len ps.interface),
      )
    ]

unfoldable pub sr_handlepacket :
    Instance → ℕ → ℕ → Bytes → Bytes → ℕ → String → Outcome (Instance × List Output)
unfolding receive_ip receive_arp arrived
sr_handlepacket sr now raw head packet len interface =
    let eth = read_eth packet 0 in
    let ps = leave_hdr_room (arrived packet len interface head) 14 in
    if ltb len 14
    then done (sr, [])
    else (if htons eth.ether_type == ethertype_ip
        then receive_ip sr now raw ps eth
        else (if htons eth.ether_type == ethertype_arp
            then receive_arp sr now ps eth
            else done (sr, [])))
