-- ===== src/Tests/PacketCases.antt =====
-- The theorems on the packet path at concrete inputs: a router with one interface inside and one
-- outside, and frames given by their bytes that are not 0.
use pwospf.Base.{
  ℕ, ◌+◌, ◌*◌, ◌%◌, ◌^◌, ◌<◌, ◌≤◌, ◌≡◌, refl, true, false, [], ◌∷◌, none, some, arith, done, String,
  ◌==◌, if◌then◌else◌,
}
use pwospf.Wire.{htonl}
use pwospf.Wire.Bytes.{Bytes, Apart, load}
use pwospf.Wire.Layout.{read_ip}
use pwospf.Wire.Cksum.{cksum}
use pwospf.Wire.Sums.{AreBytes}
use pwospf.Firewall.{is_external, is_internal}
use pwospf.Routing.{SrRt, get_dyn_routing_if, get_static_routing_if, choose_way}
use pwospf.Packet.{Instance, PacketState}
use pwospf.Packet.Ip.{own, elsewhere, find_destination, send_on, handle_ip}
use pwospf.Packet.Sound.{IsSound}
use pwospf.Packet.Guard.{Admitted, Decides, Leads, handle_ip-guards}
use pwospf.Packet.Reply.{Answers}
use pwospf.Packet.Echo.{Echoes, handle_ip-Echoes}
use pwospf.Packet.Relay.{send_on-copies}
use pwospf.Tests.FirewallCases.{wall, wall-IsSized}
use pwospf.Tests.ArpCases.{cache}
use pwospf.Tests.ProtocolCases.{eth0}
use pwospf.Tests.TopologyCases.{pair, pair-IsWellFormed}

abbrev pub way_in : SrRt
way_in = record { dest = 20; gw = 11; mask = 255; interface = "eth0" }

abbrev pub node : Instance
node = record {
  if_list = eth0 ∷ [];
  routing_table = way_in ∷ [];
  firewall = wall;
  ospf_subsys = pair;
  arp_cache = cache;
  arpq = [];
}

pub node-IsSound : IsSound node
node-IsSound = record { sized = wall-IsSized; formed = pair-IsWellFormed }

-- A frame with an IP header at 14 and, at 34, what may be an echo request or the port 2048.
abbrev pub frame : ℕ → ℕ → Bytes
frame protocol dest q =
    if q == 12
    then 8
    else (if q == 14
        then 0x45
        else (if q == 22
            then 64
            else (if q == 23
                then protocol
                else (if q == 30 then dest else (if q == 34 then 8 else 0)))))

abbrev pub arrival : Bytes → String → ℕ → PacketState
arrival memory interface len = record {
  memory = memory;
  packet = 14;
  len = len;
  interface = interface;
  buffer = λ q. 0;
  response = 14;
  res_len = 14;
  rt_entry = none;
  dyn_entry = none;
  forward = false;
  ok_to_send = false;
}

abbrev from_outside : PacketState
from_outside = arrival (frame 6 20) "eth1" 30

outside : is_external node.firewall "eth1" ≡ true
unfolding is_external
outside = refl

inside : is_internal node.firewall "eth0" ≡ true
unfolding is_internal
inside = refl

not_mine : find_destination node.if_list (read_ip from_outside.memory 14).ip_dst ≡ elsewhere
unfolding find_destination read_ip htonl
not_mine = refl

short_header : (read_ip from_outside.memory 14).ip_hl * 4 ≤ 20
unfolding read_ip
short_header = omega arith

choose_way-Leads :
    Leads
      (choose_way pair.fwrd_table node.routing_table (read_ip from_outside.memory 14).ip_dst)
      "eth0"
unfolding choose_way get_dyn_routing_if get_static_routing_if read_ip
choose_way-Leads = refl

handle_ip-guards_example :
    Decides
      (handle_ip node 100 0 from_outside)
      (Admitted node.firewall 100 from_outside.memory 34 10 (read_ip from_outside.memory 14))
handle_ip-guards_example =
    handle_ip-guards node 100 0 from_outside "eth0" outside inside (omega arith) (omega arith)
      (omega arith) short_header not_mine choose_way-Leads

abbrev echo : PacketState
echo = arrival (frame 1 10) "eth0" 30

not_outside : is_external node.firewall "eth0" ≡ false
unfolding is_external
not_outside = refl

mine : find_destination node.if_list (read_ip echo.memory 14).ip_dst ≡ own eth0
unfolding find_destination read_ip
mine = refl

plain : (read_ip echo.memory 14).ip_hl * 4 ≤ 20
unfolding read_ip
plain = omega arith

is_icmp : (read_ip echo.memory 14).ip_p ≡ 1
unfolding read_ip
is_icmp = refl

frame_bytes :
    (protocol dest p n : ℕ) → protocol < 256 → dest < 256 → AreBytes (frame protocol dest) p n
frame_bytes protocol dest p n few less q lo hi = ground (arith, few, less)

handle_ip-Echoes_example :
    (ps' : PacketState) × (handle_ip node 100 0 echo ≡ done (node, ps', [], true))
    × (ps'.ok_to_send ≡ true)
    × (ps'.res_len ≡ 14 + 30)
    × Answers echo.memory 14 ps'.buffer 14 (30 % 2 ^ 16)
    × Echoes echo.memory 34 ps'.buffer 34 (4 + 2 * 1)
handle_ip-Echoes_example =
    handle_ip-Echoes node 100 0 echo eth0 1 not_outside mine plain is_icmp refl refl (omega arith)
      refl (frame_bytes 1 10 14 30 (omega arith) (omega arith))

send_on-copies_example :
    (m : Bytes) × (b : Bytes) × (send_on node from_outside 14 14
      ≡ done (
        node,
        record from_outside {
          memory = m;
          buffer = b;
          forward = true;
          res_len = (14 + 30) % 2 ^ 32;
        },
        [],
        true,
      ))
    × (load b 14 (30 + 20) ≡ load m 14 (30 + 20))
    × ((q : ℕ) → q < 14 → b q ≡ from_outside.buffer q)
    × (m 22 + 1 ≡ from_outside.memory 22)
    × (cksum (m 34) (load m 14 20) ≡ some 0)
    × ((q : ℕ) → Apart q 22 1 → Apart q 24 2 → m q ≡ from_outside.memory q)
send_on-copies_example =
    send_on-copies node from_outside 14 14 (frame_bytes 6 20 14 20 (omega arith) (omega arith))
      (omega arith) (omega arith)
