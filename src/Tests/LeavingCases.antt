-- ===== src/Tests/LeavingCases.antt =====
-- The theorems on the packets that leave at concrete inputs: what is forwarded, and what the router
-- makes itself.
use mathlib.Core.Option
use pwospf.Base.{◌+◌, ◌≡◌, refl, true, List, [], ◌∷◌, ◌++◌, map, some, length, All, arith, done}
use pwospf.Wire.{EthernetHdr, htonl}
use pwospf.Wire.Bytes.{Bytes, load}
use pwospf.Wire.Layout.{read_all_advs}
use pwospf.Topology.{PwospfIf, FtableEntry}
use pwospf.Routing.{sr_get_interface, get_if_from_mac, get_dyn_routing_if, get_static_routing_if}
use pwospf.Routing.Tables.{as_route, get_static_routing_if-get_dyn_routing_if}
use pwospf.Arp.{search_cache}
use pwospf.Pwospf.Updates.{generate_adv}
use pwospf.Packet.{Instance, PacketState, Output, wire}
use pwospf.Packet.Link.{way_out, create_eth_hdr}
use pwospf.Packet.Announce.{lsu_frame, send_hello}
use pwospf.Packet.Frame.{send_response}
use pwospf.Packet.Unreachable.{returned, send_icmp, send_icmp-unreachable}
use pwospf.Packet.Leave.{ip_type, create_eth_hdr-send_response}
use pwospf.Packet.Advertised.{IsWide, lsu_frame-generate_adv}
use pwospf.Packet.Beacons.{Beacons, send_hello-Beacons}
use pwospf.Tests.ArpCases.{mac, cache}
use pwospf.Tests.ProtocolCases.{eth0}
use pwospf.Tests.TopologyCases.{pair}
use pwospf.Tests.PacketCases.{node, way_in, frame, arrival}

-- A packet that is forwarded to the next hop 11, which the cache knows.
abbrev leaving : PacketState
leaving = record (arrival (frame 6 20) "eth1" 30) {
  rt_entry = some way_in;
  forward = true;
  res_len = 44;
}

abbrev old_header : EthernetHdr
old_header = record { ether_dhost = mac; ether_shost = mac; ether_type = 8 }

leaves_by : way_out leaving ≡ some ("eth0", 11)
unfolding way_out
leaves_by = refl

eth0_is : sr_get_interface node.if_list "eth0" ≡ some eth0
unfolding sr_get_interface
eth0_is = refl

knows : (search_cache cache 100 11).1 ≡ some mac
unfolding search_cache
knows = refl

create_eth_hdr-send_response_example :
    (sr' : Instance) × (ps' : PacketState) × (create_eth_hdr node 100 leaving old_header
      ≡ done (sr', ps', [], true))
    × (send_response sr' ps'
        ≡ wire (record {
          m_len = htonl (44 + 24);
          m_type = htonl 4;
          m_interface_name = "eth0";
          frame = mac ++ (eth0.addr ++ (ip_type ++ load leaving.buffer 14 30));
        })
          ∷ [])
create_eth_hdr-send_response_example =
    create_eth_hdr-send_response node 100 leaving old_header "eth0" 11 eth0 mac refl leaves_by
      eth0_is knows refl refl (omega arith)

came_to : get_if_from_mac node.if_list mac ≡ some eth0
unfolding get_if_from_mac
came_to = refl

send_icmp-unreachable_example :
    (m : Bytes) × (send_icmp node.if_list (λ q. 0) (frame 6 20) 50 old_header
      ≡ done (
          wire (record {
            m_len = htonl (34 + (8 + returned 50) + 24);
            m_type = htonl 4;
            m_interface_name = "eth0";
            frame = load m 0 (34 + (8 + returned 50));
          })
          ∷ []))
    × (load m 0 6 ≡ mac)
    × (load m 6 6 ≡ eth0.addr)
    × (load m 34 2 ≡ 3 ∷ 1 ∷ [])
send_icmp-unreachable_example =
    send_icmp-unreachable node.if_list (λ q. 0) (frame 6 20) 50 old_header eth0 came_to eth0_is refl
      refl

abbrev learned : FtableEntry
learned = record { prefix = 20; mask = 255; next_hop = 11; interface = "eth0"; num_hops = 1 }

get_static_routing_if-get_dyn_routing_if_example :
    get_static_routing_if (map as_route (learned ∷ [])) 20
    ≡ Option.map as_route (get_dyn_routing_if (learned ∷ []) 20)
get_static_routing_if-get_dyn_routing_if_example =
    get_static_routing_if-get_dyn_routing_if (learned ∷ []) 20

generate_adv-IsWide : All IsWide (generate_adv pair (way_in ∷ []))
unfolding generate_adv
generate_adv-IsWide = ground arith

lsu_frame-generate_adv_example :
    (m : Bytes) × (lsu_frame (λ q. 0) pair (way_in ∷ []) ≡ done m)
    × (read_all_advs m 66 (length (generate_adv pair (way_in ∷ [])))
        ≡ generate_adv pair (way_in ∷ []))
lsu_frame-generate_adv_example =
    lsu_frame-generate_adv (λ q. 0) pair (way_in ∷ []) generate_adv-IsWide

abbrev speaker : PwospfIf
speaker = record {
  address = 10;
  mask = 255;
  name = "eth0";
  helloint = 5;
  mac = mac;
  neighbors = [];
  nbr_buf_size = 5;
  nbr_bytes = 40;
}

abbrev greeter : Instance
greeter = record node { ospf_subsys = record pair { interfaces = speaker ∷ [] } }

send_hello-Beacons_example :
    (out : List Output) × (send_hello greeter (λ q. 0) ≡ done out) × Beacons (speaker ∷ []) out
send_hello-Beacons_example =
    send_hello-Beacons greeter (λ q. 0) speaker [] refl ((eth0, eth0_is, refl, refl), tt)
