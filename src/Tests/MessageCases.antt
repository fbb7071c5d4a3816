-- ===== src/Tests/MessageCases.antt =====
-- The theorems on messages, the checksum and the table lookups at concrete inputs.
use pwospf.Base.{
  ◌%◌, ℕ, ◌/◌, ◌%◌, ◌≡◌, ◌↔◌, refl, List, [], ◌∷◌, ◌++◌, none, some, In, arith, if◌then◌else◌,
}
use pwospf.Wire.{htonl, OspfHdr}
use pwospf.Wire.Cksum.{cksum, bytes_of, cksum-verifies}
use pwospf.Routing.{SrIf, SrRt, get_dyn_routing_if, get_if_from_mac, same_mac}
use pwospf.Routing.Longest.{Covers, LastBest, get_dyn_routing_if_lem, get_if_from_mac-first}
use pwospf.Topology.{FtableEntry}
use pwospf.Pwospf.Updates.{lsu, dispatch_type, header_csum, outgoing_header, handle_pwospf}
use pwospf.Pwospf.Updates.Messages.{handle_pwospf-outgoing_header, handle_pwospf-lsu_iff}
use pwospf.Tests.ProtocolCases.{update_header, eth0}
use pwospf.Tests.TopologyCases.{pair}

abbrev static_route : SrRt
static_route = record { dest = 0; gw = 5; mask = 0; interface = "eth0" }

handle_pwospf-outgoing_header_example :
    (h : OspfHdr) × (outgoing_header pair 4 40 ≡ some h)
    × (handle_pwospf pair h ≡ some (dispatch_type 4))
handle_pwospf-outgoing_header_example = handle_pwospf-outgoing_header pair pair 4 40 refl refl

handle_pwospf-lsu_iff_example : (handle_pwospf pair update_header ≡ some lsu) ↔ (
    (update_header.version ≡ 2)
    × (header_csum update_header ≡ some update_header.csum)
    × (update_header.aid ≡ htonl pair.area_id)
    × (update_header.autype ≡ pair.autype)
    × (update_header.type ≡ 4))
handle_pwospf-lsu_iff_example = handle_pwospf-lsu_iff pair update_header

cksum-verifies_example :
    (c : ℕ) × (cksum 0 (bytes_of (17664 ∷ 60 ∷ []) ++ 0 ∷ 0 ∷ bytes_of (4660 ∷ [])) ≡ some c)
    × (cksum 0 (bytes_of (17664 ∷ 60 ∷ []) ++ c / 256 ∷ c % 256 ∷ bytes_of (4660 ∷ [])) ≡ some 0)
cksum-verifies_example =
    cksum-verifies 0 (17664 ∷ 60 ∷ []) (4660 ∷ []) (omega arith, (omega arith, tt))
      (omega arith, tt) (omega arith)

abbrev table : List FtableEntry
table =
    record { prefix = 8; mask = 12; next_hop = 1; interface = "eth0"; num_hops = 1 }
    ∷ record { prefix = 0; mask = 0; next_hop = 2; interface = "eth1"; num_hops = 2 }
    ∷ []

get_dyn_routing_if_lem_example :
    ((get_dyn_routing_if table 9 ≡ none) ↔ ((x : FtableEntry) → In x table → ¬ Covers 9 x))
    × ((e : FtableEntry) → get_dyn_routing_if table 9 ≡ some e → LastBest 9 table e)
get_dyn_routing_if_lem_example = get_dyn_routing_if_lem table 9

abbrev eth1 : SrIf
eth1 = record { name = "eth1"; addr = 6 ∷ 5 ∷ 4 ∷ 3 ∷ 2 ∷ 1 ∷ []; ip = 11; speed = 0 }

get_if_from_mac-first_example :
    get_if_from_mac (eth0 ∷ eth1 ∷ []) eth1.addr
    ≡ (if same_mac eth0.addr eth1.addr then some eth0 else none)
get_if_from_mac-first_example = get_if_from_mac-first eth0 (eth1 ∷ []) eth1.addr
