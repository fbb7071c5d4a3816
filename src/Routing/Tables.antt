-- ===== src/Routing/Tables.antt =====
-- The two lookups of sr_router.c, one beside the other.
use mathlib.Core.Option
use pwospf.Base.{
  ℕ, ◌≡◌, refl, ◌&&◌, List, [], ◌∷◌, map, Option, none, some, leb, ◌==◌, inl, inr, Bool-cases,
  bit_and,
}
use pwospf.Topology.{FtableEntry}
use pwospf.Routing.{SrRt, scan_dyn, scan_static, get_dyn_routing_if, get_static_routing_if}

-- The static route with the fields of an entry of the forwarding table.
abbrev pub as_route : FtableEntry → SrRt
as_route e = record { dest = e.prefix; gw = e.next_hop; mask = e.mask; interface = e.interface }

scan_static-map :
    (es : List FtableEntry) (ip min : ℕ) (r : Option FtableEntry)
    → scan_static (map as_route es) ip min (Option.map as_route r)
      ≡ Option.map as_route (scan_dyn es ip min r)
unfolding scan_static scan_dyn
scan_static-map [] ip min r = refl
scan_static-map (e ∷ es) ip min r =
    elim (Bool-cases (bit_and e.mask ip == e.prefix && leb min e.mask)) [
      | inl hit ↦ rw (hit, scan_static, scan_dyn) (scan_static-map es ip e.mask (some e))
      | inr miss ↦ rw (miss, scan_static, scan_dyn) (scan_static-map es ip min r)
    ]

-- get_static_routing_if and get_dyn_routing_if are one function: on tables with the same fields they
-- choose the same entry, or none.
pub get_static_routing_if-get_dyn_routing_if :
    (table : List FtableEntry) (ip_dst : ℕ)
    → get_static_routing_if (map as_route table) ip_dst
      ≡ Option.map as_route (get_dyn_routing_if table ip_dst)
unfolding get_static_routing_if get_dyn_routing_if
get_static_routing_if-get_dyn_routing_if table ip_dst = scan_static-map table ip_dst 0 none
