-- ===== src/Routing.antt =====
-- The interface list (sr_if.c), the static routing table (sr_rt.c), and the two table lookups of
-- sr_router.c.
pub mod Longest
pub mod Tables
use text.Mathlib.Text.{◌==◌ as str_eq}
use pwospf.Base.{
  ℕ, zero, suc, ◌+◌, Bool, true, false, ◌&&◌, List, [], ◌∷◌, ◌++◌, Option, none, some, leb, ◌==◌,
  if◌then◌else◌, String, bit_and,
}
use pwospf.Topology.{FtableEntry}

-- struct sr_if, in the router's own byte order where the code has it so.
pub record SrIf : Type 0 where
  pub name : String
  pub addr : List ℕ
  pub ip : ℕ
  pub speed : ℕ

-- struct sr_rt.
pub record SrRt : Type 0 where
  pub dest : ℕ
  pub gw : ℕ
  pub mask : ℕ
  pub interface : String

unfoldable pub sr_get_interface : List SrIf → String → Option SrIf
sr_get_interface [] name = none
sr_get_interface (i ∷ ifs) name = if str_eq i.name name then some i else sr_get_interface ifs name

-- malloc leaves the other fields with any values, given here as `raw`.
pub sr_add_interface : List SrIf → SrIf → String → List SrIf
sr_add_interface ifs raw name = ifs ++ record raw { name = name } ∷ []

-- Both setters change the last interface; `none` is the failed `assert` on an empty list.
on_last : (SrIf → SrIf) → List SrIf → Option (List SrIf)
on_last f [] = none
on_last f (i ∷ []) = some (f i ∷ [])
on_last f (i ∷ j ∷ ifs) = elim (on_last f (j ∷ ifs)) [ none ↦ none | some r ↦ some (i ∷ r) ]

pub sr_set_ether_addr : List SrIf → List ℕ → Option (List SrIf)
unfolding on_last
sr_set_ether_addr ifs addr = on_last (λ i. record i { addr = addr }) ifs

pub sr_set_ether_ip : List SrIf → ℕ → Option (List SrIf)
unfolding on_last
sr_set_ether_ip ifs ip_nbo = on_last (λ i. record i { ip = ip_nbo }) ifs

-- The comparison of six bytes against an interface that get_if_from_mac makes.
unfoldable pub same_mac : List ℕ → List ℕ → Bool
same_mac [] [] = true
same_mac (a ∷ as') (b ∷ bs) = if a == b then same_mac as' bs else false
same_mac _ _ = false

-- The loop of get_if_from_mac. `match` is set before the loop and never again.
scan_macs : List SrIf → List ℕ → Bool → Option SrIf
scan_macs [] mac match = none
scan_macs (i ∷ ifs) mac match =
    let still = (if same_mac i.addr mac then match else false) in
    if still then some i else scan_macs ifs mac still

unfoldable pub get_if_from_mac : List SrIf → List ℕ → Option SrIf
unfolding scan_macs same_mac
get_if_from_mac ifs mac = scan_macs ifs mac true

unfoldable pub sr_add_rt_entry : List SrRt → ℕ → ℕ → ℕ → String → List SrRt
sr_add_rt_entry table dest gw mask if_name =
    table ++ record { dest = dest; gw = gw; mask = mask; interface = if_name } ∷ []

-- The loop of get_dyn_routing_if, with the least mask that still counts and the answer so far.
scan_dyn : List FtableEntry → ℕ → ℕ → Option FtableEntry → Option FtableEntry
scan_dyn [] ip_dst min_mask response = response
scan_dyn (e ∷ es) ip_dst min_mask response =
    elim (bit_and e.mask ip_dst == e.prefix && leb min_mask e.mask) [
      | true ↦ scan_dyn es ip_dst e.mask (some e)
      | false ↦ scan_dyn es ip_dst min_mask response
    ]

unfoldable pub get_dyn_routing_if : List FtableEntry → ℕ → Option FtableEntry
unfolding scan_dyn
get_dyn_routing_if table ip_dst = scan_dyn table ip_dst 0 none

scan_static : List SrRt → ℕ → ℕ → Option SrRt → Option SrRt
scan_static [] ip_dst min_mask response = response
scan_static (e ∷ es) ip_dst min_mask response =
    elim (bit_and e.mask ip_dst == e.dest && leb min_mask e.mask) [
      | true ↦ scan_static es ip_dst e.mask (some e)
      | false ↦ scan_static es ip_dst min_mask response
    ]

unfoldable pub get_static_routing_if : List SrRt → ℕ → Option SrRt
unfolding scan_static
get_static_routing_if table ip_dst = scan_static table ip_dst 0 none

-- Where handle_ip sends a packet that is not for the router itself: the dynamic table decides,
-- and the static one only if it has nothing.
pub data Way : Type 0 where
  dynamic : FtableEntry → Way
  static : SrRt → Way
  nowhere : Way

unfoldable pub choose_way : List FtableEntry → List SrRt → ℕ → Way
choose_way fwrd_table routing_table ip_dst = elim (get_dyn_routing_if fwrd_table ip_dst) [
  | some e ↦ dynamic e
  | none ↦ elim (get_static_routing_if routing_table ip_dst) [ some e ↦ static e | none ↦ nowhere ]
]
