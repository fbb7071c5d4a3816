-- ===== src/Topology.antt =====
-- The state of the PWOSPF subsystem (sr_pwospf.h) and the lookups of top_info.c.
pub mod Edit
pub mod Learn
pub mod ShortestPath
pub mod Forwarding
pub mod WellFormed
use pwospf.Base.{
  ℕ, zero, suc, ◌+◌, ◌*◌, Bool, true, false, ◌&&◌, ◌||◌, not, List, [], ◌∷◌, ◌++◌, Option, none,
  some, ltb, ◌==◌, if◌then◌else◌, length, String,
}
use mathlib.Core.Option

-- struct route; `from_lsu` is never used.
pub record Route : Type 0 where
  pub prefix : ℕ
  pub mask : ℕ
  pub next_hop : ℕ
  pub r_id : ℕ

-- struct router. An array is the list of the entries in use; its buffer has the capacity that the
-- code keeps, and the bytes that malloc or realloc gave. A pointer to a router is a number, and
-- -1 in `dist` is `none`.
pub record Router : Type 0 where
  pub adjacencies : List ℕ
  pub adj_buf_size : ℕ
  pub adj_bytes : ℕ
  pub subnets : List Route
  pub subnet_buf_size : ℕ
  pub subnet_bytes : ℕ
  pub last_seq : ℕ
  pub expired : ℕ
  pub rid : ℕ
  pub known : Bool
  pub dist : Option ℕ
  pub prev : Option ℕ

-- struct ftable_entry.
pub record FtableEntry : Type 0 where
  pub prefix : ℕ
  pub mask : ℕ
  pub next_hop : ℕ
  pub interface : String
  pub num_hops : ℕ

-- struct neighbor_list.
pub record Neighbor : Type 0 where
  pub id : ℕ
  pub ip_address : ℕ
  pub timenotvalid : ℕ

-- struct pwospf_iflist, with the bytes of the neighbor array.
pub record PwospfIf : Type 0 where
  pub address : ℕ
  pub mask : ℕ
  pub name : String
  pub helloint : ℕ
  pub mac : List ℕ
  pub neighbors : List Neighbor
  pub nbr_buf_size : ℕ
  pub nbr_bytes : ℕ

-- The routers by address.
abbrev pub Heap : Type 0
Heap = ℕ → Router

abbrev pub put : Heap → ℕ → Router → Heap
put h p r q = if p == q then r else h q

-- struct pwospf_subsys, with the heap of its routers. `network` is the linked list of routers in
-- its order. `overrun` records that an array was written past the bytes it has.
pub record Subsys : Type 0 where
  pub heap : Heap
  pub next_address : ℕ
  pub network : List ℕ
  pub fwrd_table : List FtableEntry
  pub interfaces : List PwospfIf
  pub this_router : ℕ
  pub last_seq_sent : ℕ
  pub area_id : ℕ
  pub autype : ℕ
  pub init_time : ℕ
  pub overrun : Bool

abbrev pub update : Subsys → ℕ → Router → Subsys
update s p r = record s { heap = put s.heap p r }

-- route_cmp: `true` for 0.
abbrev pub route_cmp : Route → Route → Bool
route_cmp r1 r2 = r1.prefix == r2.prefix && r1.mask == r2.mask && r1.r_id == r2.r_id

pub has_route : List Route → Route → Bool
has_route [] rt = false
has_route (r ∷ rs) rt = if route_cmp r rt then true else has_route rs rt

pub router_contains : Route → Router → Bool
unfolding has_route
router_contains rt host = has_route host.subnets rt

-- The pointer that is returned: the position in the array, with what stands there.
pub find_prefix : List Route → ℕ → Option (ℕ × Route)
find_prefix [] prefix = none
find_prefix (r ∷ rs) prefix =
    if r.prefix == prefix
    then some (0, r)
    else Option.map (λ (i, x). (suc i, x)) (find_prefix rs prefix)

pub router_contains_subnet : Router → ℕ → Option (ℕ × Route)
unfolding find_prefix
router_contains_subnet host prefix = find_prefix host.subnets prefix

-- sub_in_adv compares in the other order.
pub sub_in_adv : List Route → Route → Bool
sub_in_adv [] route = false
sub_in_adv (a ∷ advs) route = if route_cmp route a then true else sub_in_adv advs route

unfoldable pub find_rid : Heap → List ℕ → ℕ → Option ℕ
find_rid h [] id = none
find_rid h (p ∷ ps) id = if (h p).rid == id then some p else find_rid h ps id

unfoldable pub adj_list_contains : Subsys → ℕ → Option ℕ
unfolding find_rid
adj_list_contains s id = find_rid s.heap s.network id

unfoldable pub has_rid : Heap → List ℕ → ℕ → Bool
has_rid h [] id = false
has_rid h (p ∷ ps) id = if (h p).rid == id then true else has_rid h ps id

unfoldable pub router_has_adjacency : Heap → ℕ → ℕ → Bool
unfolding has_rid
router_has_adjacency h host con_router = has_rid h (h host).adjacencies (h con_router).rid

unfoldable pub get_sequence : Subsys → ℕ → ℕ
get_sequence s router_id = elim (adj_list_contains s router_id) [
  | some p ↦ (s.heap p).last_seq
  | none ↦ 0
]

unfoldable pub set_sequence : Subsys → ℕ → ℕ → Subsys
set_sequence s router_id sequence = elim (adj_list_contains s router_id) [
  | some p ↦ update s p (record (s.heap p) { last_seq = sequence })
  | none ↦ s
]
