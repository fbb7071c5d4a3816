-- ===== src/Topology/Forwarding.antt =====
-- update_ftable of top_info.c: the forwarding table from the paths.
pub mod Keys
use mathlib.Core.Option
use pwospf.Base.{
  ℕ, suc, Bool, true, false, ◌&&◌, List, [], ◌∷◌, ◌++◌, Option, none, some, ltb, ◌==◌,
  if◌then◌else◌, modify, Outcome, done, aborted, ◌>>=◌, bit_and, String,
}
use pwospf.Topology.{Route, FtableEntry, Neighbor, PwospfIf, Subsys}
use pwospf.Topology.ShortestPath.{NextHop, itself, unreachable, via, find_next_hop}

unfoldable pub get_subnet_if : List PwospfIf → Route → Option PwospfIf
get_subnet_if [] subnet = none
get_subnet_if (i ∷ ifs) subnet =
    if bit_and i.mask i.address == subnet.prefix then some i else get_subnet_if ifs subnet

pub find_neighbor : List Neighbor → ℕ → Option Neighbor
find_neighbor [] id = none
find_neighbor (n ∷ ns) id = if n.id == id then some n else find_neighbor ns id

-- The two structures that get_if_and_neighbor fills in, if it finds the neighbor.
pub get_if_and_neighbor : List PwospfIf → ℕ → Option (PwospfIf × Neighbor)
unfolding find_neighbor
get_if_and_neighbor [] id = none
get_if_and_neighbor (i ∷ ifs) id =
    let rest = get_if_and_neighbor ifs id in
    elim (find_neighbor i.neighbors id) [ some n ↦ some (i, n) | none ↦ rest ]

-- The pointer that ftable_contains returns: the position, with the entry there.
pub ftable_contains : List FtableEntry → ℕ → ℕ → Option (ℕ × FtableEntry)
ftable_contains [] pfix mask = none
ftable_contains (e ∷ es) pfix mask =
    if e.prefix == pfix && e.mask == mask
    then some (0, e)
    else Option.map (λ (i, x). (suc i, x)) (ftable_contains es pfix mask)

-- A subnet of this router replaces the entry for it, or is added at the end. `assert(iface)` fails
-- where no interface has the subnet.
unfoldable pub add_own : List PwospfIf → List FtableEntry → Route → Outcome (List FtableEntry)
add_own ifs t r = elim (get_subnet_if ifs r) [
  | none ↦ aborted
  | some iface ↦ done (elim (ftable_contains t r.prefix r.mask) [
    | some (i, _) ↦
        modify t i (λ e. record e { next_hop = r.next_hop; interface = iface.name; num_hops = 0 })
    | none ↦
        t
        ++ record {
          prefix = r.prefix;
          mask = r.mask;
          next_hop = r.next_hop;
          interface = iface.name;
          num_hops = 0;
        }
          ∷ []
  ])
]

unfoldable pub add_all_own :
    List PwospfIf → List FtableEntry → List Route → Outcome (List FtableEntry)
unfolding add_own
add_all_own ifs t [] = done t
add_all_own ifs t (r ∷ rs) = add_own ifs t r >>= λ u. add_all_own ifs u rs

-- A subnet of another router is added at the end, or replaces an entry that is farther away.
pub add_remote : ℕ → String → ℕ → List FtableEntry → Route → List FtableEntry
add_remote gateway name numhops t r = elim (ftable_contains t r.prefix r.mask) [
  | none ↦
      t
      ++ record {
        prefix = r.prefix;
        mask = r.mask;
        next_hop = gateway;
        interface = name;
        num_hops = numhops;
      }
        ∷ []
  | some (i, e) ↦
      if ltb numhops e.num_hops
      then modify t i (λ x. record x { next_hop = gateway; interface = name; num_hops = numhops })
      else t
]

pub add_all_remote : ℕ → String → ℕ → List FtableEntry → List Route → List FtableEntry
unfolding add_remote
add_all_remote gateway name numhops t [] = t
add_all_remote gateway name numhops t (r ∷ rs) =
    add_all_remote gateway name numhops (add_remote gateway name numhops t r) rs

-- The address and the interface name of the next router; those that calloc left, all zero, where
-- no interface has it as a neighbor.
pub gateway_of : List PwospfIf → ℕ → ℕ × String
unfolding get_if_and_neighbor
gateway_of ifs id = elim (get_if_and_neighbor ifs id) [
  | none ↦ (0, "")
  | some (i, n) ↦ (n.ip_address, i.name)
]

-- The body of the loop over the network, at the router `p`. `false` is the early `return 0`, with
-- the table so far. In the branch of this router the list entry is this router itself.
unfoldable pub fill_from :
    Subsys → List FtableEntry → ℕ → NextHop → Outcome (List FtableEntry × Bool)
unfolding add_all_own add_all_remote gateway_of
fill_from s t p itself =
    add_all_own s.interfaces t (s.heap s.this_router).subnets >>= λ u. done (u, true)
fill_from s t p unreachable = done (t, false)
fill_from s t p (via q numhops) =
    let (gateway, name) = gateway_of s.interfaces (s.heap q).rid in
    done (add_all_remote gateway name numhops t (s.heap p).subnets, true)

unfoldable pub fill_table : Subsys → List FtableEntry → List ℕ → Outcome (List FtableEntry × Bool)
unfolding fill_from
fill_table s t [] = done (t, true)
fill_table s t (p ∷ ps) = find_next_hop s p >>= λ hop. fill_from s t p hop >>= λ (u, onward).
    let rest = fill_table s u ps in if onward then rest else done (u, false)

-- reset_ftable frees the table first.
unfoldable pub update_ftable : Subsys → Outcome (Subsys × Bool)
unfolding fill_table
update_ftable s =
    fill_table s [] s.network >>= λ (t, complete). done (record s { fwrd_table = t }, complete)
