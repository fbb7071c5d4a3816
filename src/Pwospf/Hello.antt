-- ===== src/Pwospf/Hello.antt =====
-- handle_HELLO of hello.c: neighbors come, stay and go.
pub mod Silence
pub mod Greeting
use text.Mathlib.Text.{◌==◌ as str_eq}
use pwospf.Base.{
  ℕ, zero, suc, ◌+◌, ◌-◌, ◌*◌, ◌%◌, ◌^◌, Bool, true, false, ◌&&◌, ◌||◌, not, List, [], ◌∷◌, ◌++◌,
  map, Option, none, some, ltb, leb, ◌==◌, if◌then◌else◌, length, modify, get_elem?, fill, String,
  Outcome, done, aborted, out_of_fuel, ◌>>=◌, bit_and, bit_or,
}
use pwospf.Wire.{htonl, htons, HelloHdr, OspfHdr}
use pwospf.Topology.{
  Route, Router, Neighbor, PwospfIf, Subsys, adj_list_contains, router_contains_subnet,
}
use pwospf.Topology.Edit.{remove_rt_sn_using_id, remove_rt_adj_using_id}
use pwospf.Topology.Learn.{set_r_id}

abbrev pub neighbor_timeout : ℕ
neighbor_timeout = 20

-- A neighbor that fell silent: its subnet and its adjacency go, at both ends.
drop_neighbor : Subsys → ℕ → ℕ → Subsys
drop_neighbor s now deleted_rid =
    let own_rid = (s.heap s.this_router).rid in
    let t = remove_rt_sn_using_id s s.this_router deleted_rid in
    if not (ltb s.init_time now) then s else (elim (adj_list_contains t deleted_rid) [
      | none ↦ t
      | some nbor ↦
          let u = remove_rt_adj_using_id (remove_rt_sn_using_id t nbor own_rid) nbor own_rid in
          remove_rt_adj_using_id u s.this_router (u.heap nbor).rid
    ])

-- The loop over the neighbors of an interface: at each step the ones that stay, and the rest of
-- the array. The last entry takes the place of a deleted one and is looked at next.
pub expire_neighbors :
    ℕ → Subsys → ℕ → List Neighbor → List Neighbor → Outcome (Subsys × List Neighbor)
unfolding drop_neighbor
expire_neighbors fuel s now passed [] = done (s, passed)
expire_neighbors zero s now passed (n ∷ ns) = out_of_fuel
expire_neighbors (suc fuel) s now passed (n ∷ ns) =
    let gone = expire_neighbors fuel (drop_neighbor s now n.id) now passed (fill ns) in
    let kept = expire_neighbors fuel s now (passed ++ n ∷ []) ns in
    if ltb n.timenotvalid now then gone else kept

-- The loop that renews each neighbor with the address; `found` says whether there was one.
pub renew_neighbors : List Neighbor → ℕ → ℕ → List Neighbor × Bool
renew_neighbors [] src now = ([], false)
renew_neighbors (n ∷ ns) src now =
    let (rest, found) = renew_neighbors ns src now in
    if n.ip_address == src
    then (record n { timenotvalid = now + neighbor_timeout } ∷ rest, true)
    else (n ∷ rest, found)

-- The sender becomes a neighbor of the interface, or stays one, and whether it has been found is
-- returned. The array must not be empty. `realloc` is given the new size in bytes, so that the array
-- may be written past its end.
pub meet : PwospfIf → ℕ → ℕ → ℕ → Bool → Outcome (PwospfIf × Bool)
unfolding renew_neighbors
meet i now src rid found =
    let full = leb i.nbr_buf_size (length i.neighbors) in
    let bytes = (if full then 2 * i.nbr_buf_size else i.nbr_bytes) in
    let (ns, known) = renew_neighbors i.neighbors src now in
    let grown = record i {
      nbr_buf_size = if full then 2 * i.nbr_buf_size else i.nbr_buf_size;
      nbr_bytes = bytes;
    } in
    let sender : Neighbor = record {
      id = rid;
      ip_address = src;
      timenotvalid = now + neighbor_timeout;
    } in
    if i.nbr_buf_size == 0 || ltb bytes (8 * length i.neighbors)
    then aborted
    else (if found || known
        then done (record grown { neighbors = ns }, true)
        else (if ltb bytes (8 * (length i.neighbors + 1))
            then aborted
            else done (record grown { neighbors = ns ++ sender ∷ [] }, false)))

-- A subnet of this router that has no router yet gets the sender's identifier.
pub adopt : Subsys → ℕ → ℕ → ℕ → Subsys
adopt s src rid nmask =
    elim (router_contains_subnet (s.heap s.this_router) (bit_and src (htonl nmask))) [
      | none ↦ s
      | some (i, old) ↦
          if old.r_id == 0 && old.mask == htonl nmask then set_r_id s s.this_router i rid else s
    ]

pub record HelloPacket : Type 0 where
  pub ip_src : ℕ
  pub rid : ℕ
  pub hello : HelloHdr

-- The loop over the interfaces, of which `passed` have been done. The flag `found` is shared by
-- all; `return` on a mismatch leaves the interfaces behind as they are.
pub walk_interfaces :
    Subsys → ℕ → String → HelloPacket → List PwospfIf → List PwospfIf → Bool → Outcome Subsys
unfolding expire_neighbors meet adopt
walk_interfaces s now interface p passed [] found = done (record s { interfaces = passed })
walk_interfaces s now interface p passed (i ∷ ifs) found =
    expire_neighbors (length i.neighbors) s now [] i.neighbors >>= λ (t, ns).
    let j = record i { neighbors = ns } in
    let u = adopt t p.ip_src p.rid p.hello.nmask in
    let onward = walk_interfaces t now interface p (passed ++ j ∷ []) ifs found in
    let met = meet j now p.ip_src p.rid found >>= λ (k, found').
    walk_interfaces u now interface p (passed ++ k ∷ []) ifs found' in
    if str_eq i.name interface
    then (if not (i.mask == htonl p.hello.nmask) || not (i.helloint == htons p.hello.helloint)
        then done (record t { interfaces = passed ++ j ∷ ifs })
        else met)
    else onward

-- `len` is the length behind the Ethernet header; the two headers have 24 and 8 bytes.
pub handle_hello : Subsys → ℕ → String → ℕ → HelloPacket → Outcome Subsys
unfolding walk_interfaces
handle_hello s now interface len p =
    if ltb len 32 then done s else walk_interfaces s now interface p [] s.interfaces false
