-- ===== src/Topology/Edit.antt =====
-- The changes that top_info.c makes to the topology.
use pwospf.Base.{
  ℕ, ◌+◌, ◌*◌, Bool, true, false, ◌&&◌, ◌||◌, not, List, [], ◌∷◌, ◌++◌, none, ltb, leb, ◌==◌,
  if◌then◌else◌, length, fill, Outcome, done, ◌>>=◌,
}
use pwospf.Topology.{Route, Subsys, put, update, route_cmp, router_has_adjacency}
use pwospf.Topology.ShortestPath.{dijkstra}
use pwospf.Topology.Forwarding.{update_ftable}

abbrev pub init_size : ℕ
init_size = 10

-- The size of a pointer, and the three update intervals after which a router expires.
abbrev pub pointer_size : ℕ
pointer_size = 8

abbrev pub lifetime : ℕ
lifetime = 90

-- The first route that passes the test is taken out, and the last one moves to its place.
unfoldable pub take_route : (Route → Bool) → List Route → List Route
take_route p [] = []
take_route p (r ∷ rs) = if p r then fill rs else r ∷ take_route p rs

unfoldable pub take_pointer : (ℕ → Bool) → List ℕ → List ℕ
take_pointer p [] = []
take_pointer p (a ∷ rest) = if p a then fill rest else a ∷ take_pointer p rest

unfoldable pub remove_subnet_from_router : Subsys → ℕ → Route → Subsys
unfolding take_route take_pointer
remove_subnet_from_router s rt subnet =
    let r = s.heap rt in
    update s rt (record r {
      subnets = take_route (λ x. route_cmp x subnet) r.subnets;
      adjacencies =
          if subnet.r_id == 0
          then r.adjacencies
          else take_pointer (λ a. subnet.r_id == (s.heap a).rid) r.adjacencies;
    })

-- The first route with the identifier is freed; the last one moves to its place.
unfoldable pub remove_rt_sn_using_id : Subsys → ℕ → ℕ → Subsys
unfolding take_route
remove_rt_sn_using_id s rt id =
    let r = s.heap rt in
    update s rt (record r { subnets = take_route (λ x. x.r_id == id) r.subnets })

unfoldable pub remove_rt_adj_using_id : Subsys → ℕ → ℕ → Subsys
unfolding take_pointer
remove_rt_adj_using_id s host id =
    let r = s.heap host in
    update s host
      (record r { adjacencies = take_pointer (λ a. (s.heap a).rid == id) r.adjacencies })

-- The walk of remove_from_topo over the network.
unfoldable pub disconnect : Subsys → List ℕ → ℕ → Subsys
unfolding remove_rt_sn_using_id remove_rt_adj_using_id
disconnect s [] id = s
disconnect s (w ∷ ws) id =
    disconnect (remove_rt_adj_using_id (remove_rt_sn_using_id s w id) w id) ws id

-- The memory of the router is freed last; its caller unlinks it from the network.
unfoldable pub remove_from_topo : Subsys → ℕ → Subsys
unfolding disconnect
remove_from_topo s rt =
    disconnect (update s rt (record (s.heap rt) { subnets = [] })) s.network (s.heap rt).rid

-- The loop of check_top_invalid: the network is the part that was passed and the part to come.
unfoldable pub sweep : ℕ → Subsys → List ℕ → List ℕ → Bool → Subsys × Bool
unfolding remove_from_topo
sweep now s passed [] changed = (s, changed)
sweep now s passed (p ∷ ps) changed =
    elim (leb (s.heap p).expired now && not ((s.heap p).rid == (s.heap s.this_router).rid)) [
      | true ↦ sweep now (record (remove_from_topo s p) { network = passed ++ ps }) passed ps true
      | false ↦ sweep now s (passed ++ p ∷ []) ps changed
    ]

-- dijkstra and update_ftable, which always follow a change of the topology.
unfoldable pub recompute : Subsys → Outcome Subsys
recompute s = dijkstra s >>= λ t. update_ftable t >>= λ (u, _). done u

unfoldable pub check_top_invalid : Subsys → ℕ → Outcome Subsys
unfolding sweep recompute
check_top_invalid s now =
    let (t, changed) = sweep now s [] s.network false in if changed then recompute t else done t

-- `realloc(…, 2 * buf_size)` gives that many bytes, not entries, which can also cut entries off. Both
-- show in `overrun`, on which learn_routes gives up.
unfoldable pub add_new_route : Subsys → Route → ℕ → Subsys
add_new_route s current host =
    let r = s.heap host in
    let full = r.subnet_buf_size == length r.subnets in
    let bytes = (if full then 2 * r.subnet_buf_size else r.subnet_bytes) in
    record s {
      heap = put s.heap host (record r {
        subnets = r.subnets ++ current ∷ [];
        subnet_buf_size = if full then 2 * r.subnet_buf_size else r.subnet_buf_size;
        subnet_bytes = bytes;
      });
      overrun = s.overrun || ltb bytes (pointer_size * (length r.subnets + 1));
    }

-- malloc is taken to succeed. The new router goes to the end of the network.
unfoldable pub add_new_router : Subsys → ℕ → ℕ → Subsys × ℕ
add_new_router s now host_rid =
    let p = s.next_address in
    (
      record s {
        heap = put s.heap p (record {
          adjacencies = [];
          adj_buf_size = init_size;
          adj_bytes = init_size * pointer_size;
          subnets = [];
          subnet_buf_size = init_size;
          subnet_bytes = init_size * pointer_size;
          last_seq = 0;
          rid = host_rid;
          expired = now + lifetime;
          known = false;
          dist = none;
          prev = none;
        });
        next_address = p + 1;
        network = s.network ++ p ∷ [];
      },
      p,
    )

-- A pointer is added to an adjacency list unless it has one with the same identifier. A write past
-- the end of the array shows in `overrun`.
unfoldable pub add_adjacency : Subsys → ℕ → ℕ → Subsys
add_adjacency s host con_router =
    if router_has_adjacency s.heap host con_router
    then s
    else (let r = s.heap host in
        let full = r.adj_buf_size == length r.adjacencies in
        let bytes = (if full then 2 * r.adj_buf_size else r.adj_bytes) in
        record s {
          heap = put s.heap host (record r {
            adjacencies = r.adjacencies ++ con_router ∷ [];
            adj_buf_size = if full then 2 * r.adj_buf_size else r.adj_buf_size;
            adj_bytes = bytes;
          });
          overrun = s.overrun || ltb bytes (pointer_size * (length r.adjacencies + 1));
        })
