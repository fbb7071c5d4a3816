-- ===== src/Topology/Learn.antt =====
-- add_to_top and add_to_existing_router of top_info.c: what a link state update changes.
use pwospf.Base.{
  ℕ, zero, suc, ◌+◌, Bool, true, false, ◌&&◌, ◌||◌, not, List, [], ◌∷◌, none, some, ltb, ◌==◌,
  if◌then◌else◌, length, get_elem?, modify, Outcome, done, aborted, out_of_fuel, ◌>>=◌,
}
use pwospf.Topology.{
  Route, Subsys, update, router_contains, router_contains_subnet, sub_in_adv, adj_list_contains,
}
use pwospf.Topology.Edit.{
  remove_subnet_from_router, remove_rt_sn_using_id, remove_rt_adj_using_id, add_new_route,
  add_new_router, add_adjacency, lifetime, recompute,
}

-- `old_sub->r_id = id` through the pointer into the array of the router `host`.
unfoldable pub set_r_id : Subsys → ℕ → ℕ → ℕ → Subsys
set_r_id s host i id =
    let r = s.heap host in
    update s host (record r { subnets = modify r.subnets i (λ x. record x { r_id = id }) })

-- The first part of the loop body: the route goes into the subnets of the router `host`. `true` is
-- the `continue`.
unfoldable pub learn_subnet : Subsys → ℕ → Route → Subsys × Bool
unfolding set_r_id
learn_subnet s host r =
    if router_contains r (s.heap host)
    then (s, false)
    else (elim (router_contains_subnet (s.heap host) r.prefix) [
      | none ↦ (add_new_route s r host, false)
      | some (i, old) ↦
          if not (r.mask == old.mask) && (r.r_id == 0 || old.r_id == 0)
          then (add_new_route s r host, false)
          else (if old.r_id == 0
              then (set_r_id s host i r.r_id, false)
              else (remove_subnet_from_router s host old, true))
    ])

-- The same for the opposite route at the other router, without the test of the masks.
unfoldable pub learn_opposite : Subsys → ℕ → Route → Subsys
unfolding set_r_id
learn_opposite s con_router opp =
    if router_contains opp (s.heap con_router)
    then s
    else (elim (router_contains_subnet (s.heap con_router) opp.prefix) [
      | none ↦ add_new_route s opp con_router
      | some (i, old) ↦
          if old.r_id == 0
          then set_r_id s con_router i opp.r_id
          else remove_subnet_from_router s con_router opp
    ])

-- The router with the identifier, which is made if there is none.
unfoldable pub ensure_router : Subsys → ℕ → ℕ → Subsys × ℕ
ensure_router s now id = elim (adj_list_contains s id) [
  | some p ↦ (s, p)
  | none ↦ add_new_router s now id
]

-- The second part of the loop body, for a route to a router.
unfoldable pub connect : Subsys → ℕ → ℕ → Route → Subsys
unfolding ensure_router learn_opposite
connect s now host r =
    let (t, con_router) = ensure_router s now r.r_id in
    let u = add_adjacency (add_adjacency t host con_router) con_router host in
    learn_opposite u con_router (record r { r_id = (u.heap host).rid })

unfoldable pub learn_route : Subsys → ℕ → ℕ → Route → Subsys
unfolding learn_subnet connect
learn_route s now host r =
    let (t, skip) = learn_subnet s host r in if skip || r.r_id == 0 then t else connect t now host r

-- After a round that wrote past the end of an array, the C code has no defined behaviour.
unfoldable pub learn_routes : Subsys → ℕ → ℕ → List Route → Outcome Subsys
unfolding learn_route
learn_routes s now host [] = done s
learn_routes s now host (r ∷ rs) =
    let t = learn_route s now host r in
    let rest = learn_routes t now host rs in if t.overrun then aborted else rest

unfoldable pub add_to_existing_router : Subsys → ℕ → List Route → ℕ → Outcome Subsys
unfolding learn_routes
add_to_existing_router s now routes host =
    let r = s.heap host in
    learn_routes (update s host (record r { expired = now + lifetime })) now host routes

-- The body of the clean-up for a subnet with identifier `id` that was not advertised. The first
-- subnet of the router `host` with that identifier is the one that goes.
unfoldable pub forget_subnet : Subsys → ℕ → ℕ → ℕ → Subsys
forget_subnet s host host_rid id =
    let nbor = adj_list_contains s id in
    let t = remove_rt_sn_using_id s host id in
    elim nbor [
      | none ↦ t
      | some n ↦
          let u = remove_rt_adj_using_id (remove_rt_sn_using_id t n host_rid) n host_rid in
          remove_rt_adj_using_id u host (u.heap n).rid
    ]

-- The clean-up loop at position `i`, which stays where it is after a removal.
unfoldable pub forget_subnets : ℕ → Subsys → List Route → ℕ → ℕ → ℕ → Outcome Subsys
unfolding forget_subnet
forget_subnets zero s advs host host_rid i = elim (get_elem? (s.heap host).subnets i) [
  | none ↦ done s
  | some x ↦ out_of_fuel
]
forget_subnets (suc fuel) s advs host host_rid i = elim (get_elem? (s.heap host).subnets i) [
  | none ↦ done s
  | some x ↦
      let onward = forget_subnets fuel s advs host host_rid (i + 1) in
      let again = forget_subnets fuel (forget_subnet s host host_rid x.r_id) advs host host_rid i in
      if sub_in_adv advs x then onward else again
]

-- The clean-up, which waits until the topology has had its time to form. Each of its rounds moves
-- on in the array or shortens it.
unfoldable pub clean_up : Subsys → ℕ → ℕ → ℕ → List Route → Outcome Subsys
unfolding forget_subnets
clean_up s now host host_rid advert_routes =
    if ltb s.init_time now
    then forget_subnets (length (s.heap host).subnets) s advert_routes host host_rid 0
    else done s

unfoldable pub add_to_top : Subsys → ℕ → ℕ → List Route → Outcome Subsys
unfolding clean_up
add_to_top s now host_rid advert_routes =
    let (t, host) = ensure_router s now host_rid in
    add_to_existing_router t now advert_routes host >>= λ u.
    clean_up u now host host_rid advert_routes >>= recompute
