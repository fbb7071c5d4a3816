-- ===== src/Topology/WellFormed/Learning.antt =====
-- add_to_existing_router of top_info.c, against the invariant of the topology.
use pwospf.Base.{
  ℕ, ◌+◌, ◌≡◌, inl, inr, refl, sym, ap, subst, ◌∙◌, List, [], ◌∷◌, ◌++◌, Bool, ◌||◌, ◌==◌, if-all,
  In, In-append, In-middle, Nodup, Nodup-snoc, Bool-cases, Option-cases, Settles, Settles-map,
  Outcome,
}
use pwospf.Topology.{Route, Router, put, Subsys, update, adj_list_contains, router_has_adjacency}
use pwospf.Topology.ShortestPath.Correct.{links}
use pwospf.Topology.Edit.{add_new_router, add_adjacency, lifetime}
use pwospf.Topology.Learn.{
  ensure_router, connect, learn_route, learn_routes, add_to_existing_router, learn_subnet,
}
use pwospf.Topology.WellFormed.{IsWellFormed, put-all, update-Shrinks}
use pwospf.Topology.WellFormed.Removal.{learn_subnet-Shrinks, learn_opposite-Shrinks}
use pwospf.Topology.WellFormed.Growth.{
  Grows, Grows-refl, Grows-trans, Shrinks-Grows, extend, extend-Grows, find_rid-some, find_rid-none,
  has_rid-false, put-same,
}

module _ (s : Subsys) (p q : ℕ) (w : IsWellFormed s) (i : In p s.network) (j : In q s.network) where
  -- An adjacency between two routers of the network.
  attach-Grows :
      (r : Router) (b : Bool)
      → r.rid ≡ (s.heap p).rid
      → r.adjacencies ≡ links s p ++ q ∷ []
      → ¬ In q (links s p)
      → Grows s (record s { heap = put s.heap p r; overrun = b })
  attach-Grows r b same adj new =
      let rids : (x : ℕ) → (put s.heap p r x).rid ≡ (s.heap x).rid =
        put-all (λ x (y : Router). y.rid ≡ (s.heap x).rid) s.heap p r same (λ x. refl) in
      record {
        here = record {
          inside = record {
            present = w.inside.present;
            closed =
                put-all
                  (λ x (y : Router). (v : ℕ) → In x s.network → In v y.adjacencies → In v s.network)
                  s.heap p r
                  (λ v k l. elim (In-append (links s p) (q ∷ []) v (subst (In v) adj l)) [
                    | inl m ↦ w.inside.closed p v i m
                    | inr (inl e) ↦ subst (λ x. In x s.network) (sym e) j
                    | inr (inr none_left) ↦ absurd none_left
                  ])
                  (λ x v k l. w.inside.closed x v k l);
          };
          fresh = w.fresh;
          unique = λ x y k l e. w.unique x y k l (sym (rids x) ∙ e ∙ rids y);
          listed = w.listed;
          distinct =
              put-all (λ x (y : Router). In x s.network → Nodup y.adjacencies) s.heap p r
                (λ k. subst Nodup (sym adj) (Nodup-snoc (links s p) q (w.distinct p i) new))
                (λ x k. w.distinct x k);
        };
        more = λ x k. k;
        rids = λ x k. rids x;
        this_router = refl;
      }

  add_adjacency-Grows : Grows s (add_adjacency s p q)
  unfolding add_adjacency router_has_adjacency
  add_adjacency-Grows = elim (Bool-cases (router_has_adjacency s.heap p q)) [
    | inl has ↦ rw (has, add_adjacency) (Grows-refl s w)
    | inr new ↦
        rw (new, add_adjacency)
          (attach-Grows _ _ refl refl
            (λ k. has_rid-false s.heap (links s p) (s.heap q).rid q new k refl))
  ]

-- A router of the network with an identifier.
abbrev pub Knows : Subsys → ℕ → ℕ → Type 0
Knows s id p = In p s.network × ((s.heap p).rid ≡ id)

pub Grows-Knows : (s t : Subsys) (id p : ℕ) → Grows s t → Knows s id p → Knows t id p
Grows-Knows s t id p g (i, e) = (g.more p i, g.rids p i ∙ e)

pub ensure_router-Grows :
    (s : Subsys) (now id : ℕ)
    → IsWellFormed s
    → Grows s (ensure_router s now id).0
      × Knows (ensure_router s now id).0 id (ensure_router s now id).1
unfolding ensure_router adj_list_contains add_new_router extend
ensure_router-Grows s now id w = elim (Option-cases (adj_list_contains s id)) [
  | inl e ↦
      rw (e, ensure_router)
        (
          extend-Grows s _ w refl (λ p i. find_rid-none s.heap s.network id p e i),
          (
            In-middle s.network s.next_address [],
            ap (λ (x : Router). x.rid) (put-same s.heap s.next_address _),
          ),
        )
  | inr (p, e) ↦ rw (e, ensure_router) (Grows-refl s w, find_rid-some s.heap s.network id p e)
]

connect-Grows :
    (s : Subsys) (now host : ℕ) (r : Route)
    → IsWellFormed s
    → In host s.network
    → Grows s (connect s now host r)
unfolding connect
connect-Grows s now host r w i =
    let (g, k) = ensure_router-Grows s now r.r_id w in
    let t = (ensure_router s now r.r_id).0 in
    let q = (ensure_router s now r.r_id).1 in
    let u = add_adjacency t host q in
    let v = add_adjacency u q host in
    let a : Grows t u = add_adjacency-Grows t host q g.here (g.more host i) k.0 in
    let b : Grows u v =
      add_adjacency-Grows u q host a.here (a.more q k.0) (a.more host (g.more host i)) in
    Grows-trans s t _ g (
      Grows-trans t u _ a
        (Grows-trans u v _ b (Shrinks-Grows v _ (learn_opposite-Shrinks v q _) b.here)))

learn_route-Grows :
    (s : Subsys) (now host : ℕ) (r : Route)
    → IsWellFormed s
    → In host s.network
    → Grows s (learn_route s now host r)
unfolding learn_route
learn_route-Grows s now host r w i =
    let t = (learn_subnet s host r).0 in
    let g : Grows s t = Shrinks-Grows s t (learn_subnet-Shrinks s host r) w in
    if-all (Grows s) ((learn_subnet s host r).1 || r.r_id == 0) g
      (Grows-trans s t _ g (connect-Grows t now host r g.here (g.more host i)))

learn_routes-Grows :
    (s : Subsys) (now host : ℕ) (rs : List Route)
    → IsWellFormed s
    → In host s.network
    → Settles (learn_routes s now host rs) (Grows s)
unfolding learn_routes
learn_routes-Grows s now host [] w i = Grows-refl s w
learn_routes-Grows s now host (r ∷ rs) w i =
    let t = learn_route s now host r in
    let g = learn_route-Grows s now host r w i in
    if-all {A = Outcome Subsys} (λ x. Settles x (Grows s)) t.overrun (tt {0})
      (Settles-map (Grows t) (Grows s) (learn_routes t now host rs)
        (learn_routes-Grows t now host rs g.here (g.more host i)) (λ u h. Grows-trans s t u g h))

-- add_to_existing_router keeps the topology well-formed and all its routers, whatever routes the
-- update has, unless it writes past the end of an array.
pub add_to_existing_router-Grows :
    (s : Subsys) (now : ℕ) (rs : List Route) (host : ℕ)
    → IsWellFormed s
    → In host s.network
    → Settles (add_to_existing_router s now rs host) (Grows s)
unfolding add_to_existing_router
add_to_existing_router-Grows s now rs host w i =
    let r : Router = record (s.heap host) { expired = now + lifetime } in
    let t = update s host r in
    let g : Grows s t = Shrinks-Grows s t (update-Shrinks s host r refl (λ q k. k) (λ d. d)) w in
    Settles-map (Grows t) (Grows s) (learn_routes t now host rs)
      (learn_routes-Grows t now host rs g.here (g.more host i)) (λ u h. Grows-trans s t u g h)
