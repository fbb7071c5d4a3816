-- ===== src/Topology/WellFormed/Interfaces.antt =====
-- The assertion of update_ftable of top_info.c, for the callers of it.
use mathlib.Core.Option
use pwospf.Base.{
  ℕ, zero, suc, ◌+◌, ◌≡◌, inl, inr, refl, sym, ap, subst, ◌∙◌, List, [], ◌∷◌, ◌++◌, Bool, true,
  false, not, ◌&&◌, ◌==◌, is_some, if-all, In, fill-In, arith, Bool-cases, Option-cases, Settles,
  Outcome, done, aborted, out_of_fuel, ◌>>=◌, leb,
}
use pwospf.Topology.{Route, Router, FtableEntry, PwospfIf, Heap, Subsys, update}
use pwospf.Topology.ShortestPath.Rounds.{Fixed}
use pwospf.Topology.ShortestPath.{NextHop, itself, unreachable, via, chase, find_next_hop}
use pwospf.Topology.ShortestPath.Correct.{dijkstra-IsShortest}
use pwospf.Topology.Forwarding.{
  get_subnet_if, add_own, add_all_own, fill_from, fill_table, update_ftable,
}
use pwospf.Topology.Edit.{
  take_route, remove_rt_sn_using_id, remove_rt_adj_using_id, disconnect, remove_from_topo, sweep,
  recompute, check_top_invalid,
}
use pwospf.Topology.WellFormed.{IsWellFormed, put-all}
use pwospf.Topology.WellFormed.Sweep.{Kept, sweep-Swept, check_top_invalid-Settles}

-- No assertion fails.
abbrev pub Safe : {A : Type 0} → Outcome A → Type 0
Safe (done a) = Unit
Safe aborted = ⊥
Safe out_of_fuel = Unit

Safe-bind :
    {A B : Type 0} (x : Outcome A) (f : A → Outcome B)
    → Safe x
    → ((a : A) → Safe (f a))
    → Safe (x >>= f)
Safe-bind (done a) f e g = g a
Safe-bind aborted f e g = e
Safe-bind out_of_fuel f e g = tt

pub Safe-returns :
    {A : Type 0} (P : A → Type 0) (x : Outcome A)
    → Safe x
    → Settles x P
    → (a : A) × (x ≡ done a) × P a
Safe-returns P (done a) safe e = (a, refl, e)
Safe-returns P aborted safe e = absurd safe
Safe-returns P out_of_fuel safe e = absurd e

chase-Safe : (fuel : ℕ) (h : Heap) (rid cur n : ℕ) → Safe (chase fuel h rid cur n)
unfolding chase
chase-Safe zero h rid cur n = tt
chase-Safe (suc fuel) h rid cur n = elim (Option-cases (h cur).prev) [
  | inl e ↦ rw (e, chase) tt
  | inr (q, e) ↦
      rw (e, chase)
        (if-all {A = Outcome NextHop} Safe ((h q).rid == rid) tt (chase-Safe fuel h rid q (n + 1)))
]

find_next_hop-Safe : (s : Subsys) (p : ℕ) → Safe (find_next_hop s p)
unfolding find_next_hop
find_next_hop-Safe s p =
    if-all {A = Outcome NextHop} Safe ((s.heap p).rid == (s.heap s.this_router).rid) tt
      (chase-Safe (suc (Option.get_or (s.heap p).dist 0)) s.heap (s.heap s.this_router).rid p 1)

-- Each of the subnets has an interface.
abbrev pub HasInterfaces : List PwospfIf → List Route → Type 0
HasInterfaces ifs rs = (r : Route) → In r rs → is_some (get_subnet_if ifs r) ≡ true

add_own-Safe :
    (ifs : List PwospfIf) (t : List FtableEntry) (r : Route)
    → is_some (get_subnet_if ifs r) ≡ true
    → Safe (add_own ifs t r)
unfolding add_own
add_own-Safe ifs t r h = elim (Option-cases (get_subnet_if ifs r)) [
  | inl e ↦ absurd (ground (arith, h, e))
  | inr (i, e) ↦ rw (e, add_own) tt
]

add_all_own-Safe :
    (ifs : List PwospfIf) (t : List FtableEntry) (rs : List Route)
    → HasInterfaces ifs rs
    → Safe (add_all_own ifs t rs)
unfolding add_all_own
add_all_own-Safe ifs t [] h = tt
add_all_own-Safe ifs t (r ∷ rs) h =
    Safe-bind (add_own ifs t r) (λ u. add_all_own ifs u rs) (add_own-Safe ifs t r (h r (inl refl)))
      (λ u. add_all_own-Safe ifs u rs (λ x i. h x (inr i)))

module _ (s : Subsys) (h : HasInterfaces s.interfaces (s.heap s.this_router).subnets) where
  fill_from-Safe : (t : List FtableEntry) (p : ℕ) (hop : NextHop) → Safe (fill_from s t p hop)
  unfolding fill_from
  fill_from-Safe t p itself =
      Safe-bind (add_all_own s.interfaces t (s.heap s.this_router).subnets) (λ u. done (u, true))
        (add_all_own-Safe s.interfaces t (s.heap s.this_router).subnets h) (λ u. tt)
  fill_from-Safe t p unreachable = tt
  fill_from-Safe t p (via q n) = tt

  fill_table-Safe : (t : List FtableEntry) (ps : List ℕ) → Safe (fill_table s t ps)
  unfolding fill_table
  fill_table-Safe t [] = tt
  fill_table-Safe t (p ∷ ps) = Safe-bind (find_next_hop s p) _ (find_next_hop-Safe s p) (λ hop.
      Safe-bind (fill_from s t p hop) _ (fill_from-Safe t p hop) (λ (u, onward).
        if-all {A = Outcome (List FtableEntry × Bool)} Safe onward (fill_table-Safe u ps) (tt {0})))

  update_ftable-Safe : Safe (update_ftable s)
  unfolding update_ftable
  update_ftable-Safe =
      Safe-bind (fill_table s [] s.network) _ (fill_table-Safe [] s.network) (λ x. tt)

pub recompute-Safe :
    (s : Subsys)
    → IsWellFormed s
    → HasInterfaces s.interfaces (s.heap s.this_router).subnets
    → Safe (recompute s)
unfolding recompute
recompute-Safe s w h =
    let (t, ran, frame, _, _) = dijkstra-IsShortest s w.inside in
    let same = ap (λ (x : Fixed). x.1) (frame s.this_router) in
    rw ran (
      Safe-bind (update_ftable (record s { heap = t })) _
        (update_ftable-Safe (record s { heap = t })
          (subst (HasInterfaces s.interfaces) (sym same) h))
        (λ x. tt))

take_route-In : (p : Route → Bool) (rs : List Route) (z : Route) → In z (take_route p rs) → In z rs
unfolding take_route
take_route-In p [] z i = i
take_route-In p (r ∷ rs) z i = elim (Bool-cases (p r)) [
  | inl hit ↦ inr (fill-In rs z (rw (hit, take_route) at i))
  | inr miss ↦
      let j : In z (r ∷ take_route p rs) = rw (miss, take_route) at i in
      elim j [ inl same ↦ inl same | inr k ↦ inr (take_route-In p rs z k) ]
]

-- The subnets that a removal leaves were there before, and the interfaces are the same.
abbrev Fewer : Subsys → Subsys → Type 0
Fewer s t =
    (t.interfaces ≡ s.interfaces)
    × ((p : ℕ) (r : Route) → In r (t.heap p).subnets → In r (s.heap p).subnets)

Fewer-trans : (s t u : Subsys) → Fewer s t → Fewer t u → Fewer s u
Fewer-trans s t u a b = (b.0 ∙ a.0, λ p r i. a.1 p r (b.1 p r i))

update-Fewer :
    (s : Subsys) (p : ℕ) (x : Router)
    → ((r : Route) → In r x.subnets → In r (s.heap p).subnets)
    → Fewer s (update s p x)
update-Fewer s p x h = (
  refl,
  put-all (λ q (y : Router). (r : Route) → In r y.subnets → In r (s.heap q).subnets) s.heap p x h
      (λ q r i. i),
)

disconnect-Fewer : (s : Subsys) (ws : List ℕ) (id : ℕ) → Fewer s (disconnect s ws id)
unfolding disconnect remove_rt_sn_using_id remove_rt_adj_using_id
disconnect-Fewer s [] id = (refl, λ p r i. i)
disconnect-Fewer s (w ∷ ws) id =
    let t = remove_rt_sn_using_id s w id in
    let u = remove_rt_adj_using_id t w id in
    let v = disconnect u ws id in
    Fewer-trans s t v (update-Fewer s w _ (take_route-In (λ x. x.r_id == id) (s.heap w).subnets))
      (Fewer-trans t u v (update-Fewer t w _ (λ r i. i)) (disconnect-Fewer u ws id))

remove-Fewer : (s : Subsys) (p : ℕ) → Fewer s (remove_from_topo s p)
unfolding remove_from_topo
remove-Fewer s p =
    let t = update s p (record (s.heap p) { subnets = [] }) in
    Fewer-trans s t (disconnect t s.network (s.heap p).rid)
      (update-Fewer s p (record (s.heap p) { subnets = [] }) (λ r i. absurd i))
      (disconnect-Fewer t s.network (s.heap p).rid)

sweep-Fewer : (now : ℕ) (s : Subsys) (xs ps : List ℕ) (b : Bool) → Fewer s (sweep now s xs ps b).0
unfolding sweep
sweep-Fewer now s xs [] b = (refl, λ p r i. i)
sweep-Fewer now s xs (p ∷ ps) b =
    elim (Bool-cases
      (leb (s.heap p).expired now && not ((s.heap p).rid == (s.heap s.this_router).rid))) [
        | inl out ↦
            let u : Subsys = record (remove_from_topo s p) { network = xs ++ ps } in
            rw (out, sweep)
              (Fewer-trans s u (sweep now u xs ps true).0 (remove-Fewer s p)
                (sweep-Fewer now u xs ps true))
        | inr stays ↦ rw (stays, sweep) (sweep-Fewer now s (xs ++ p ∷ []) ps b)
      ]

-- Where the topology is well-formed and each subnet of this router is the subnet of an interface,
-- check_top_invalid returns, and its result has exactly the routers that have not expired, and this
-- router, in a well-formed topology.
pub check_top_invalid-Kept :
    (s : Subsys) (now : ℕ)
    → IsWellFormed s
    → HasInterfaces s.interfaces (s.heap s.this_router).subnets
    → (t : Subsys) × (check_top_invalid s now ≡ done t) × Kept s now t
unfolding check_top_invalid
check_top_invalid-Kept s now w h =
    let t = (sweep now s [] s.network false).0 in
    let (wt, this, _) = sweep-Swept now s [] s.network false w refl in
    let (ifs, fewer) = sweep-Fewer now s [] s.network false in
    let h' : HasInterfaces t.interfaces (t.heap t.this_router).subnets =
      λ r i. rw ifs (h r (fewer s.this_router r (subst (λ q. In r (t.heap q).subnets) this i))) in
    Safe-returns (Kept s now) (check_top_invalid s now)
      (if-all {A = Outcome Subsys} Safe (sweep now s [] s.network false).1 (recompute-Safe t wt h')
        tt)
      (check_top_invalid-Settles s now w)
