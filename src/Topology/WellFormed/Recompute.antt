-- ===== src/Topology/WellFormed/Recompute.antt =====
-- dijkstra with update_ftable, and add_to_top, of top_info.c, against the invariant of the topology.
use pwospf.Base.{
  ℕ, zero, suc, ◌≡◌, ◌≢◌, inl, inr, refl, sym, ap, subst, List, [], ◌∷◌, Bool, true, ◌==◌, ==_iff,
  none, some, if-all, In, Nodup, arith, Bool-cases, Option-cases, Settles, Settles-bind,
  Settles-map, Outcome, done, Any,
}
use pwospf.Topology.{Route, FtableEntry, PwospfIf, Heap, Subsys}
use pwospf.Topology.ShortestPath.{NextHop, itself, unreachable, via, find_next_hop, dijkstra}
use pwospf.Topology.ShortestPath.Correct.{links, dijkstra-IsShortest, IsShortest}
use pwospf.Topology.ShortestPath.Rounds.{Fixed}
use pwospf.Topology.ShortestPath.Invariant.{Walk}
use pwospf.Topology.ShortestPath.Hops.{Walk-zero, find_next_hop_shortest}
use pwospf.Topology.Forwarding.{
  get_subnet_if, fill_from, update_ftable, fill_table, add_all_own, add_own,
}
use pwospf.Topology.Edit.{recompute}
use pwospf.Topology.Learn.{add_to_top, ensure_router, add_to_existing_router}
use pwospf.Topology.WellFormed.{IsWellFormed, Shrinks}
use pwospf.Topology.WellFormed.Cleanup.{clean_up-ends}
use pwospf.Topology.WellFormed.Growth.{Grows, Grows-trans, Shrinks-Grows}
use pwospf.Topology.WellFormed.Learning.{
  ensure_router-Grows, add_to_existing_router-Grows, Knows, Grows-Knows,
}

-- Only the forwarding table changes.
table-Shrinks :
    (s t : Subsys) (f : List FtableEntry) → Shrinks s t → Shrinks s (record t { fwrd_table = f })
table-Shrinks s t f c = record {
  network = c.network;
  next_address = c.next_address;
  this_router = c.this_router;
  rids = c.rids;
  subset = c.subset;
  keeps = c.keeps;
}

dijkstra-Settles : (s : Subsys) → IsWellFormed s → Settles (dijkstra s) (Shrinks s)
dijkstra-Settles s w =
    let (t, ran, frame, _, _) = dijkstra-IsShortest s w.inside in
    rw ran (record {
      network = refl;
      next_address = refl;
      this_router = refl;
      rids = λ p. ap (λ (x : Fixed). x.0) (frame p);
      subset = λ p q i. subst (In q) (ap (λ (x : Fixed). x.2) (frame p)) i;
      keeps = λ p d. subst Nodup (sym (ap (λ (x : Fixed). x.2) (frame p))) d;
    })

find_next_hop_self : (s : Subsys) (p : ℕ) → p ≡ s.this_router → find_next_hop s p ≡ done itself
unfolding find_next_hop
find_next_hop_self s p e =
    rw ((==_iff (s.heap p).rid (s.heap s.this_router).rid).1 (ap (λ x. (s.heap x).rid) e)) refl

-- Every router of the network has its next hop, or has none, after dijkstra.
find_next_hop-Settles :
    (s : Subsys) (h : Heap) (p : ℕ)
    → IsWellFormed s
    → dijkstra s ≡ done (record s { heap = h })
    → ((n : ℕ) → ((h p).dist ≡ some n) → IsShortest (links s) s.this_router p n)
    → (((h p).dist ≡ none) → (m : ℕ) → ¬ Walk (links s) s.this_router p m)
    → In p s.network
    → Settles (find_next_hop (record s { heap = h }) p) Any
find_next_hop-Settles s h p w ran short lost i = elim (Bool-cases (p == s.this_router)) [
  | inl same ↦
      rw (find_next_hop_self (record s { heap = h }) p ((==_iff p s.this_router).0 same)) tt
  | inr other ↦
      let differs : p ≢ s.this_router = λ e. ground (arith, other, e) in
      let finds =
        find_next_hop_shortest s (record s { heap = h }) p w.inside
          (λ q j e. w.unique q s.this_router j w.inside.present e) ran i differs in
      elim (Option-cases (h p).dist) [
        | inl e ↦ rw (finds.1 (lost e)) tt
        | inr (zero, e) ↦ absurd (differs (Walk-zero (short 0 e).0 refl))
        | inr (suc n, e) ↦ let (q, ran', _, _) = finds.0 n (short (suc n) e) in rw ran' tt
      ]
]

add_own-Settles :
    (ifs : List PwospfIf) (t : List FtableEntry) (r : Route) → Settles (add_own ifs t r) Any
unfolding add_own
add_own-Settles ifs t r = elim (Option-cases (get_subnet_if ifs r)) [
  | inl e ↦ rw (e, add_own) tt
  | inr (x, e) ↦ rw (e, add_own) tt
]

add_all_own-Settles :
    (ifs : List PwospfIf) (t : List FtableEntry) (rs : List Route)
    → Settles (add_all_own ifs t rs) Any
unfolding add_all_own
add_all_own-Settles ifs t [] = tt
add_all_own-Settles ifs t (r ∷ rs) =
    Settles-bind Any Any (add_own ifs t r) (λ u. add_all_own ifs u rs) (add_own-Settles ifs t r)
      (λ u _. add_all_own-Settles ifs u rs)

fill_from-Settles :
    (s : Subsys) (t : List FtableEntry) (p : ℕ) (hop : NextHop) → Settles (fill_from s t p hop) Any
unfolding fill_from
fill_from-Settles s t p itself =
    Settles-bind Any Any (add_all_own s.interfaces t (s.heap s.this_router).subnets)
      (λ u. done (u, true)) (add_all_own-Settles s.interfaces t (s.heap s.this_router).subnets)
      (λ u _. tt)
fill_from-Settles s t p unreachable = tt
fill_from-Settles s t p (via q n) = tt

fill_table-Settles :
    (s : Subsys) (t : List FtableEntry) (ps : List ℕ)
    → ((p : ℕ) → In p ps → Settles (find_next_hop s p) Any)
    → Settles (fill_table s t ps) Any
unfolding fill_table
fill_table-Settles s t [] h = tt
fill_table-Settles s t (p ∷ ps) h =
    Settles-bind Any Any (find_next_hop s p) _ (h p (inl refl)) (λ hop _.
      Settles-bind Any Any (fill_from s t p hop) _ (fill_from-Settles s t p hop) (λ (u, onward) _.
        if-all {A = Outcome (List FtableEntry × Bool)} (λ x. Settles x Any) onward
          (fill_table-Settles s u ps (λ q i. h q (inr i))) (tt {0})))

update_ftable-Settles :
    (s t : Subsys)
    → Shrinks s t
    → ((p : ℕ) → In p s.network → Settles (find_next_hop t p) Any)
    → Settles (update_ftable t) (λ x. Shrinks s x.0)
unfolding update_ftable
update_ftable-Settles s t c hops =
    Settles-bind Any (λ x. Shrinks s x.0) (fill_table t [] t.network) _
      (fill_table-Settles t [] t.network (λ p i. hops p (subst (In p) c.network i)))
      (λ (f, _) _. table-Shrinks s t f c)

-- In a well-formed topology recompute never runs out of fuel, and keeps the topology well-formed.
pub recompute-Settles : (s : Subsys) → IsWellFormed s → Settles (recompute s) (Shrinks s)
unfolding recompute
recompute-Settles s w =
    let (h, ran, _, short, lost) = dijkstra-IsShortest s w.inside in
    let t : Subsys = record s { heap = h } in
    let c : Shrinks s t = subst (λ x. Settles x (Shrinks s)) ran (dijkstra-Settles s w) in
    rw ran (
      Settles-bind (λ (x : Subsys × Bool). Shrinks s x.0) (Shrinks s) (update_ftable t) _
        (update_ftable-Settles s t c
          (λ p i. find_next_hop-Settles s h p w ran (λ n. (short p n i).0) (lost p i).0 i))
        (λ x g. g))

-- From a well-formed topology add_to_top ends, unless an interface is missing or an array of subnets or
-- adjacencies is written past its end, in a well-formed topology that has all the routers that were there, and one with the identifier of the update.
pub add_to_top-Settles :
    (s : Subsys) (now id : ℕ) (advs : List Route)
    → IsWellFormed s
    → Settles (add_to_top s now id advs) (λ t. Grows s t × (p : ℕ) × Knows t id p)
unfolding add_to_top
add_to_top-Settles s now id advs w =
    let (g, k) = ensure_router-Grows s now id w in
    let t = (ensure_router s now id).0 in
    let p = (ensure_router s now id).1 in
    Settles-bind (Grows t) (λ x. Grows s x × (q : ℕ) × Knows x id q)
      (add_to_existing_router t now advs p) _ (add_to_existing_router-Grows t now advs p g.here k.0)
      (λ u a.
        let (v, ran, c) = clean_up-ends u now p id advs in
        let b : Grows u v = Shrinks-Grows u v c a.here in
        rw ran (
          Settles-map (Shrinks v) (λ x. Grows s x × (q : ℕ) × Knows x id q) (recompute v)
            (recompute-Settles v b.here)
            (λ x d.
              let e : Grows t x =
                Grows-trans t u x a (Grows-trans u v x b (Shrinks-Grows v x d b.here)) in
              (Grows-trans s t x g e, p, Grows-Knows t x id p e k))))
