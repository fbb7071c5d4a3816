-- ===== src/Topology/ShortestPath/Hops.antt =====
-- find_next_hop of top_info.c, after dijkstra: the first router on a shortest path.
use native.Mathlib.Nat.{add-zero}
use pwospf.Base.{
  ℕ, zero, suc, ◌+◌, ◌<◌, ◌≡◌, ◌≢◌, refl, ap, sym, ◌∙◌, subst, false, List, some, inl, inr, ◌==◌,
  ==_iff, length, In, arith, Bool-cases, done,
}
use pwospf.Topology.{Heap, Subsys}
use pwospf.Topology.ShortestPath.{start_paths, dijkstra, unreachable, via, chase, find_next_hop}
use pwospf.Topology.ShortestPath.Invariant.{Walk, here, step}
use pwospf.Topology.ShortestPath.Visit.{Inv}
use pwospf.Topology.ShortestPath.Rounds.{Fixed, Ends}
use pwospf.Topology.ShortestPath.Correct.{
  IsClosed, links, settled, start-fixed, IsShortest, label_of_shortest, no_label,
}

-- No other router of the network has this router's identifier.
abbrev pub IsUnique : Subsys → Type 0
IsUnique s =
    (p : ℕ) → In p s.network → (s.heap p).rid ≡ (s.heap s.this_router).rid → p ≡ s.this_router

pub Walk-zero : {next : ℕ → List ℕ} {a v n : ℕ} → Walk next a v n → n ≡ 0 → v ≡ a
Walk-zero here z = refl
Walk-zero (step w l) z = absurd (omega arith)

module _ (s : Subsys) (t : Heap) (inv : Inv (links s) s.network s.this_router t) (rid : ℕ)
    (source_rid : (t s.this_router).rid ≡ rid)
    (unique : (p : ℕ) → In p s.network → (t p).rid ≡ rid → p ≡ s.this_router) where
  not_root : (p n : ℕ) → In p s.network → (t p).dist ≡ some (suc n) → ((t p).rid == rid) ≡ false
  not_root p n i e = elim (Bool-cases ((t p).rid == rid)) [
    | inl same ↦
        let root : p ≡ s.this_router = unique p i ((==_iff _ _).0 same) in
        absurd (ground (arith, inv.source, ap (λ x. (t x).dist) root))
    | inr differs ↦ differs
  ]

  chase_lem :
      (fuel n k cur : ℕ)
      → n < fuel
      → In cur s.network
      → (t cur).dist ≡ some (suc n)
      → (q : ℕ) × (chase fuel t rid cur k ≡ done (via q (k + n)))
        × In q (links s s.this_router)
        × Walk (links s) q cur n
  unfolding chase
  chase_lem zero n k cur h i e = absurd (omega arith)
  chase_lem (suc fuel) zero k cur h i e =
      let (p, up, j, _, at, l) = inv.tree cur zero i e in
      let root : p ≡ s.this_router = Walk-zero (inv.sound p 0 j at) refl in
      (
        cur,
        rw (up, chase, ap (λ x. (t x).rid) root, source_rid, (==_iff rid rid).1 refl, add-zero),
        subst (λ x. In cur (links s x)) root l,
        here,
      )
  chase_lem (suc fuel) (suc n) k cur h i e =
      let (p, up, j, _, at, l) = inv.tree cur (suc n) i e in
      let (q, goes, first, walk) = chase_lem fuel n (k + 1) p (omega arith) j at in
      let count : k + 1 + n ≡ k + suc n = omega arith in
      (
        q,
        rw (up, chase, not_root p n j at, goes) (ap (λ m. done (via q m)) count),
        first,
        step walk l,
      )

-- What find_next_hop owes for the router `v` in the state `s'`, by the walks of `s`.
abbrev pub Finds : Subsys → Subsys → ℕ → Type 0
Finds s s' v =
    ((n : ℕ)
      → IsShortest (links s) s.this_router v (suc n)
      → (q : ℕ) × (find_next_hop s' v ≡ done (via q (suc n)))
        × In q (links s s.this_router)
        × Walk (links s) q v n)
    × (((m : ℕ) → ¬ Walk (links s) s.this_router v m) → find_next_hop s' v ≡ done unreachable)

module _ (s : Subsys) (closed : IsClosed s) (unique : IsUnique s) (t : Heap)
    (ends : Ends (links s) s.network s.this_router (length s.network) (start_paths s) t) where
  rid_same : (p : ℕ) → (t p).rid ≡ (s.heap p).rid
  rid_same p = ap (λ (x : Fixed). x.0) (ends.frame p ∙ start-fixed s closed p)

  unique_now : (p : ℕ) → In p s.network → (t p).rid ≡ (t s.this_router).rid → p ≡ s.this_router
  unique_now p i e = unique p i (sym (rid_same p) ∙ e ∙ rid_same s.this_router)

  other_rid :
      (v : ℕ) → In v s.network → v ≢ s.this_router → ((t v).rid == (t s.this_router).rid) ≡ false
  other_rid v i other = elim (Bool-cases ((t v).rid == (t s.this_router).rid)) [
    | inl same ↦ absurd (other (unique_now v i ((==_iff _ _).0 same)))
    | inr differs ↦ differs
  ]

  ended-Finds : (v : ℕ) → In v s.network → v ≢ s.this_router → Finds s (record s { heap = t }) v
  unfolding find_next_hop
  ended-Finds v i other = (
    λ n short.
        let at = label_of_shortest s closed t ends v (suc n) short in
        let (q, goes, first, walk) =
          chase_lem s t ends.inv (t s.this_router).rid refl unique_now (suc (suc n)) n 1 v
            (omega arith) i at in
        let count : 1 + n ≡ suc n = omega arith in
        (q, rw (other_rid v i other, at, goes, count), first, walk),
    λ nowhere.
        let at = no_label s closed t ends v i nowhere in
        rw (other_rid v i other, chase, ends.inv.loose v i at),
  )

-- Let dijkstra have ended where this router is in the network, adjacencies do not lead out of it,
-- and no other router of it has this router's identifier. For another router of the network that a
-- shortest walk of length n + 1 leads to, find_next_hop returns the count n + 1 and an adjacency of
-- this router from which a walk of length n leads there; for one that no walk leads to it returns
-- NULL and -1.
pub find_next_hop_shortest :
    (s s' : Subsys) (v : ℕ)
    → IsClosed s
    → IsUnique s
    → dijkstra s ≡ done s'
    → In v s.network
    → v ≢ s.this_router
    → Finds s s' v
unfolding dijkstra
find_next_hop_shortest s s' v closed unique ran i other =
    let (t, ends) = settled s closed in
    let e : record s { heap = t } ≡ s' = ground (arith, ends.returns) in
    subst (λ x. Finds s x v) e (ended-Finds s closed unique t ends v i other)
