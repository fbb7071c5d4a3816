-- ===== src/Topology/ShortestPath/Correct.antt =====
-- dijkstra of top_info.c, against the walks along adjacencies.
use mathlib.Core.Bool.{false≢true}
use pwospf.Base.{
  ℕ, suc, ◌≤◌, ◌≡◌, ◌↔◌, ◌⊎◌, refl, ap, sym, ◌∙◌, false, List, [], ◌∷◌, none, some, inl, inr,
  length, In, arith, Option-cases, done,
}
use pwospf.Topology.{Router, Heap, put, Subsys}
use pwospf.Topology.ShortestPath.{reset, start_paths, dijkstra}
use pwospf.Topology.ShortestPath.Invariant.{Walk, here, step}
use pwospf.Topology.ShortestPath.Visit.{Inv}
use pwospf.Topology.ShortestPath.Rounds.{Fixed, fixed, unknowns-le, Ends, search-Ends}

-- The adjacencies of the routers.
abbrev pub links : Subsys → ℕ → List ℕ
links s p = (s.heap p).adjacencies

-- This router is in the network, and the adjacencies of the routers of the network lead to routers
-- of the network.
pub record IsClosed (s : Subsys) : Type 0 where
  pub present : In s.this_router s.network
  pub closed : (p q : ℕ) → In p s.network → In q (links s p) → In q s.network

reset-fixed : (h : Heap) (ps : List ℕ) (p : ℕ) → fixed (reset h ps p) ≡ fixed (h p)
unfolding reset
reset-fixed h [] p = refl
reset-fixed h (x ∷ ps) p =
    reset-fixed (put h x (record (h x) { known = false; dist = none; prev = none })) ps p
    ∙ ground (arith, ap h {x = x} {y = p})

-- Once blank, a router stays so.
abbrev Blank : Router → Type 0
Blank r = (r.known ≡ false) × (r.dist ≡ none) × (r.prev ≡ none)

reset-keeps : (h : Heap) (ps : List ℕ) (p : ℕ) → Blank (h p) → Blank (reset h ps p)
unfolding reset
reset-keeps h [] p b = b
reset-keeps h (x ∷ ps) p b =
    reset-keeps (put h x (record (h x) { known = false; dist = none; prev = none })) ps p
      (ground arith)

reset-Blank : (h : Heap) (ps : List ℕ) (p : ℕ) → In p ps → Blank (reset h ps p)
unfolding reset
reset-Blank h [] p i = absurd i
reset-Blank h (x ∷ ps) p (inl same) =
    reset-keeps (put h x (record (h x) { known = false; dist = none; prev = none })) ps p
      (ground arith)
reset-Blank h (x ∷ ps) p (inr i) =
    reset-Blank (put h x (record (h x) { known = false; dist = none; prev = none })) ps p i

module _ (s : Subsys) (closed : IsClosed s) where
  abbrev pub src : ℕ
  src = s.this_router

  start-label :
      (p : ℕ)
      → In p s.network
      → ((src ≡ p)
          × ((start_paths s p).dist ≡ some 0)
          × ((start_paths s p).prev ≡ none)
          × ((start_paths s p).known ≡ false))
        ⊎ ((start_paths s p).dist ≡ none)
          × ((start_paths s p).prev ≡ none)
          × ((start_paths s p).known ≡ false)
  unfolding start_paths
  start-label p i =
      ground
        (arith, reset-Blank s.heap s.network p i, reset-Blank s.heap s.network src closed.present)

  pub start-fixed : (p : ℕ) → fixed (start_paths s p) ≡ fixed (s.heap p)
  unfolding start_paths
  start-fixed p = ground (arith, reset-fixed s.heap s.network p, reset-fixed s.heap s.network src)

  start-source : ((start_paths s src).dist ≡ some 0) × ((start_paths s src).prev ≡ none)
  unfolding start_paths
  start-source = ground (arith, reset-Blank s.heap s.network src closed.present)

  zero_label : (p n : ℕ) → In p s.network → (start_paths s p).dist ≡ some n → (src ≡ p) × (n ≡ 0)
  zero_label p n i e = ground (arith, start-label p i)

  start-unknown : (p : ℕ) → In p s.network → (start_paths s p).known ≡ false
  start-unknown p i = ground (arith, start-label p i)

  start-Inv : Inv (links s) s.network src (start_paths s)
  start-Inv = record {
    adj = λ p. ap (λ (x : Fixed). x.2) (start-fixed p);
    source = start-source.0;
    root = start-source.1;
    loose = λ p i e. ground (arith, start-label p i);
    sound = λ p n i e. let (same, none_yet) = zero_label p n i e in rw (← same, none_yet) here;
    labelled = λ p i k. absurd (false≢true (sym (start-unknown p i) ∙ k));
    edge = λ p v n i k e l. absurd (false≢true (sym (start-unknown p i) ∙ k));
    order = λ p v n m i j k f e g. absurd (false≢true (sym (start-unknown p i) ∙ k));
    tree = λ p n i e. absurd (omega (arith, (zero_label p (suc n) i e).1));
  }

  -- The search from the start, and what it ends in.
  pub settled : (t : Heap) × Ends (links s) s.network src (length s.network) (start_paths s) t
  settled =
      search-Ends (links s) s.network src closed.closed (length s.network) (start_paths s) start-Inv
        (unknowns-le (start_paths s) s.network)

  -- At the end a walk is never shorter than the label of its end.
  pub reach-low :
      (t : Heap)
      → Ends (links s) s.network src (length s.network) (start_paths s) t
      → {v m : ℕ} → Walk (links s) src v m
      → In v s.network × (n : ℕ) × ((t v).dist ≡ some n) × (n ≤ m)
  reach-low t ends here = (closed.present, 0, ends.inv.source, omega arith)
  reach-low t ends (step {u} {v} {n = k} walk l) =
      let (i, n, at, low) = reach-low t ends walk in
      let (m, at', low') = ends.inv.edge u v n i (ends.settled u n i at) at l in
      (closed.closed u v i l, m, at', omega arith)

-- `n` is the length of a shortest walk from `src` to `v`.
abbrev pub IsShortest : (ℕ → List ℕ) → ℕ → ℕ → ℕ → Type 0
IsShortest next src v n = Walk next src v n × ((m : ℕ) → Walk next src v m → n ≤ m)

module _ (s : Subsys) (closed : IsClosed s) (t : Heap)
    (ends : Ends (links s) s.network s.this_router (length s.network) (start_paths s) t) where
  pub label_of_shortest : (v n : ℕ) → IsShortest (links s) s.this_router v n → (t v).dist ≡ some n
  label_of_shortest v n short =
      let (i, k, at, low) = reach-low s closed t ends short.0 in
      let e : k ≡ n = omega (arith, short.1 k (ends.inv.sound v k i at)) in rw (← e) at

  pub no_label :
      (v : ℕ) → In v s.network → ((m : ℕ) → ¬ Walk (links s) s.this_router v m) → (t v).dist ≡ none
  no_label v i nowhere = elim (Option-cases (t v).dist) [
    | inl e ↦ e
    | inr (n, at) ↦ absurd (nowhere n (ends.inv.sound v n i at))
  ]

-- Where this router is in the network and adjacencies do not lead out of it, dijkstra ends. It
-- changes nothing but `known`, `dist` and `prev` of routers; and for each router of the network the
-- label is n exactly when n is the length of a shortest walk along adjacencies from this router,
-- and none exactly when there is no such walk.
pub dijkstra-IsShortest :
    (s : Subsys)
    → IsClosed s
    → (t : Heap) × (dijkstra s ≡ done (record s { heap = t }))
      × ((p : ℕ) → fixed (t p) ≡ fixed (s.heap p))
      × ((v n : ℕ)
          → In v s.network
          → ((t v).dist ≡ some n) ↔ IsShortest (links s) s.this_router v n)
      × ((v : ℕ)
          → In v s.network
          → ((t v).dist ≡ none) ↔ ((m : ℕ) → ¬ Walk (links s) s.this_router v m))
unfolding dijkstra
dijkstra-IsShortest s closed =
    let (t, ends) = settled s closed in
    (
      t,
      rw ends.returns,
      λ p. ends.frame p ∙ start-fixed s closed p,
      λ v n i. (
        λ e. (ends.inv.sound v n i e, λ m walk. ground (arith, reach-low s closed t ends walk)),
        label_of_shortest s closed t ends v n,
      ),
      λ v i. (
        λ e m walk. ground (arith, reach-low s closed t ends walk),
        no_label s closed t ends v i,
      ),
    )
