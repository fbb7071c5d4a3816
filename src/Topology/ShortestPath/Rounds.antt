-- ===== src/Topology/ShortestPath/Rounds.antt =====
-- The rounds of dijkstra of top_info.c: what they change, and their number.
use pwospf.Base.{
  ℕ, zero, suc, ◌≤◌, ◌<◌, ◌≡◌, refl, ap, ◌∙◌, true, false, List, [], ◌∷◌, none, some, inl, inr,
  ◌==◌, if◌then◌else◌, length, In, arith, Option-cases, done,
}
use pwospf.Topology.{Route, Router, Heap, put}
use pwospf.Topology.ShortestPath.{relax, relax_all, visit, get_smallest_unknown, search_paths}
use pwospf.Topology.ShortestPath.Smallest.{get_smallest_unknown-some, get_smallest_unknown-none}
use pwospf.Topology.ShortestPath.Visit.{Inv, visit-Inv}

-- All fields of a router, apart from the three that the algorithm uses.
abbrev pub Fixed : Type 0
Fixed = ℕ × List Route × List ℕ × ℕ × ℕ × ℕ × ℕ × ℕ × ℕ

abbrev pub fixed : Router → Fixed
fixed r = (
  r.rid, r.subnets, r.adjacencies, r.last_seq, r.expired, r.adj_buf_size, r.adj_bytes,
  r.subnet_buf_size, r.subnet_bytes,
)

relax-fixed : (u d : ℕ) (h : Heap) (w p : ℕ) → fixed (relax u d h w p) ≡ fixed (h p)
unfolding relax
relax-fixed u d h w p = ground (arith, ap h {x = w} {y = p})

relax-known : (u d : ℕ) (h : Heap) (w p : ℕ) → (relax u d h w p).known ≡ (h p).known
unfolding relax
relax-known u d h w p = ground (arith, ap h {x = w} {y = p})

relax_all-fixed :
    (u d : ℕ) (h : Heap) (ws : List ℕ) (p : ℕ) → fixed (relax_all u d h ws p) ≡ fixed (h p)
unfolding relax_all
relax_all-fixed u d h [] p = refl
relax_all-fixed u d h (w ∷ ws) p = relax_all-fixed u d (relax u d h w) ws p ∙ relax-fixed u d h w p

relax_all-known :
    (u d : ℕ) (h : Heap) (ws : List ℕ) (p : ℕ) → (relax_all u d h ws p).known ≡ (h p).known
unfolding relax_all
relax_all-known u d h [] p = refl
relax_all-known u d h (w ∷ ws) p = relax_all-known u d (relax u d h w) ws p ∙ relax-known u d h w p

visit-fixed : (u d : ℕ) (h : Heap) (p : ℕ) → fixed (visit h u d p) ≡ fixed (h p)
unfolding visit
visit-fixed u d h p =
    relax_all-fixed u d (put h u (record (h u) { known = true })) (h u).adjacencies p
    ∙ ground (arith, ap h {x = u} {y = p})

visit-known :
    (u d : ℕ) (h : Heap) (p : ℕ) → (visit h u d p).known ≡ (if u == p then true else (h p).known)
unfolding visit
visit-known u d h p =
    relax_all-known u d (put h u (record (h u) { known = true })) (h u).adjacencies p
    ∙ ground (arith, ap h {x = u} {y = p})

-- The routers that are still unknown.
pub unknowns : Heap → List ℕ → ℕ
unknowns h [] = 0
unknowns h (p ∷ ps) = if (h p).known then unknowns h ps else suc (unknowns h ps)

pub unknowns-le : (h : Heap) (ps : List ℕ) → unknowns h ps ≤ length ps
unfolding unknowns
unknowns-le h [] = omega arith
unknowns-le h (p ∷ ps) = ground (arith, unknowns-le h ps)

unknowns-visit-le : (u d : ℕ) (h : Heap) (ps : List ℕ) → unknowns (visit h u d) ps ≤ unknowns h ps
unfolding unknowns
unknowns-visit-le u d h [] = omega arith
unknowns-visit-le u d h (p ∷ ps) = ground (arith, visit-known u d h p, unknowns-visit-le u d h ps)

unknowns-visit :
    (u d : ℕ) (h : Heap) (ps : List ℕ)
    → In u ps
    → (h u).known ≡ false
    → unknowns (visit h u d) ps < unknowns h ps
unfolding unknowns
unknowns-visit u d h [] i fresh = absurd i
unknowns-visit u d h (p ∷ ps) (inl same) fresh =
    ground (arith, visit-known u d h p, unknowns-visit-le u d h ps, ap (λ x. (h x).known) same)
unknowns-visit u d h (p ∷ ps) (inr later) fresh =
    ground (arith, visit-known u d h p, unknowns-visit u d h ps later fresh)

-- The search from `h` ends in `t`: the invariant holds, each reached router is known, and all else
-- is as it was.
pub record Ends (next : ℕ → List ℕ) (network : List ℕ) (src fuel : ℕ) (h t : Heap) : Type 0 where
  pub returns : search_paths fuel network h ≡ done t
  pub inv : Inv next network src t
  pub settled : (v m : ℕ) → In v network → (t v).dist ≡ some m → (t v).known ≡ true
  pub frame : (p : ℕ) → fixed (t p) ≡ fixed (h p)

module _ (next : ℕ → List ℕ) (network : List ℕ) (src : ℕ)
    (inside : (p q : ℕ) → In p network → In q (next p) → In q network) where
  round-Inv :
      (h : Heap) (d u : ℕ)
      → Inv next network src h
      → get_smallest_unknown h network ≡ some (d, u)
      → Inv next network src (visit h u d) × (unknowns (visit h u d) network < unknowns h network)
  round-Inv h d u inv found =
      let (i, fresh, at, least) = get_smallest_unknown-some h network d u found in
      (
        visit-Inv next network src h u d inside inv i fresh at least,
        unknowns-visit u d h network i fresh,
      )

  stop-Ends :
      (fuel : ℕ) (h : Heap)
      → Inv next network src h
      → get_smallest_unknown h network ≡ none
      → Ends next network src fuel h h
  unfolding search_paths
  stop-Ends zero h inv e = record {
    returns = rw (e, search_paths);
    inv = inv;
    settled = get_smallest_unknown-none h network e;
    frame = λ p. refl;
  }
  stop-Ends (suc fuel) h inv e = record {
    returns = rw (e, search_paths);
    inv = inv;
    settled = get_smallest_unknown-none h network e;
    frame = λ p. refl;
  }

  pub search-Ends :
      (fuel : ℕ) (h : Heap)
      → Inv next network src h
      → unknowns h network ≤ fuel
      → (t : Heap) × Ends next network src fuel h t
  unfolding search_paths
  search-Ends zero h inv left = elim (Option-cases (get_smallest_unknown h network)) [
    | inl nothing ↦ (h, stop-Ends zero h inv nothing)
    | inr ((d, u), found) ↦ absurd (omega (arith, (round-Inv h d u inv found).1))
  ]
  search-Ends (suc fuel) h inv left = elim (Option-cases (get_smallest_unknown h network)) [
    | inl nothing ↦ (h, stop-Ends (suc fuel) h inv nothing)
    | inr ((d, u), found) ↦
        let (inv', fewer) = round-Inv h d u inv found in
        let (t, rest) = search-Ends fuel (visit h u d) inv' (omega arith) in
        (
          t,
          record {
            returns = rw (found, search_paths) rest.returns;
            inv = rest.inv;
            settled = rest.settled;
            frame = λ p. rest.frame p ∙ visit-fixed u d h p;
          },
        )
  ]
