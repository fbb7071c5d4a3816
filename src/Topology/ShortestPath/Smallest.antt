-- ===== src/Topology/ShortestPath/Smallest.antt =====
-- get_smallest_unknown of top_info.c: which router it picks.
use mathlib.Core.Option
use pwospf.Base.{
  ℕ, ◌≤◌, ◌≡◌, ◌⊎◌, refl, sym, ◌∙◌, subst, true, false, List, [], ◌∷◌, Option, none, some, inl, inr,
  ltb, if◌then◌else◌, In, arith, Bool-cases, Option-cases,
}
use pwospf.Topology.{Heap}
use pwospf.Topology.ShortestPath.{closer, smallest, get_smallest_unknown}

-- The router `v` does not beat the best so far.
abbrev pub AtMost : Heap → Option (ℕ × ℕ) → ℕ → Type 0
AtMost h best v =
    (m : ℕ) → (h v).known ≡ false → (h v).dist ≡ some m → (b : ℕ × ℕ) × (best ≡ some b) × (b.0 ≤ m)

abbrev pub Candidate : Heap → List ℕ → Option (ℕ × ℕ) → Type 0
Candidate h all best =
    (b : ℕ × ℕ) → best ≡ some b → In b.1 all × ((h b.1).known ≡ false) × ((h b.1).dist ≡ some b.0)

-- What the best so far becomes at a router.
better : Heap → ℕ → Option (ℕ × ℕ) → Option (ℕ × ℕ)
better h p best = if (h p).known then best else (elim (h p).dist [
  | none ↦ best
  | some d ↦ if closer d (Option.map (λ b. b.0) best) then some (d, p) else best
])

better-cases :
    (h : Heap) (p : ℕ) (best : Option (ℕ × ℕ))
    → ((better h p best ≡ best) × AtMost h best p)
      ⊎ ((d : ℕ) × (better h p best ≡ some (d, p))
          × ((h p).known ≡ false)
          × ((h p).dist ≡ some d)
          × ((b : ℕ × ℕ) → best ≡ some b → d ≤ b.0))
unfolding better
better-cases h p best = elim (Bool-cases (h p).known) [
  | inl k ↦ inl (simp k, λ m f e. absurd (ground arith))
  | inr fresh ↦ elim (Option-cases (h p).dist) [
    | inl nowhere ↦ inl (simp (fresh, nowhere), λ m f e. absurd (ground arith))
    | inr (d, at) ↦ elim (Option-cases best) [
      | inl first ↦ inr (d, simp (fresh, at, first), fresh, at, λ b e. absurd (ground arith))
      | inr (b, old) ↦ elim (Bool-cases (ltb d b.0)) [
        | inl low ↦ inr (d, simp (fresh, at, old, low), fresh, at, λ b' e. ground arith)
        | inr high ↦ inl (simp (fresh, at, old, high), λ m f e. (b, old, ground arith))
      ]
    ]
  ]
]

AtMost-better :
    (h : Heap) (p v : ℕ) (best : Option (ℕ × ℕ)) → AtMost h best v → AtMost h (better h p best) v
AtMost-better h p v best a = elim (better-cases h p best) [
  | inl (same, _) ↦ rw same a
  | inr (d, new, _, _, low) ↦
      λ m f e. let (b, old, le) = a m f e in ((d, p), new, omega (arith, low b old))
]

AtMost-better_self : (h : Heap) (p : ℕ) (best : Option (ℕ × ℕ)) → AtMost h (better h p best) p
AtMost-better_self h p best = elim (better-cases h p best) [
  | inl (same, a) ↦ rw same a
  | inr (d, new, fresh, at, low) ↦ λ m f e. ((d, p), new, ground arith)
]

Candidate-better :
    (h : Heap) (all : List ℕ) (p : ℕ) (best : Option (ℕ × ℕ))
    → In p all
    → Candidate h all best
    → Candidate h all (better h p best)
Candidate-better h all p best i c = elim (better-cases h p best) [
  | inl (same, _) ↦ rw same c
  | inr (d, new, fresh, at, low) ↦ λ b e.
      let same : ◌≡◌ {A = ℕ × ℕ} (d, p) b = ground (arith, sym new ∙ e) in
      subst (λ x. In x.1 all × ((h x.1).known ≡ false) × ((h x.1).dist ≡ some x.0)) same
        (i, fresh, at)
]

smallest-lem :
    (h : Heap) (all ps : List ℕ) (best : Option (ℕ × ℕ))
    → ((v : ℕ) → In v ps → In v all)
    → Candidate h all best
    → Candidate h all (smallest h ps best)
      × ((v : ℕ) → In v ps ⊎ AtMost h best v → AtMost h (smallest h ps best) v)
unfolding smallest better
smallest-lem h all [] best inside c = (c, λ v. elim [ inl i ↦ absurd i | inr a ↦ a ])
smallest-lem h all (p ∷ ps) best inside c =
    let (c', least) =
      smallest-lem h all ps (better h p best) (λ v i. inside v (inr i))
        (Candidate-better h all p best (inside p (inl refl)) c) in
    (
      c',
      λ v. elim [
        | inl (inl same) ↦ least v (inr (rw same (AtMost-better_self h p best)))
        | inl (inr later) ↦ least v (inl later)
        | inr a ↦ least v (inr (AtMost-better h p v best a))
      ],
    )

-- The router found is one of the network, unknown and reached, and no unknown router is nearer.
pub get_smallest_unknown-some :
    (h : Heap) (all : List ℕ) (d u : ℕ)
    → get_smallest_unknown h all ≡ some (d, u)
    → In u all
      × ((h u).known ≡ false)
      × ((h u).dist ≡ some d)
      × ((v m : ℕ) → In v all → (h v).known ≡ false → (h v).dist ≡ some m → d ≤ m)
unfolding get_smallest_unknown
get_smallest_unknown-some h all d u found =
    let (c, least) = smallest-lem h all all none (λ v i. i) (λ b e. absurd (ground arith)) in
    let (i, fresh, at) = c (d, u) found in
    (i, fresh, at, λ v m j f e. let (b, same, low) = least v (inl j) m f e in ground arith)

-- If none is found, no unknown router of the network is reached.
pub get_smallest_unknown-none :
    (h : Heap) (all : List ℕ)
    → get_smallest_unknown h all ≡ none
    → (v m : ℕ) → In v all
    → (h v).dist ≡ some m
    → (h v).known ≡ true
unfolding get_smallest_unknown
get_smallest_unknown-none h all nothing v m j e = elim (Bool-cases (h v).known) [
  | inl k ↦ k
  | inr fresh ↦
      let (c, least) = smallest-lem h all all none (λ v i. i) (λ b e. absurd (ground arith)) in
      let (b, same, low) = least v (inl j) m fresh e in absurd (ground arith)
]
