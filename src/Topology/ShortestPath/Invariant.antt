-- ===== src/Topology/ShortestPath/Invariant.antt =====
-- The invariant of dijkstra of top_info.c over the routers of the network, and one visit.
use pwospf.Base.{
  ℕ, zero, suc, ◌+◌, ◌≤◌, ◌≡◌, ◌⊎◌, refl, ap, sym, ◌∙◌, true, false, List, [], ◌∷◌, none, some, inl,
  inr, ◌==◌, ==_iff, In, arith, Bool-cases, Option-cases,
}
use mathlib.Core.Bool.{false≢true}
use pwospf.Topology.{Router, Heap, put}
use pwospf.Topology.ShortestPath.{closer, relax, relax_all}

-- The walks from `src` along adjacencies, by length.
pub data Walk (next : ℕ → List ℕ) (src : ℕ) : ℕ → ℕ → Type 0 where
  here : Walk next src src zero
  step : {u v n : ℕ} → Walk next src u n → In v (next u) → Walk next src v (suc n)

pub put_self : (h : Heap) (p : ℕ) (r : Router) → put h p r p ≡ r
put_self h p r = rw ((==_iff p p).1 refl)

pub put-other : (h : Heap) (p : ℕ) (r : Router) (q : ℕ) → (p ≡ q) ⊎ (put h p r q ≡ h q)
put-other h p r q = elim (Bool-cases (p == q)) [
  | inl same ↦ inl ((==_iff p q).0 same)
  | inr differs ↦ inr (rw differs)
]

relax-near :
    (u d w : ℕ) (h : Heap)
    → (h w).known ≡ false
    → closer (d + 1) (h w).dist ≡ true
    → relax u d h w ≡ put h w (record (h w) { dist = some (d + 1); prev = some u })
unfolding relax
relax-near u d w h fresh near = simp (fresh, near)

relax-far :
    (u d w : ℕ) (h : Heap)
    → (h w).known ≡ false
    → closer (d + 1) (h w).dist ≡ false
    → (m : ℕ) × (relax u d h w ≡ h) × ((h w).dist ≡ some m) × (m ≤ d + 1)
unfolding relax
relax-far u d w h fresh far = elim (Option-cases (h w).dist) [
  | inl nowhere ↦ absurd (ground arith)
  | inr (m, at) ↦ (m, simp (fresh, far), at, ground arith)
]

module _ (next : ℕ → List ℕ) (network : List ℕ) (src : ℕ) where
  -- In the midst of a visit of `u` at distance `d`, the adjacencies `todo` are still to be relaxed.
  pub record Mid (u d : ℕ) (h : Heap) (todo : List ℕ) : Type 0 where
    pub adj : (p : ℕ) → (h p).adjacencies ≡ next p
    pub source : (h src).dist ≡ some 0
    pub root : (h src).prev ≡ none
    pub loose : (p : ℕ) → In p network → (h p).dist ≡ none → (h p).prev ≡ none
    pub sound : (p n : ℕ) → In p network → (h p).dist ≡ some n → Walk next src p n
    pub labelled : (p : ℕ) → In p network → (h p).known ≡ true → (n : ℕ) × ((h p).dist ≡ some n)
    pub edge :
        (p v n : ℕ)
        → In p network
        → (h p).known ≡ true
        → (h p).dist ≡ some n
        → In v (next p)
        → ((m : ℕ) × ((h v).dist ≡ some m) × (m ≤ n + 1)) ⊎ ((p ≡ u) × In v todo)
    pub order :
        (p v n m : ℕ)
        → In p network
        → In v network
        → (h p).known ≡ true
        → (h v).known ≡ false
        → (h p).dist ≡ some n
        → (h v).dist ≡ some m
        → n ≤ m
    pub tree :
        (p n : ℕ)
        → In p network
        → (h p).dist ≡ some (suc n)
        → (q : ℕ) × ((h p).prev ≡ some q)
          × In q network
          × ((h q).known ≡ true)
          × ((h q).dist ≡ some n)
          × In p (next q)
    pub top : (p n : ℕ) → In p network → (h p).known ≡ true → (h p).dist ≡ some n → n ≤ d
    pub member : In u network
    pub current : (h u).known ≡ true
    pub here_at : (h u).dist ≡ some d

  module _ (u d w : ℕ) (h : Heap) (ws : List ℕ) (mid : Mid u d h (w ∷ ws)) (inside : In w network)
      (linked : In w (next u)) where
    open mid use {
      adj, source, root, loose, sound, labelled, edge, order, tree, top, member, current, here_at,
    }

    -- Nothing changes, and the edge to `w` needs no care any more.
    kept : (m : ℕ) → (h w).dist ≡ some m → m ≤ d + 1 → Mid u d h ws
    kept m at low = record {
      adj = adj;
      source = source;
      root = root;
      loose = loose;
      sound = sound;
      labelled = labelled;
      edge = λ p v n i k e l. elim (edge p v n i k e l) [
        | inl reached ↦ inl reached
        | inr (same, inl new) ↦ inl (m, rw new at, ground (arith, ap (λ x. (h x).dist) same))
        | inr (same, inr later) ↦ inr (same, later)
      ];
      order = order;
      tree = tree;
      top = top;
      member = member;
      current = current;
      here_at = here_at;
    }

    module _ (fresh : (h w).known ≡ false) (near : closer (d + 1) (h w).dist ≡ true) (h' : Heap)
        (new : h' w ≡ record (h w) { dist = some (d + 1); prev = some u })
        (other : (p : ℕ) → (w ≡ p) ⊎ (h' p ≡ h p)) where
      unchanged : (p : ℕ) → (h p).known ≡ true → h' p ≡ h p
      unchanged p k = elim (other p) [
        | inl same ↦ absurd (false≢true (sym fresh ∙ ap (λ x. (h x).known) same ∙ k))
        | inr rest ↦ rest
      ]

      known-same : (p : ℕ) → (h' p).known ≡ (h p).known
      known-same p = elim (other p) [ inl same ↦ rw (← same) (rw new) | inr rest ↦ rw rest ]

      dist-case :
          (p n : ℕ)
          → (h' p).dist ≡ some n
          → ((w ≡ p) × (n ≡ d + 1)) ⊎ ((h' p ≡ h p) × ((h p).dist ≡ some n))
      dist-case p n e = elim (other p) [
        | inl same ↦ inl (same, ground (arith, new, ap (λ x. (h' x).dist) same))
        | inr rest ↦ inr (rest, ground arith)
      ]

      reached-low :
          (v n : ℕ)
          → (m : ℕ) × ((h v).dist ≡ some m) × (m ≤ n + 1)
          → (m : ℕ) × ((h' v).dist ≡ some m) × (m ≤ n + 1)
      reached-low v n (m, at, low) = elim (other v) [
        | inl same ↦ (d + 1, rw (← same) (rw new), ground (arith, ap (λ x. (h x).dist) same))
        | inr rest ↦ (m, rw rest at, low)
      ]

      source-same : h' src ≡ h src
      source-same = elim (other src) [
        | inl same ↦ absurd (ground (arith, ap (λ x. (h x).dist) same))
        | inr rest ↦ rest
      ]

      new_parent :
          (p n : ℕ)
          → w ≡ p
          → suc n ≡ d + 1
          → (q : ℕ) × ((h' p).prev ≡ some q)
            × In q network
            × ((h' q).known ≡ true)
            × ((h' q).dist ≡ some n)
            × In p (next q)
      new_parent p n same far =
          let e : n ≡ d = omega arith in
          (
            u,
            rw (← same) (rw new),
            member,
            rw (unchanged u current) current,
            rw e (rw (unchanged u current) here_at),
            rw (← same) linked,
          )

      lowered : Mid u d h' ws
      lowered = record {
        adj = λ p. elim (other p) [
          | inl same ↦ rw (← same) (rw new (adj w))
          | inr rest ↦ rw rest (adj p)
        ];
        source = rw source-same source;
        root = rw source-same root;
        loose = λ p i e. elim (other p) [
          | inl same ↦ absurd (ground (arith, new, ap (λ x. (h' x).dist) same))
          | inr rest ↦ rw rest (loose p i (rw rest at e))
        ];
        sound = λ p n i e. elim (dist-case p n e) [
          | inl (same, far) ↦
              let e' : n ≡ suc d = omega arith in
              rw (e', ← same) (step (sound u d member here_at) linked)
          | inr (_, old) ↦ sound p n i old
        ];
        labelled = λ p i k.
            let k' : (h p).known ≡ true = sym (known-same p) ∙ k in
            rw (unchanged p k') (labelled p i k');
        edge = λ p v n i k e l.
            let k' : (h p).known ≡ true = sym (known-same p) ∙ k in
            elim (edge p v n i k' (rw (unchanged p k') at e) l) [
              | inl reached ↦ inl (reached-low v n reached)
              | inr (same, inl this) ↦ inl (
                d + 1,
                rw this (rw new),
                ground (arith, ap (λ x. (h x).dist) same, rw (unchanged p k') at e),
              )
              | inr (same, inr later) ↦ inr (same, later)
            ];
        order = λ p v n m i j k f e g.
            let k' : (h p).known ≡ true = sym (known-same p) ∙ k in
            let e' : (h p).dist ≡ some n = rw (unchanged p k') at e in
            elim (dist-case v m g) [
              | inl (same, far) ↦ omega (arith, top p n i k' e')
              | inr (_, old) ↦ order p v n m i j k' (sym (known-same v) ∙ f) e' old
            ];
        tree = λ p n i e. elim (dist-case p (suc n) e) [
          | inl (same, far) ↦ new_parent p n same far
          | inr (rest, old) ↦
              let (q, up, at, k, far, l) = tree p n i old in
              (q, rw rest up, at, rw (unchanged q k) k, rw (unchanged q k) far, l)
        ];
        top = λ p n i k e.
            let k' : (h p).known ≡ true = sym (known-same p) ∙ k in
            top p n i k' (rw (unchanged p k') at e);
        member = member;
        current = rw (unchanged u current) current;
        here_at = rw (unchanged u current) here_at;
      }

  -- One adjacency is relaxed.
  relax-Mid :
      (u d w : ℕ) (h : Heap) (ws : List ℕ)
      → Mid u d h (w ∷ ws)
      → In w network
      → In w (next u)
      → Mid u d (relax u d h w) ws
  unfolding relax
  relax-Mid u d w h ws mid inside linked = elim (Bool-cases (h w).known) [
    | inl k ↦
        let (m, at) = mid.labelled w inside k in
        rw k (kept u d w h ws mid inside linked m at (omega (arith, mid.top w m inside k at)))
    | inr fresh ↦ elim (Bool-cases (closer (d + 1) (h w).dist)) [
      | inl near ↦
          rw (relax-near u d w h fresh near)
            (lowered u d w h ws mid inside linked fresh near _ (put_self h w _) (put-other h w _))
      | inr far ↦
          let (m, same, at, low) = relax-far u d w h fresh far in
          rw same (kept u d w h ws mid inside linked m at low)
    ]
  ]

  pub relax_all-Mid :
      (u d : ℕ) (h : Heap) (ws : List ℕ)
      → Mid u d h ws
      → ((w : ℕ) → In w ws → In w network × In w (next u))
      → Mid u d (relax_all u d h ws) []
  unfolding relax_all
  relax_all-Mid u d h [] mid inside = mid
  relax_all-Mid u d h (w ∷ ws) mid inside =
      let (i, l) = inside w (inl refl) in
      relax_all-Mid u d (relax u d h w) ws (relax-Mid u d w h ws mid i l)
        (λ x at. inside x (inr at))
