-- ===== src/Topology/ShortestPath/Visit.antt =====
-- One round of dijkstra of top_info.c, against its invariant.
use mathlib.Core.Bool.{false≢true}
use pwospf.Base.{
  ℕ, suc, ◌+◌, ◌≤◌, ◌≡◌, ◌⊎◌, ap, sym, ◌∙◌, subst, true, false, List, [], none, some, inl, inr, In,
  arith, Bool-cases,
}
use pwospf.Topology.{Heap, put}
use pwospf.Topology.ShortestPath.{relax_all, visit}
use pwospf.Topology.ShortestPath.Invariant.{Walk, Mid, relax_all-Mid, put_self, put-other}

module _ (next : ℕ → List ℕ) (network : List ℕ) (src : ℕ) where
  -- Between two rounds: labels are lengths of walks, a known router has relaxed its adjacencies,
  -- no unknown router is nearer than a known one, and each label but that of `src` is one more than
  -- that of a known predecessor.
  pub record Inv (h : Heap) : Type 0 where
    pub adj : (p : ℕ) → (h p).adjacencies ≡ next p
    pub source : (h src).dist ≡ some 0
    pub root : (h src).prev ≡ none
    pub loose : (p : ℕ) → In p network → (h p).dist ≡ none → (h p).prev ≡ none
    pub sound : (p n : ℕ) → In p network → (h p).dist ≡ some n → Walk next src p n
    pub labelled : (p : ℕ) → In p network → (h p).known ≡ true → (n : ℕ) × ((h p).dist ≡ some n)
    pub edge :
        (p v n : ℕ)
        → In p network
        → (h p).known ≡ true
        → (h p).dist ≡ some n
        → In v (next p)
        → (m : ℕ) × ((h v).dist ≡ some m) × (m ≤ n + 1)
    pub order :
        (p v n m : ℕ)
        → In p network
        → In v network
        → (h p).known ≡ true
        → (h v).known ≡ false
        → (h p).dist ≡ some n
        → (h v).dist ≡ some m
        → n ≤ m
    pub tree :
        (p n : ℕ)
        → In p network
        → (h p).dist ≡ some (suc n)
        → (q : ℕ) × ((h p).prev ≡ some q)
          × In q network
          × ((h q).known ≡ true)
          × ((h q).dist ≡ some n)
          × In p (next q)

  Mid-Inv : (u d : ℕ) (h : Heap) → Mid next network src u d h [] → Inv h
  Mid-Inv u d h mid = record {
    adj = mid.adj;
    source = mid.source;
    root = mid.root;
    loose = mid.loose;
    sound = mid.sound;
    labelled = mid.labelled;
    edge = λ p v n i k e l. elim (mid.edge p v n i k e l) [
      | inl r ↦ r
      | inr (_, no_more) ↦ absurd no_more
    ];
    order = mid.order;
    tree = mid.tree;
  }

  module _ (h : Heap) (inv : Inv h) (u d : ℕ) (i : In u network) (fresh : (h u).known ≡ false)
      (at : (h u).dist ≡ some d)
      (least : (v m : ℕ) → In v network → (h v).known ≡ false → (h v).dist ≡ some m → d ≤ m)
      (h' : Heap) (new : h' u ≡ record (h u) { known = true })
      (other : (p : ℕ) → (u ≡ p) ⊎ (h' p ≡ h p)) where
    open inv use {adj, source, root, loose, sound, labelled, edge, order, tree}

    same_dist : (p : ℕ) → (h' p).dist ≡ (h p).dist
    same_dist p = elim (other p) [ inl same ↦ rw (← same) (rw new) | inr rest ↦ rw rest ]

    same_prev : (p : ℕ) → (h' p).prev ≡ (h p).prev
    same_prev p = elim (other p) [ inl same ↦ rw (← same) (rw new) | inr rest ↦ rw rest ]

    same_adj : (p : ℕ) → (h' p).adjacencies ≡ (h p).adjacencies
    same_adj p = elim (other p) [ inl same ↦ rw (← same) (rw new) | inr rest ↦ rw rest ]

    still : (p : ℕ) → (h p).known ≡ true → (h' p).known ≡ true
    still p k = elim (other p) [ inl same ↦ rw (← same) (rw new) | inr rest ↦ rw rest k ]

    before : (p : ℕ) → (h' p).known ≡ true → (u ≡ p) ⊎ ((h p).known ≡ true)
    before p k = elim (other p) [ inl same ↦ inl same | inr rest ↦ inr (rw rest at k) ]

    unknown : (p : ℕ) → (h' p).known ≡ false → (h p).known ≡ false
    unknown p f = elim (Bool-cases (h p).known) [
      | inl k ↦ absurd (false≢true (sym f ∙ still p k))
      | inr g ↦ g
    ]

    u_label : (n : ℕ) (p : ℕ) → u ≡ p → (h p).dist ≡ some n → n ≡ d
    u_label n p same e = ground (arith, ap (λ x. (h x).dist) same)

    marked : Mid next network src u d h' (next u)
    marked = record {
      adj = λ p. same_adj p ∙ adj p;
      source = same_dist src ∙ source;
      root = same_prev src ∙ root;
      loose = λ p j e. same_prev p ∙ loose p j (sym (same_dist p) ∙ e);
      sound = λ p n j e. sound p n j (sym (same_dist p) ∙ e);
      labelled = λ p j k. elim (before p k) [
        | inl same ↦ (d, same_dist p ∙ subst (λ x. (h x).dist ≡ some d) same at)
        | inr k' ↦ let (n, e) = labelled p j k' in (n, same_dist p ∙ e)
      ];
      edge = λ p v n j k e l. elim (before p k) [
        | inl same ↦ inr (sym same, subst (λ x. In v (next x)) (sym same) l)
        | inr k' ↦
            let (m, e', low) = edge p v n j k' (sym (same_dist p) ∙ e) l in
            inl (m, same_dist v ∙ e', low)
      ];
      order = λ p v n m j j' k f e g.
          let e' : (h p).dist ≡ some n = sym (same_dist p) ∙ e in
          let g' : (h v).dist ≡ some m = sym (same_dist v) ∙ g in
          elim (before p k) [
            | inl same ↦ omega (arith, u_label n p same e', least v m j' (unknown v f) g')
            | inr k' ↦ order p v n m j j' k' (unknown v f) e' g'
          ];
      tree = λ p n j e.
          let (q, up, jq, k, e', l) = tree p n j (sym (same_dist p) ∙ e) in
          (q, same_prev p ∙ up, jq, still q k, same_dist q ∙ e', l);
      top = λ p n j k e.
          let e' : (h p).dist ≡ some n = sym (same_dist p) ∙ e in
          elim (before p k) [
            | inl same ↦ omega (arith, u_label n p same e')
            | inr k' ↦ order p u n d j i k' fresh e' at
          ];
      member = i;
      current = rw new;
      here_at = same_dist u ∙ at;
    }

  -- One round of the outer loop.
  pub visit-Inv :
      (h : Heap) (u d : ℕ)
      → ((p q : ℕ) → In p network → In q (next p) → In q network)
      → Inv h
      → In u network
      → (h u).known ≡ false
      → (h u).dist ≡ some d
      → ((v m : ℕ) → In v network → (h v).known ≡ false → (h v).dist ≡ some m → d ≤ m)
      → Inv (visit h u d)
  unfolding visit
  visit-Inv h u d inside inv i fresh at least =
      let h' = put h u (record (h u) { known = true }) in
      subst (λ l. Inv (relax_all u d h' l)) (sym (inv.adj u))
        (Mid-Inv u d _ (
          relax_all-Mid next network src u d h' (next u)
            (marked h inv u d i fresh at least h' (put_self h u _) (put-other h u _))
            (λ w l. (inside u w i l, l))))
