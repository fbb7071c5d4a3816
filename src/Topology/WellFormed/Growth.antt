-- ===== src/Topology/WellFormed/Growth.antt =====
-- add_new_router of top_info.c, against the invariant of the topology.
use pwospf.Base.{
  ℕ, ◌+◌, ◌<◌, ◌≡◌, ◌≢◌, ◌⊎◌, inl, inr, refl, sym, ap, subst, ◌∙◌, List, [], ◌∷◌, ◌++◌, false, ◌==◌,
  ==_iff, none, some, In, In-append, In-append_left, Nodup, Nodup-snoc, arith, Bool-cases,
}
use pwospf.Topology.{Router, Heap, put, Subsys, find_rid, has_rid}
use pwospf.Topology.ShortestPath.Correct.{links}
use pwospf.Topology.WellFormed.{IsWellFormed, Shrinks, Shrinks-IsWellFormed}

-- The network of `s` is in that of `t`, where its routers have the same identifiers.
pub record Grows (s t : Subsys) : Type 0 where
  pub here : IsWellFormed t
  pub more : (p : ℕ) → In p s.network → In p t.network
  pub rids : (p : ℕ) → In p s.network → (t.heap p).rid ≡ (s.heap p).rid
  pub this_router : t.this_router ≡ s.this_router

pub Grows-refl : (s : Subsys) → IsWellFormed s → Grows s s
Grows-refl s w = record { here = w; more = λ p i. i; rids = λ p i. refl; this_router = refl }

pub Grows-trans : (s t u : Subsys) → Grows s t → Grows t u → Grows s u
Grows-trans s t u a b = record {
  here = b.here;
  more = λ p i. b.more p (a.more p i);
  rids = λ p i. b.rids p (a.more p i) ∙ a.rids p i;
  this_router = b.this_router ∙ a.this_router;
}

pub Shrinks-Grows : (s t : Subsys) → Shrinks s t → IsWellFormed s → Grows s t
Shrinks-Grows s t c w = record {
  here = Shrinks-IsWellFormed s t c w;
  more = λ p i. rw c.network i;
  rids = λ p i. c.rids p;
  this_router = c.this_router;
}

pub find_rid-some :
    (h : Heap) (ps : List ℕ) (id p : ℕ) → find_rid h ps id ≡ some p → In p ps × ((h p).rid ≡ id)
unfolding find_rid
find_rid-some h [] id p e = absurd (ground (arith, e))
find_rid-some h (x ∷ ps) id p e = elim (Bool-cases ((h x).rid == id)) [
  | inl hit ↦ (inl (ground arith), ground arith)
  | inr miss ↦ let (i, same) = find_rid-some h ps id p (rw (miss, find_rid) at e) in (inr i, same)
]

pub find_rid-none :
    (h : Heap) (ps : List ℕ) (id p : ℕ) → find_rid h ps id ≡ none → In p ps → (h p).rid ≢ id
unfolding find_rid
find_rid-none h [] id p e i = absurd i
find_rid-none h (x ∷ ps) id p e i = elim (Bool-cases ((h x).rid == id)) [
  | inl hit ↦ absurd (ground (arith, e))
  | inr miss ↦ elim i [
    | inl same ↦ λ a. absurd (ground (arith, ap h same))
    | inr j ↦ find_rid-none h ps id p (rw (miss, find_rid) at e) j
  ]
]

pub has_rid-false :
    (h : Heap) (ps : List ℕ) (id p : ℕ) → has_rid h ps id ≡ false → In p ps → (h p).rid ≢ id
unfolding has_rid
has_rid-false h [] id p e i = absurd i
has_rid-false h (x ∷ ps) id p e i = elim (Bool-cases ((h x).rid == id)) [
  | inl hit ↦ absurd (ground (arith, e))
  | inr miss ↦ elim i [
    | inl same ↦ λ a. absurd (ground (arith, ap h same))
    | inr j ↦ has_rid-false h ps id p (rw (miss, has_rid) at e) j
  ]
]

pub put-same : (h : Heap) (p : ℕ) (r : Router) → put h p r p ≡ r
put-same h p r = rw ((==_iff p p).1 refl) refl

put-other : (h : Heap) (p q : ℕ) (r : Router) → q < p → put h p r q ≡ h q
put-other h p q r less = ground arith

-- A router at the next address.
unfoldable pub extend : Subsys → Router → Subsys
extend s r = record s {
  heap = put s.heap s.next_address r;
  next_address = s.next_address + 1;
  network = s.network ++ s.next_address ∷ [];
}

module _ (s : Subsys) (r : Router) (w : IsWellFormed s) (alone : r.adjacencies ≡ [])
    (new : (p : ℕ) → In p s.network → (s.heap p).rid ≢ r.rid) where
  old_heap : (q : ℕ) → In q s.network → (extend s r).heap q ≡ s.heap q
  unfolding extend
  old_heap q i = put-other s.heap s.next_address q r (w.fresh q i)

  new_heap : (extend s r).heap s.next_address ≡ r
  unfolding extend
  new_heap = put-same s.heap s.next_address r

  either : (q : ℕ) → In q (extend s r).network → In q s.network ⊎ (q ≡ s.next_address)
  unfolding extend
  either q i = elim (In-append s.network (s.next_address ∷ []) q i) [
    | inl j ↦ inl j
    | inr (inl same) ↦ inr same
    | inr (inr none_left) ↦ absurd none_left
  ]

  extend_unique :
      (p q : ℕ)
      → In p (extend s r).network
      → In q (extend s r).network
      → ((extend s r).heap p).rid ≡ ((extend s r).heap q).rid
      → p ≡ q
  extend_unique p q i j e = elim (either p i) [
    | inl i' ↦ elim (either q j) [
      | inl j' ↦ w.unique p q i' j' (
          ap (λ (x : Router). x.rid) (sym (old_heap p i'))
          ∙ e
          ∙ ap (λ (x : Router). x.rid) (old_heap q j'))
      | inr n ↦ absurd (
          new p i' (
            ap (λ (x : Router). x.rid) (sym (old_heap p i'))
            ∙ e
            ∙ ap (λ x. ((extend s r).heap x).rid) n
            ∙ ap (λ (x : Router). x.rid) new_heap))
    ]
    | inr m ↦ elim (either q j) [
      | inl j' ↦ absurd (
          new q j' (
            ap (λ (x : Router). x.rid) (sym (old_heap q j'))
            ∙ sym e
            ∙ ap (λ x. ((extend s r).heap x).rid) m
            ∙ ap (λ (x : Router). x.rid) new_heap))
      | inr n ↦ m ∙ sym n
    ]
  ]

  new_links : (p : ℕ) → p ≡ s.next_address → links (extend s r) p ≡ []
  new_links p m = ap (links (extend s r)) m ∙ ap (λ (x : Router). x.adjacencies) new_heap ∙ alone

  extend-IsWellFormed : IsWellFormed (extend s r)
  unfolding extend
  extend-IsWellFormed = record {
    inside = record {
      present = In-append_left s.network (s.next_address ∷ []) s.this_router w.inside.present;
      closed = λ p q i j. elim (either p i) [
        | inl i' ↦
            In-append_left s.network (s.next_address ∷ []) q (
              w.inside.closed p q i' (subst (λ (x : Router). In q x.adjacencies) (old_heap p i') j))
        | inr m ↦ absurd (subst (In q) (new_links p m) j)
      ];
    };
    fresh = λ p i. elim (either p i) [
      | inl i' ↦ omega (arith, w.fresh p i')
      | inr m ↦ omega (arith, m)
    ];
    unique = extend_unique;
    listed =
        Nodup-snoc s.network s.next_address w.listed (λ i. omega (arith, w.fresh s.next_address i));
    distinct = λ p i. elim (either p i) [
      | inl i' ↦ subst (λ (x : Router). Nodup x.adjacencies) (sym (old_heap p i')) (w.distinct p i')
      | inr m ↦ subst Nodup (sym (new_links p m)) tt
    ];
  }

  pub extend-Grows : Grows s (extend s r)
  unfolding extend
  extend-Grows = record {
    here = extend-IsWellFormed;
    more = λ p i. In-append_left s.network (s.next_address ∷ []) p i;
    rids = λ p i. ap (λ (x : Router). x.rid) (old_heap p i);
    this_router = refl;
  }
