-- ===== src/Topology/WellFormed.antt =====
-- The invariant of the topology of top_info.c, and the relation of a state to one with less.
pub mod Learning
pub mod Recompute
pub mod Interfaces
pub mod Removal
pub mod Cleanup
pub mod Expiry
pub mod Growth
pub mod Sweep
use pwospf.Base.{
  ℕ, ◌+◌, ◌≤◌, ◌<◌, ◌≡◌, ◌≢◌, ◌⊎◌, inl, inr, refl, sym, ap, subst, ◌∙◌, List, [], ◌∷◌, ◌++◌, Bool,
  true, false, ◌==◌, if◌then◌else◌, In, Nodup, fill-In, fill-Nodup, arith, Bool-cases, ==_iff,
}
use pwospf.Topology.{Router, Heap, put, Subsys, update}
use pwospf.Topology.ShortestPath.Correct.{IsClosed, links}

-- This router is in the network, and adjacencies do not lead out of it; the network has no router
-- twice, and no two with the same identifier; no adjacency stands twice; and the address of the
-- next router is not in use.
pub record IsWellFormed (s : Subsys) : Type 0 where
  pub inside : IsClosed s
  pub fresh : (p : ℕ) → In p s.network → p < s.next_address
  pub unique : (p q : ℕ) → In p s.network → In q s.network → (s.heap p).rid ≡ (s.heap q).rid → p ≡ q
  pub listed : Nodup s.network
  pub distinct : (p : ℕ) → In p s.network → Nodup (links s p)

-- `t` has the routers of `s`, with fewer adjacencies or the same.
pub record Shrinks (s t : Subsys) : Type 0 where
  pub network : t.network ≡ s.network
  pub next_address : t.next_address ≡ s.next_address
  pub this_router : t.this_router ≡ s.this_router
  pub rids : (p : ℕ) → (t.heap p).rid ≡ (s.heap p).rid
  pub subset : (p q : ℕ) → In q (links t p) → In q (links s p)
  pub keeps : (p : ℕ) → Nodup (links s p) → Nodup (links t p)

pub Shrinks-refl : (s : Subsys) → Shrinks s s
Shrinks-refl s = record {
  network = refl;
  next_address = refl;
  this_router = refl;
  rids = λ p. refl;
  subset = λ p q i. i;
  keeps = λ p d. d;
}

pub Shrinks-trans : (s t u : Subsys) → Shrinks s t → Shrinks t u → Shrinks s u
Shrinks-trans s t u a b = record {
  network = b.network ∙ a.network;
  next_address = b.next_address ∙ a.next_address;
  this_router = b.this_router ∙ a.this_router;
  rids = λ p. b.rids p ∙ a.rids p;
  subset = λ p q i. a.subset p q (b.subset p q i);
  keeps = λ p d. b.keeps p (a.keeps p d);
}

pub Shrinks-IsWellFormed : (s t : Subsys) → Shrinks s t → IsWellFormed s → IsWellFormed t
Shrinks-IsWellFormed s t c w =
    let back : (p : ℕ) → In p t.network → In p s.network = λ p i. subst (In p) c.network i in
    record {
      inside = record {
        present = rw (c.network, c.this_router) w.inside.present;
        closed = λ p q i j. rw c.network (w.inside.closed p q (back p i) (c.subset p q j));
      };
      fresh = λ p i. rw c.next_address (w.fresh p (back p i));
      unique = λ p q i j e. w.unique p q (back p i) (back q j) (sym (c.rids p) ∙ e ∙ c.rids q);
      listed = rw c.network w.listed;
      distinct = λ p i. c.keeps p (w.distinct p (back p i));
    }

-- What holds of the new router and of all the old ones holds after the change.
pub put-all :
    (P : ℕ → Router → Type 0) (h : Heap) (p : ℕ) (r : Router)
    → P p r
    → ((q : ℕ) → P q (h q))
    → (q : ℕ) → P q (put h p r q)
put-all P h p r new old q = elim (Bool-cases (p == q)) [
  | inl same ↦ rw same (subst (λ x. P x r) ((==_iff p q).0 same) new)
  | inr differs ↦ rw differs (old q)
]

-- A change to the one router `p` that keeps its identifier and adds no adjacency.
pub update-Shrinks :
    (s : Subsys) (p : ℕ) (r : Router)
    → r.rid ≡ (s.heap p).rid
    → ((q : ℕ) → In q r.adjacencies → In q (links s p))
    → (Nodup (links s p) → Nodup r.adjacencies)
    → Shrinks s (update s p r)
update-Shrinks s p r e sub nodup = record {
  network = refl;
  next_address = refl;
  this_router = refl;
  rids = put-all (λ q x. x.rid ≡ (s.heap q).rid) s.heap p r e (λ q. refl);
  subset =
      put-all (λ q x. (v : ℕ) → In v x.adjacencies → In v (links s q)) s.heap p r sub (λ q v i. i);
  keeps = put-all (λ q x. Nodup (links s q) → Nodup x.adjacencies) s.heap p r nodup (λ q d. d);
}
