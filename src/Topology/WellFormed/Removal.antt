-- ===== src/Topology/WellFormed/Removal.antt =====
-- The removals of top_info.c, and its changes to subnets, against the invariant of the topology.
use pwospf.Base.{
  ℕ, ◌≡◌, inl, inr, refl, ap, List, [], ◌∷◌, Bool, true, not, ◌&&◌, ◌||◌, ◌==◌, if-all, In, Nodup,
  fill-In, fill-Nodup, arith, Bool-cases, Option-cases,
}
use pwospf.Topology.{Route, Subsys, adj_list_contains, router_contains, router_contains_subnet}
use pwospf.Topology.ShortestPath.Correct.{links}
use pwospf.Topology.Edit.{
  take_pointer, remove_subnet_from_router, remove_rt_sn_using_id, remove_rt_adj_using_id,
  disconnect, add_new_route,
}
use pwospf.Topology.Learn.{set_r_id, learn_subnet, learn_opposite, forget_subnet}
use pwospf.Topology.WellFormed.{Shrinks, Shrinks-refl, Shrinks-trans, update-Shrinks}

pub take_pointer-In : (p : ℕ → Bool) (l : List ℕ) (z : ℕ) → In z (take_pointer p l) → In z l
unfolding take_pointer
take_pointer-In p [] z i = i
take_pointer-In p (a ∷ rest) z i = elim (Bool-cases (p a)) [
  | inl hit ↦ inr (fill-In rest z (rw (hit, take_pointer) at i))
  | inr miss ↦
      let j : In z (a ∷ take_pointer p rest) = rw (miss, take_pointer) at i in
      elim j [ inl same ↦ inl same | inr k ↦ inr (take_pointer-In p rest z k) ]
]

pub take_pointer-Nodup : (p : ℕ → Bool) (l : List ℕ) → Nodup l → Nodup (take_pointer p l)
unfolding take_pointer
take_pointer-Nodup p [] d = tt
take_pointer-Nodup p (a ∷ rest) d = elim (Bool-cases (p a)) [
  | inl hit ↦ rw (hit, take_pointer) (fill-Nodup rest d.1)
  | inr miss ↦
      rw (miss, take_pointer) (λ i. d.0 (take_pointer-In p rest a i), take_pointer-Nodup p rest d.1)
]

-- The pointer that alone passes the test is gone.
pub take_pointer-gone :
    (p : ℕ → Bool) (l : List ℕ) (a : ℕ)
    → Nodup l
    → p a ≡ true
    → ((x : ℕ) → In x l → p x ≡ true → x ≡ a)
    → ¬ In a (take_pointer p l)
unfolding take_pointer
take_pointer-gone p [] a d hit only i = i
take_pointer-gone p (x ∷ rest) a d hit only i = elim (Bool-cases (p x)) [
  | inl here ↦ d.0 (rw (only x (inl refl) here) (fill-In rest a (rw (here, take_pointer) at i)))
  | inr miss ↦
      let j : In a (x ∷ take_pointer p rest) = rw (miss, take_pointer) at i in
      elim j [
        | inl same ↦ absurd (ground (arith, hit, miss, ap p same))
        | inr k ↦ take_pointer-gone p rest a d.1 hit (λ y m. only y (inr m)) k
      ]
]

pub sn-Shrinks : (s : Subsys) (rt id : ℕ) → Shrinks s (remove_rt_sn_using_id s rt id)
unfolding remove_rt_sn_using_id
sn-Shrinks s rt id = update-Shrinks s rt _ refl (λ q i. i) (λ d. d)

pub adj-Shrinks : (s : Subsys) (host id : ℕ) → Shrinks s (remove_rt_adj_using_id s host id)
unfolding remove_rt_adj_using_id
adj-Shrinks s host id =
    update-Shrinks s host _ refl (take_pointer-In (λ a. (s.heap a).rid == id) (links s host))
      (take_pointer-Nodup (λ a. (s.heap a).rid == id) (links s host))

subnet-Shrinks : (s : Subsys) (rt : ℕ) (r : Route) → Shrinks s (remove_subnet_from_router s rt r)
unfolding remove_subnet_from_router
subnet-Shrinks s rt r =
    let p : ℕ → Bool = λ a. r.r_id == (s.heap a).rid in
    update-Shrinks s rt _ refl
      (λ q.
        if-all {A = List ℕ} (λ l. In q l → In q (links s rt)) (r.r_id == 0) (λ i. i)
          (take_pointer-In p (links s rt) q))
      (if-all {A = List ℕ} (λ l. Nodup (links s rt) → Nodup l) (r.r_id == 0) (λ d. d)
        (take_pointer-Nodup p (links s rt)))

overrun-Shrinks : (s t : Subsys) (b : Bool) → Shrinks s t → Shrinks s (record t { overrun = b })
overrun-Shrinks s t b c = record {
  network = c.network;
  next_address = c.next_address;
  this_router = c.this_router;
  rids = c.rids;
  subset = c.subset;
  keeps = c.keeps;
}

route-Shrinks : (s : Subsys) (r : Route) (host : ℕ) → Shrinks s (add_new_route s r host)
unfolding add_new_route
route-Shrinks s r host = overrun-Shrinks s _ _ (update-Shrinks s host _ refl (λ q i. i) (λ d. d))

pub id-Shrinks : (s : Subsys) (host i id : ℕ) → Shrinks s (set_r_id s host i id)
unfolding set_r_id
id-Shrinks s host i id = update-Shrinks s host _ refl (λ q i. i) (λ d. d)

pub learn_subnet-Shrinks : (s : Subsys) (host : ℕ) (r : Route) → Shrinks s (learn_subnet s host r).0
unfolding learn_subnet
learn_subnet-Shrinks s host r =
    elim (Option-cases (router_contains_subnet (s.heap host) r.prefix)) [
      | inl e ↦
          rw (e, learn_subnet)
            (if-all {A = Subsys × Bool} (λ x. Shrinks s x.0) (router_contains r (s.heap host))
              (Shrinks-refl s) (route-Shrinks s r host))
      | inr ((i, old), e) ↦
          rw (e, learn_subnet)
            (if-all {A = Subsys × Bool} (λ x. Shrinks s x.0) (router_contains r (s.heap host))
              (Shrinks-refl s)
              (if-all {A = Subsys × Bool} (λ x. Shrinks s x.0)
                (not (r.mask == old.mask) && (r.r_id == 0 || old.r_id == 0))
                (route-Shrinks s r host)
                (if-all {A = Subsys × Bool} (λ x. Shrinks s x.0) (old.r_id == 0)
                  (id-Shrinks s host i r.r_id) (subnet-Shrinks s host old))))
    ]

pub learn_opposite-Shrinks : (s : Subsys) (p : ℕ) (r : Route) → Shrinks s (learn_opposite s p r)
unfolding learn_opposite
learn_opposite-Shrinks s p r = elim (Option-cases (router_contains_subnet (s.heap p) r.prefix)) [
  | inl e ↦
      rw (e, learn_opposite)
        (if-all (Shrinks s) (router_contains r (s.heap p)) (Shrinks-refl s) (route-Shrinks s r p))
  | inr ((i, old), e) ↦
      rw (e, learn_opposite)
        (if-all (Shrinks s) (router_contains r (s.heap p)) (Shrinks-refl s)
          (if-all (Shrinks s) (old.r_id == 0) (id-Shrinks s p i r.r_id) (subnet-Shrinks s p r)))
]

pub disconnect-Shrinks : (s : Subsys) (ws : List ℕ) (id : ℕ) → Shrinks s (disconnect s ws id)
unfolding disconnect
disconnect-Shrinks s [] id = Shrinks-refl s
disconnect-Shrinks s (w ∷ ws) id =
    let t = remove_rt_sn_using_id s w id in
    let u = remove_rt_adj_using_id t w id in
    Shrinks-trans s t _ (sn-Shrinks s w id)
      (Shrinks-trans t u _ (adj-Shrinks t w id) (disconnect-Shrinks u ws id))

pub forget_subnet-Shrinks : (s : Subsys) (host rid id : ℕ) → Shrinks s (forget_subnet s host rid id)
unfolding forget_subnet
forget_subnet-Shrinks s host rid id = elim (Option-cases (adj_list_contains s id)) [
  | inl e ↦ rw (e, forget_subnet) (sn-Shrinks s host id)
  | inr (n, e) ↦
      let t = remove_rt_sn_using_id s host id in
      let v = remove_rt_sn_using_id t n rid in
      let u = remove_rt_adj_using_id v n rid in
      rw (e, forget_subnet)
        (Shrinks-trans s t _ (sn-Shrinks s host id) (
          Shrinks-trans t v _ (sn-Shrinks t n rid)
            (Shrinks-trans v u _ (adj-Shrinks v n rid) (adj-Shrinks u host (u.heap n).rid))))
]
