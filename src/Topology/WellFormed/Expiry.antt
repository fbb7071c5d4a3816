-- ===== src/Topology/WellFormed/Expiry.antt =====
-- remove_from_topo of top_info.c, against the invariant of the topology.
use pwospf.Base.{
  ℕ, ◌≡◌, ◌≢◌, ◌⊎◌, inl, inr, refl, sym, subst, ◌∙◌, List, [], ◌∷◌, ◌++◌, ◌==◌, ==_iff, In,
  In-middle, In-drop, In-keep, Nodup, Nodup-drop,
}
use pwospf.Topology.{Router, Subsys, update}
use pwospf.Topology.ShortestPath.Correct.{links}
use pwospf.Topology.Edit.{
  remove_rt_sn_using_id, remove_rt_adj_using_id, disconnect, remove_from_topo,
}
use pwospf.Topology.WellFormed.{
  IsWellFormed, put-all, Shrinks, Shrinks-trans, Shrinks-IsWellFormed, update-Shrinks,
}
use pwospf.Topology.WellFormed.Removal.{
  take_pointer-gone, sn-Shrinks, adj-Shrinks, disconnect-Shrinks,
}
use pwospf.Topology.WellFormed.Growth.{put-same}

-- After its removal the router `p` is no neighbor of `w`.
adj-gone :
    (s : Subsys) (p w : ℕ)
    → IsWellFormed s
    → In p s.network
    → In w s.network
    → ¬ In p (links (remove_rt_adj_using_id s w (s.heap p).rid) w)
unfolding remove_rt_adj_using_id
adj-gone s p w wf i j k =
    let id = (s.heap p).rid in
    take_pointer-gone (λ a. (s.heap a).rid == id) (links s w) p (wf.distinct w j)
      ((==_iff id id).1 refl)
      (λ x l hit. wf.unique x p (wf.inside.closed w x j l) i ((==_iff (s.heap x).rid id).0 hit))
      (subst (λ (r : Router). In p r.adjacencies) (put-same s.heap w _) k)

disconnect-gone :
    (s : Subsys) (ws : List ℕ) (p : ℕ) (id : ℕ)
    → IsWellFormed s
    → In p s.network
    → (s.heap p).rid ≡ id
    → ((w : ℕ) → In w ws → In w s.network)
    → (w : ℕ) → In w ws
    → ¬ In p (links (disconnect s ws id) w)
unfolding disconnect
disconnect-gone s [] p id wf i e sub w j k = absurd j
disconnect-gone s (v ∷ ws) p id wf i e sub w j k =
    let t = remove_rt_sn_using_id s v id in
    let u = remove_rt_adj_using_id t v id in
    let a = sn-Shrinks s v id in
    let b = adj-Shrinks t v id in
    let c = Shrinks-trans s t u a b in
    let wt = Shrinks-IsWellFormed s t a wf in
    elim j [
      | inl same ↦ adj-gone t p v wt (rw a.network i) (rw a.network (sub v (inl refl))) (
          subst (λ n. In p (links (remove_rt_adj_using_id t v n) v)) (sym (a.rids p ∙ e))
            ((disconnect-Shrinks u ws id).subset v p
              (subst (λ x. In p (links (disconnect u ws id) x)) same k)))
      | inr later ↦
          disconnect-gone u ws p id (Shrinks-IsWellFormed s u c wf) (rw c.network i) (c.rids p ∙ e)
            (λ x l. rw c.network (sub x (inr l))) w later k
    ]

pub remove-Shrinks : (s : Subsys) (p : ℕ) → Shrinks s (remove_from_topo s p)
unfolding remove_from_topo
remove-Shrinks s p =
    let r : Router = record (s.heap p) { subnets = [] } in
    Shrinks-trans s (update s p r) _ (update-Shrinks s p r refl (λ q i. i) (λ d. d))
      (disconnect-Shrinks (update s p r) s.network (s.heap p).rid)

remove-gone :
    (s : Subsys) (p : ℕ)
    → IsWellFormed s
    → In p s.network
    → (w : ℕ) → In w s.network
    → ¬ In p (links (remove_from_topo s p) w)
unfolding remove_from_topo
remove-gone s p wf i =
    let r : Router = record (s.heap p) { subnets = [] } in
    let c = update-Shrinks s p r refl (λ q j. j) (λ d. d) in
    disconnect-gone (update s p r) s.network p (s.heap p).rid
      (Shrinks-IsWellFormed s (update s p r) c wf) i (c.rids p) (λ w j. j)

-- A removal leaves the times of expiry.
disconnect-expired :
    (s : Subsys) (ws : List ℕ) (id q : ℕ)
    → ((disconnect s ws id).heap q).expired ≡ (s.heap q).expired
unfolding disconnect remove_rt_sn_using_id remove_rt_adj_using_id
disconnect-expired s [] id q = refl
disconnect-expired s (v ∷ ws) id q =
    let t = remove_rt_sn_using_id s v id in
    disconnect-expired (remove_rt_adj_using_id t v id) ws id q
    ∙ put-all (λ x (r : Router). r.expired ≡ (t.heap x).expired) t.heap v _ refl (λ x. refl) q
    ∙ put-all (λ x (r : Router). r.expired ≡ (s.heap x).expired) s.heap v _ refl (λ x. refl) q

pub remove-expired :
    (s : Subsys) (p q : ℕ) → ((remove_from_topo s p).heap q).expired ≡ (s.heap q).expired
unfolding remove_from_topo
remove-expired s p q =
    let r : Router = record (s.heap p) { subnets = [] } in
    disconnect-expired (update s p r) s.network (s.heap p).rid q
    ∙ put-all (λ x (y : Router). y.expired ≡ (s.heap x).expired) s.heap p r refl (λ x. refl) q

-- What is left when `p` is unlinked.
pub unlink-IsWellFormed :
    (s : Subsys) (p : ℕ) (xs ys : List ℕ)
    → IsWellFormed s
    → s.network ≡ xs ++ p ∷ ys
    → p ≢ s.this_router
    → IsWellFormed (record (remove_from_topo s p) { network = xs ++ ys })
unlink-IsWellFormed s p xs ys w e other =
    let t = remove_from_topo s p in
    let c = remove-Shrinks s p in
    let v = Shrinks-IsWellFormed s t c w in
    let here : In p s.network = rw e (In-middle xs p ys) in
    let back : (q : ℕ) → In q (xs ++ ys) → In q t.network =
      λ q i. rw (c.network, e) (In-drop xs p ys q i) in
    let split : (q : ℕ) → In q t.network → (q ≡ p) ⊎ In q (xs ++ ys) =
      λ q i. In-keep xs p ys q (subst (In q) (c.network ∙ e) i) in
    record {
      inside = record {
        present = elim (split t.this_router v.inside.present) [
          | inl same ↦ absurd (other (sym same ∙ c.this_router))
          | inr i ↦ i
        ];
        closed = λ x q i j. elim (split q (v.inside.closed x q (back x i) j)) [
          | inl same ↦ absurd (
              remove-gone s p w here x (subst (In x) c.network (back x i))
                (subst (λ y. In y (links t x)) same j))
          | inr k ↦ k
        ];
      };
      fresh = λ q i. v.fresh q (back q i);
      unique = λ x y i j. v.unique x y (back x i) (back y j);
      listed = Nodup-drop xs p ys (subst Nodup (c.network ∙ e) v.listed);
      distinct = λ q i. v.distinct q (back q i);
    }
