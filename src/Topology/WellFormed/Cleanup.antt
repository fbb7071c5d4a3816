-- ===== src/Topology/WellFormed/Cleanup.antt =====
-- The clean-up loop of add_to_top of top_info.c: its length, and what it removes.
use pwospf.Base.{
  ℕ, zero, suc, ◌+◌, ◌≤◌, ◌<◌, ◌≡◌, inl, inr, refl, ap, List, [], ◌∷◌, Bool, true, ◌==◌, ==_iff,
  some, length-fill, arith, Bool-cases, Option-cases, done, ltb, get_elem?, length,
}
use pwospf.Topology.{Route, Subsys, adj_list_contains, sub_in_adv}
use pwospf.Topology.Edit.{take_route, remove_rt_sn_using_id, remove_rt_adj_using_id}
use pwospf.Topology.Learn.{forget_subnet, forget_subnets, clean_up}
use pwospf.Topology.WellFormed.{put-all, Shrinks, Shrinks-refl, Shrinks-trans}
use pwospf.Topology.WellFormed.Removal.{forget_subnet-Shrinks}

-- The subnets that a router has.
abbrev size : Subsys → ℕ → ℕ
size s p = length (s.heap p).subnets

take_route-less :
    (p : Route → Bool) (rs : List Route) (x : Route) (i : ℕ)
    → get_elem? rs i ≡ some x
    → p x ≡ true
    → suc (length (take_route p rs)) ≡ length rs
unfolding take_route
take_route-less p [] x i e hit = cc
take_route-less p (r ∷ rs) x zero e hit =
    let here : p r ≡ true = ground (arith, ap p {x = r} {y = x}, hit) in
    rw (here, take_route) (ap suc (length-fill rs))
take_route-less p (r ∷ rs) x (suc i) e hit = elim (Bool-cases (p r)) [
  | inl here ↦ rw (here, take_route) (ap suc (length-fill rs))
  | inr miss ↦ rw (miss, take_route) (ap suc (take_route-less p rs x i e hit))
]

take_route-most : (p : Route → Bool) (rs : List Route) → length (take_route p rs) ≤ length rs
unfolding take_route
take_route-most p [] = omega arith
take_route-most p (r ∷ rs) = ground (arith, length-fill rs, take_route-most p rs)

sn-most : (s : Subsys) (rt id p : ℕ) → size (remove_rt_sn_using_id s rt id) p ≤ size s p
unfolding remove_rt_sn_using_id
sn-most s rt id =
    put-all (λ q x. length x.subnets ≤ size s q) s.heap rt _
      (take_route-most (λ x. x.r_id == id) (s.heap rt).subnets) (λ q. omega arith)

adj-most : (s : Subsys) (rt id p : ℕ) → size (remove_rt_adj_using_id s rt id) p ≤ size s p
unfolding remove_rt_adj_using_id
adj-most s rt id =
    put-all (λ q x. length x.subnets ≤ size s q) s.heap rt _ (omega arith) (λ q. omega arith)

sn-less :
    (s : Subsys) (host i : ℕ) (x : Route)
    → get_elem? (s.heap host).subnets i ≡ some x
    → suc (size (remove_rt_sn_using_id s host x.r_id) host) ≡ size s host
unfolding remove_rt_sn_using_id
sn-less s host i x e = rw ((==_iff host host).1 refl) (
    take_route-less (λ y. y.r_id == x.r_id) (s.heap host).subnets x i e
      ((==_iff x.r_id x.r_id).1 refl))

forget_subnet-less :
    (s : Subsys) (host rid i : ℕ) (x : Route)
    → get_elem? (s.heap host).subnets i ≡ some x
    → size (forget_subnet s host rid x.r_id) host < size s host
unfolding forget_subnet
forget_subnet-less s host rid i x e = elim (Option-cases (adj_list_contains s x.r_id)) [
  | inl none_left ↦ rw (none_left, forget_subnet) (omega (arith, sn-less s host i x e))
  | inr (n, f) ↦
      let t = remove_rt_sn_using_id s host x.r_id in
      let v = remove_rt_sn_using_id t n rid in
      let u = remove_rt_adj_using_id v n rid in
      rw (f, forget_subnet)
        (omega (
          arith,
          sn-less s host i x e,
          sn-most t n rid host,
          adj-most v n rid host,
          adj-most u host (u.heap n).rid host,
        ))
]

in_range : (rs : List Route) (x : Route) (i : ℕ) → get_elem? rs i ≡ some x → i < length rs
in_range [] x i e = cc
in_range (r ∷ rs) x zero e = omega arith
in_range (r ∷ rs) x (suc i) e = omega (arith, in_range rs x i e)

forget_subnets-ends :
    (fuel : ℕ) (s : Subsys) (advs : List Route) (host rid i : ℕ)
    → size s host ≤ i + fuel
    → (t : Subsys) × (forget_subnets fuel s advs host rid i ≡ done t) × Shrinks s t
unfolding forget_subnets
forget_subnets-ends zero s advs host rid i h =
    elim (Option-cases (get_elem? (s.heap host).subnets i)) [
      | inl e ↦ (s, rw (e, forget_subnets) refl, Shrinks-refl s)
      | inr (x, e) ↦ absurd (omega (arith, h, in_range (s.heap host).subnets x i e))
    ]
forget_subnets-ends (suc fuel) s advs host rid i h =
    elim (Option-cases (get_elem? (s.heap host).subnets i)) [
      | inl e ↦ (s, rw (e, forget_subnets) refl, Shrinks-refl s)
      | inr (x, e) ↦ elim (Bool-cases (sub_in_adv advs x)) [
        | inl known ↦
            let (t, ran, c) = forget_subnets-ends fuel s advs host rid (i + 1) (omega (arith, h)) in
            (t, rw (e, known, forget_subnets) ran, c)
        | inr gone ↦
            let u = forget_subnet s host rid x.r_id in
            let (t, ran, c) =
              forget_subnets-ends fuel u advs host rid i
                (omega (arith, h, forget_subnet-less s host rid i x e)) in
            (
              t,
              rw (e, gone, forget_subnets) ran,
              Shrinks-trans s u t (forget_subnet-Shrinks s host rid x.r_id) c,
            )
      ]
    ]

pub clean_up-ends :
    (s : Subsys) (now host rid : ℕ) (advs : List Route)
    → (t : Subsys) × (clean_up s now host rid advs ≡ done t) × Shrinks s t
unfolding clean_up
clean_up-ends s now host rid advs = elim (Bool-cases (ltb s.init_time now)) [
  | inl late ↦
      let (t, ran, c) = forget_subnets-ends (size s host) s advs host rid 0 (omega arith) in
      (t, rw (late, clean_up) ran, c)
  | inr early ↦ (s, rw (early, clean_up) refl, Shrinks-refl s)
]
