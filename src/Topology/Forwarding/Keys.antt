-- ===== src/Topology/Forwarding/Keys.antt =====
-- update_ftable of top_info.c: the prefixes and masks of the forwarding table.
use pwospf.Base.{
  ℕ, zero, suc, ◌≡◌, inl, inr, refl, sym, ap, subst, List, [], ◌∷◌, ◌++◌, map, Bool, true, ◌&&◌,
  ◌==◌, ltb, none, some, String, if-all, In, Nodup, Nodup-snoc, modify, arith, Bool-cases,
  Option-cases, Settles, Settles-bind, Outcome, done, aborted, out_of_fuel, ◌>>=◌,
}
use pwospf.Topology.{Route, FtableEntry, PwospfIf, Subsys}
use pwospf.Topology.ShortestPath.{NextHop, itself, unreachable, via, find_next_hop, dijkstra}
use pwospf.Topology.Edit.{recompute}
use pwospf.Topology.WellFormed.{IsWellFormed, Shrinks, Shrinks-IsWellFormed}
use pwospf.Topology.WellFormed.Recompute.{recompute-Settles}
use pwospf.Topology.WellFormed.Interfaces.{HasInterfaces, Safe-returns, recompute-Safe}
use pwospf.Topology.Forwarding.{
  get_subnet_if, ftable_contains, add_own, add_all_own, add_remote, add_all_remote, fill_from,
  fill_table, update_ftable,
}

-- What an entry is looked up by.
abbrev pub key : FtableEntry → ℕ × ℕ
key e = (e.prefix, e.mask)

-- No two entries have the same prefix and mask.
abbrev pub IsKeyed : List FtableEntry → Type 0
IsKeyed t = Nodup (map key t)

map-modify :
    (t : List FtableEntry) (i : ℕ) (f : FtableEntry → FtableEntry)
    → ((e : FtableEntry) → key (f e) ≡ key e)
    → map key (modify t i f) ≡ map key t
map-modify [] i f h = refl
map-modify (e ∷ t) zero f h = ap (λ k. k ∷ map key t) (h e)
map-modify (e ∷ t) (suc i) f h = ap (λ l. key e ∷ l) (map-modify t i f h)

map-snoc :
    (t : List FtableEntry) (e : FtableEntry) → map key (t ++ e ∷ []) ≡ map key t ++ key e ∷ []
map-snoc [] e = refl
map-snoc (x ∷ t) e = ap (λ l. key x ∷ l) (map-snoc t e)

ftable_contains-none :
    (t : List FtableEntry) (p m : ℕ) → ftable_contains t p m ≡ none → ¬ In (p, m) (map key t)
unfolding ftable_contains
ftable_contains-none [] p m h i = i
ftable_contains-none (e ∷ t) p m h i = elim (Bool-cases (e.prefix == p && e.mask == m)) [
  | inl hit ↦
      let found : some (zero, e) ≡ none = rw (hit, ftable_contains) at h in ground (arith, found)
  | inr miss ↦ elim i [
    | inl same ↦ ground (arith, miss, ap (λ (x : ℕ × ℕ). x.0) same, ap (λ (x : ℕ × ℕ). x.1) same)
    | inr j ↦ elim (Option-cases (ftable_contains t p m)) [
      | inl nowhere ↦ ftable_contains-none t p m nowhere j
      | inr (x, there) ↦
          let found : some (suc x.0, x.1) ≡ none = rw (miss, there, ftable_contains) at h in
          ground (arith, found)
    ]
  ]
]

IsKeyed-snoc :
    (t : List FtableEntry) (e : FtableEntry)
    → IsKeyed t
    → ftable_contains t e.prefix e.mask ≡ none
    → IsKeyed (t ++ e ∷ [])
IsKeyed-snoc t e k h =
    subst Nodup (sym (map-snoc t e))
      (Nodup-snoc (map key t) (key e) k (ftable_contains-none t e.prefix e.mask h))

IsKeyed-modify :
    (t : List FtableEntry) (i : ℕ) (f : FtableEntry → FtableEntry)
    → ((e : FtableEntry) → key (f e) ≡ key e)
    → IsKeyed t
    → IsKeyed (modify t i f)
IsKeyed-modify t i f h k = subst Nodup (sym (map-modify t i f h)) k

add_own-IsKeyed :
    (ifs : List PwospfIf) (t : List FtableEntry) (r : Route)
    → IsKeyed t
    → Settles (add_own ifs t r) IsKeyed
unfolding add_own
add_own-IsKeyed ifs t r k = elim (Option-cases (get_subnet_if ifs r)) [
  | inl e ↦ rw (e, add_own) tt
  | inr (i, e) ↦ elim (Option-cases (ftable_contains t r.prefix r.mask)) [
    | inl new ↦ rw (e, new, add_own) (IsKeyed-snoc t _ k new)
    | inr ((j, x), old) ↦ rw (e, old, add_own) (IsKeyed-modify t j _ (λ y. refl) k)
  ]
]

add_remote-IsKeyed :
    (gateway : ℕ) (name : String) (n : ℕ) (t : List FtableEntry) (r : Route)
    → IsKeyed t
    → IsKeyed (add_remote gateway name n t r)
unfolding add_remote
add_remote-IsKeyed gateway name n t r k = elim (Option-cases (ftable_contains t r.prefix r.mask)) [
  | inl new ↦ rw (new, add_remote) (IsKeyed-snoc t _ k new)
  | inr ((j, x), old) ↦
      rw (old, add_remote)
        (if-all {A = List FtableEntry} IsKeyed (ltb n x.num_hops)
          (IsKeyed-modify t j _ (λ y. refl) k) k)
]

add_all_remote-IsKeyed :
    (gateway : ℕ) (name : String) (n : ℕ) (t : List FtableEntry) (rs : List Route)
    → IsKeyed t
    → IsKeyed (add_all_remote gateway name n t rs)
unfolding add_all_remote
add_all_remote-IsKeyed gateway name n t [] k = k
add_all_remote-IsKeyed gateway name n t (r ∷ rs) k =
    add_all_remote-IsKeyed gateway name n (add_remote gateway name n t r) rs
      (add_remote-IsKeyed gateway name n t r k)

add_all_own-IsKeyed :
    (ifs : List PwospfIf) (t : List FtableEntry) (rs : List Route)
    → IsKeyed t
    → Settles (add_all_own ifs t rs) IsKeyed
unfolding add_all_own
add_all_own-IsKeyed ifs t [] k = k
add_all_own-IsKeyed ifs t (r ∷ rs) k =
    Settles-bind IsKeyed IsKeyed (add_own ifs t r) (λ u. add_all_own ifs u rs)
      (add_own-IsKeyed ifs t r k) (λ u l. add_all_own-IsKeyed ifs u rs l)

fill_from-IsKeyed :
    (s : Subsys) (t : List FtableEntry) (p : ℕ) (hop : NextHop)
    → IsKeyed t
    → Settles (fill_from s t p hop) (λ x. IsKeyed x.0)
unfolding fill_from
fill_from-IsKeyed s t p itself k =
    Settles-bind IsKeyed (λ x. IsKeyed x.0)
      (add_all_own s.interfaces t (s.heap s.this_router).subnets) (λ u. done (u, true))
      (add_all_own-IsKeyed s.interfaces t (s.heap s.this_router).subnets k) (λ u l. l)
fill_from-IsKeyed s t p unreachable k = k
fill_from-IsKeyed s t p (via q n) k = add_all_remote-IsKeyed _ _ n t (s.heap p).subnets k

-- What a run comes to has the property, if it comes to anything.
abbrev Partly : {A : Type 0} → Outcome A → (A → Type 0) → Type 0
Partly (done a) P = P a
Partly aborted P = Unit
Partly out_of_fuel P = Unit

Settles-Partly : {A : Type 0} (P : A → Type 0) (x : Outcome A) → Settles x P → Partly x P
Settles-Partly P (done a) e = e
Settles-Partly P aborted e = tt
Settles-Partly P out_of_fuel e = tt

Partly-bind :
    {A B : Type 0} (Q : B → Type 0) (x : Outcome A) (f : A → Outcome B)
    → ((a : A) → Partly (f a) Q)
    → Partly (x >>= f) Q
Partly-bind Q (done a) f g = g a
Partly-bind Q aborted f g = tt
Partly-bind Q out_of_fuel f g = tt

Partly-after :
    {A B : Type 0} (P : A → Type 0) (Q : B → Type 0) (x : Outcome A) (f : A → Outcome B)
    → Partly x P
    → ((a : A) → P a → Partly (f a) Q)
    → Partly (x >>= f) Q
Partly-after P Q (done a) f e g = g a e
Partly-after P Q aborted f e g = tt
Partly-after P Q out_of_fuel f e g = tt

abbrev Filled : List FtableEntry × Bool → Type 0
Filled x = IsKeyed x.0

fill_table-Filled :
    (s : Subsys) (t : List FtableEntry) (ps : List ℕ)
    → IsKeyed t
    → Partly (fill_table s t ps) Filled
unfolding fill_table
fill_table-Filled s t [] k = k
fill_table-Filled s t (p ∷ ps) k = Partly-bind Filled (find_next_hop s p) _ (λ hop.
    Partly-after Filled Filled (fill_from s t p hop) _
      (Settles-Partly Filled (fill_from s t p hop) (fill_from-IsKeyed s t p hop k))
      (λ (u, onward) l.
        if-all {A = Outcome (List FtableEntry × Bool)} (λ x. Partly x Filled) onward
          (fill_table-Filled s u ps l) l))

update_ftable-IsKeyed : (s : Subsys) → Partly (update_ftable s) (λ x. IsKeyed x.0.fwrd_table)
unfolding update_ftable
update_ftable-IsKeyed s =
    Partly-after Filled (λ (x : Subsys × Bool). IsKeyed x.0.fwrd_table) (fill_table s [] s.network)
      _ (fill_table-Filled s [] s.network tt) (λ x l. l)

Partly-done : {A : Type 0} (P : A → Type 0) (x : Outcome A) (a : A) → x ≡ done a → Partly x P → P a
Partly-done P x a e h = subst (λ y. Partly y P) e h

-- In a well-formed topology where each subnet of this router is the subnet of an interface, dijkstra
-- and update_ftable return; the topology stays well-formed, and no two entries of the new forwarding
-- table have the same prefix and mask.
pub recompute-IsKeyed :
    (s : Subsys)
    → IsWellFormed s
    → HasInterfaces s.interfaces (s.heap s.this_router).subnets
    → (t : Subsys) × (recompute s ≡ done t) × IsWellFormed t × IsKeyed t.fwrd_table
unfolding recompute
recompute-IsKeyed s w h =
    let (t, ran, c) =
      Safe-returns (Shrinks s) (recompute s) (recompute-Safe s w h) (recompute-Settles s w) in
    let keyed : Partly (recompute s) (λ x. IsKeyed x.fwrd_table) =
      Partly-bind (λ x. IsKeyed x.fwrd_table) (dijkstra s) _
        (λ u.
          Partly-after (λ (x : Subsys × Bool). IsKeyed x.0.fwrd_table) (λ x. IsKeyed x.fwrd_table)
            (update_ftable u) _ (update_ftable-IsKeyed u) (λ x l. l)) in
    (
      t,
      ran,
      Shrinks-IsWellFormed s t c w,
      Partly-done (λ (x : Subsys). IsKeyed x.fwrd_table) (recompute s) t ran keyed,
    )
