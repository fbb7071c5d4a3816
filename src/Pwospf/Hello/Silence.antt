-- ===== src/Pwospf/Hello/Silence.antt =====
-- handle_HELLO: neighbors that fell silent.
use pwospf.Base.{
  ℕ, zero, suc, ◌≤◌, ◌≡◌, ◌↔◌, ◌⊎◌, inl, inr, refl, sym, ap, subst, List, [], ◌∷◌, ◌++◌, not,
  if-all, In, In-append, In-append_left, In-middle, fill, fill-In, In-fill, length-fill,
  length-append, ◌+◌, length, arith, Bool-cases, Option-cases, done, ltb,
}
use pwospf.Topology.{Neighbor, Subsys, adj_list_contains}
use pwospf.Topology.Edit.{remove_rt_sn_using_id, remove_rt_adj_using_id}
use pwospf.Topology.WellFormed.{
  IsWellFormed, Shrinks, Shrinks-refl, Shrinks-trans, Shrinks-IsWellFormed,
}
use pwospf.Topology.WellFormed.Removal.{sn-Shrinks, adj-Shrinks}
use pwospf.Pwospf.Hello.{drop_neighbor, expire_neighbors}

drop_neighbor-Shrinks : (s : Subsys) (now id : ℕ) → Shrinks s (drop_neighbor s now id)
unfolding drop_neighbor
drop_neighbor-Shrinks s now id =
    let own = (s.heap s.this_router).rid in
    let t = remove_rt_sn_using_id s s.this_router id in
    let a = sn-Shrinks s s.this_router id in
    if-all (Shrinks s) (not (ltb s.init_time now)) (Shrinks-refl s)
      (elim (Option-cases (adj_list_contains t id)) [
        | inl e ↦ rw e a
        | inr (n, e) ↦
            let u = remove_rt_sn_using_id t n own in
            let v = remove_rt_adj_using_id u n own in
            rw e (
              Shrinks-trans s t _ a (
                Shrinks-trans t u _ (sn-Shrinks t n own) (
                  Shrinks-trans u v _ (adj-Shrinks u n own)
                    (adj-Shrinks v s.this_router (v.heap n).rid))))
      ])

-- The neighbors that are left: those passed, and of the others the ones that have not expired.
abbrev pub Left : ℕ → List Neighbor → List Neighbor → List Neighbor → Type 0
Left now passed ns left =
    (n : Neighbor) → In n left ↔ (In n passed ⊎ (In n ns × (now ≤ n.timenotvalid)))

pub expire-ends :
    (fuel : ℕ) (s : Subsys) (now : ℕ) (passed ns : List Neighbor)
    → length ns ≤ fuel
    → (t : Subsys) × (left : List Neighbor) × (expire_neighbors fuel s now passed ns
        ≡ done (t, left))
      × Shrinks s t
      × Left now passed ns left
      × (length left ≤ length passed + length ns)
unfolding expire_neighbors
expire-ends fuel s now passed [] h = (
  s,
  passed,
  refl,
  Shrinks-refl s,
  λ n. (inl, λ k. elim k [ inl i ↦ i | inr (i, _) ↦ absurd i ]),
  omega arith,
)
expire-ends zero s now passed (n ∷ ns) h = absurd (omega arith)
expire-ends (suc fuel) s now passed (n ∷ ns) h = elim (Bool-cases (ltb n.timenotvalid now)) [
  | inl gone ↦
      let u = drop_neighbor s now n.id in
      let (t, left, ran, c, members, count) =
        expire-ends fuel u now passed (fill ns) (omega (arith, h, length-fill ns)) in
      (
        t,
        left,
        rw (gone, expire_neighbors) ran,
        Shrinks-trans s u t (drop_neighbor-Shrinks s now n.id) c,
        λ x. (
          λ i. elim ((members x).0 i) [
            | inl j ↦ inl j
            | inr (j, live) ↦ inr (inr (fill-In ns x j), live)
          ],
          λ k. (members x).1 (elim k [
            | inl j ↦ inl j
            | inr (inl same, live) ↦
                absurd (ground (arith, gone, live, ap (λ (y : Neighbor). y.timenotvalid) same))
            | inr (inr j, live) ↦ inr (In-fill ns x j, live)
          ]),
        ),
        omega (arith, count, length-fill ns),
      )
  | inr stays ↦
      let (t, left, ran, c, members, count) =
        expire-ends fuel s now (passed ++ n ∷ []) ns (omega (arith, h)) in
      (
        t,
        left,
        rw (stays, expire_neighbors) ran,
        c,
        λ x. (
          λ i. elim ((members x).0 i) [
            | inl j ↦ elim (In-append passed (n ∷ []) x j) [
              | inl l ↦ inl l
              | inr (inl same) ↦
                  inr (inl same, ground (arith, stays, ap (λ (y : Neighbor). y.timenotvalid) same))
              | inr (inr none_left) ↦ absurd none_left
            ]
            | inr (j, live) ↦ inr (inr j, live)
          ],
          λ k. (members x).1 (elim k [
            | inl j ↦ inl (In-append_left passed (n ∷ []) x j)
            | inr (inl same, live) ↦
                inl (subst (λ y. In y (passed ++ n ∷ [])) (sym same) (In-middle passed n []))
            | inr (inr j, live) ↦ inr (j, live)
          ]),
        ),
        omega (arith, count, length-append passed (n ∷ [])),
      )
]

-- The loop over the neighbors of an interface ends, with as many rounds as it has neighbors. Exactly
-- the neighbors whose time is not before now are left, and a well-formed topology stays one.
pub expire_neighbors-live :
    (s : Subsys) (now : ℕ) (ns : List Neighbor)
    → IsWellFormed s
    → (t : Subsys) × (left : List Neighbor) × (expire_neighbors (length ns) s now [] ns
        ≡ done (t, left))
      × IsWellFormed t
      × ((n : Neighbor) → In n left ↔ (In n ns × (now ≤ n.timenotvalid)))
expire_neighbors-live s now ns w =
    let (t, left, ran, c, members, _) = expire-ends (length ns) s now [] ns (omega arith) in
    (
      t,
      left,
      ran,
      Shrinks-IsWellFormed s t c w,
      λ n. (
        λ i. elim ((members n).0 i) [ inl none_left ↦ absurd none_left | inr k ↦ k ],
        λ k. (members n).1 (inr k),
      ),
    )
