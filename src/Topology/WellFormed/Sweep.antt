-- ===== src/Topology/WellFormed/Sweep.antt =====
-- The loop of check_top_invalid of top_info.c, against the invariant of the topology.
use pwospf.Base.{
  ℕ, ◌<◌, ◌≡◌, ◌≢◌, ◌↔◌, ◌⊎◌, inl, inr, refl, sym, ap, subst, ◌∙◌, List, [], ◌∷◌, ◌++◌,
  append_assoc, append-nil, Bool, true, false, not, ◌&&◌, ◌==◌, if-all, In, In-middle, In-append,
  In-append_left, arith, Bool-cases, Settles, Settles-map, Outcome, leb,
}
use pwospf.Topology.{Subsys}
use pwospf.Topology.Edit.{remove_from_topo, sweep, recompute, check_top_invalid}
use pwospf.Topology.WellFormed.{IsWellFormed, Shrinks, Shrinks-IsWellFormed}
use pwospf.Topology.WellFormed.Expiry.{unlink-IsWellFormed, remove-expired, remove-Shrinks}
use pwospf.Topology.WellFormed.Recompute.{recompute-Settles}

-- A router that has not expired, or this router.
abbrev pub Stays : Subsys → ℕ → ℕ → Type 0
Stays s now q = (now < (s.heap q).expired) ⊎ (q ≡ s.this_router)

-- The test of the loop.
abbrev goes : Subsys → ℕ → ℕ → Bool
goes s now p = leb (s.heap p).expired now && not ((s.heap p).rid == (s.heap s.this_router).rid)

goes-true : (s : Subsys) (now p : ℕ) → goes s now p ≡ true → ¬ Stays s now p
goes-true s now p h (inl late) = absurd (ground (arith, h, late))
goes-true s now p h (inr same) = absurd (ground (arith, h, ap (λ q. (s.heap q).rid) same))

goes-false :
    (s : Subsys) (now p : ℕ)
    → IsWellFormed s
    → In p s.network
    → goes s now p ≡ false
    → Stays s now p
goes-false s now p w i h = elim (Bool-cases (leb (s.heap p).expired now)) [
  | inl old ↦
      let same : (s.heap p).rid ≡ (s.heap s.this_router).rid = ground (arith, h, old) in
      inr (w.unique p s.this_router i w.inside.present same)
  | inr young ↦ inl (ground (arith, young))
]

-- What the loop leaves of a network whose part `xs` it has passed.
abbrev pub Swept : Subsys → ℕ → List ℕ → List ℕ → Subsys → Type 0
Swept s now xs ps t =
    IsWellFormed t
    × (t.this_router ≡ s.this_router)
    × ((q : ℕ) → In q t.network ↔ (In q xs ⊎ (In q ps × Stays s now q)))

removed-Stays :
    (s : Subsys) (now p q : ℕ) (net : List ℕ)
    → Stays (record (remove_from_topo s p) { network = net }) now q ↔ Stays s now q
removed-Stays s now p q net = (
  λ st. elim st [
    | inl late ↦ inl (subst (λ n. now < n) (remove-expired s p q) late)
    | inr same ↦ inr (same ∙ (remove-Shrinks s p).this_router)
  ],
  λ st. elim st [
    | inl late ↦ inl (subst (λ n. now < n) (sym (remove-expired s p q)) late)
    | inr same ↦ inr (same ∙ sym (remove-Shrinks s p).this_router)
  ],
)

pub sweep-Swept :
    (now : ℕ) (s : Subsys) (xs ps : List ℕ) (b : Bool)
    → IsWellFormed s
    → s.network ≡ xs ++ ps
    → Swept s now xs ps (sweep now s xs ps b).0
unfolding sweep
sweep-Swept now s xs [] b w e =
    let e' : s.network ≡ xs = e ∙ append-nil xs in
    (
      w,
      refl,
      λ q. (
        λ i. inl (subst (In q) e' i),
        λ k. elim k [ inl i ↦ subst (In q) (sym e') i | inr (i, _) ↦ absurd i ],
      ),
    )
sweep-Swept now s xs (p ∷ ps) b w e = elim (Bool-cases (goes s now p)) [
  | inl out ↦
      let u : Subsys = record (remove_from_topo s p) { network = xs ++ ps } in
      let differs : p ≢ s.this_router = λ same. goes-true s now p out (inr same) in
      let v = unlink-IsWellFormed s p xs ps w e differs in
      let (wt, this, members) = sweep-Swept now u xs ps true v refl in
      let same : (q : ℕ) → Stays u now q ↔ Stays s now q =
        λ q. removed-Stays s now p q (xs ++ ps) in
      rw (out, sweep)
        (
          wt,
          this ∙ (remove-Shrinks s p).this_router,
          λ q. (
            λ i. elim ((members q).0 i) [
              | inl j ↦ inl j
              | inr (j, st) ↦ inr (inr j, (same q).0 st)
            ],
            λ k. (members q).1 (elim k [
              | inl j ↦ inl j
              | inr (inl at, st) ↦ absurd (goes-true s now p out (subst (Stays s now) at st))
              | inr (inr j, st) ↦ inr (j, (same q).1 st)
            ]),
          ),
        )
  | inr stays ↦
      let (wt, this, members) =
        sweep-Swept now s (xs ++ p ∷ []) ps b w (e ∙ sym (append_assoc xs (p ∷ []) ps)) in
      let here : In p s.network = rw e (In-middle xs p ps) in
      let stay : Stays s now p = goes-false s now p w here stays in
      rw (stays, sweep)
        (
          wt,
          this,
          λ q. (
            λ i. elim ((members q).0 i) [
              | inl j ↦ elim (In-append xs (p ∷ []) q j) [
                | inl l ↦ inl l
                | inr (inl at) ↦ inr (inl at, subst (Stays s now) (sym at) stay)
                | inr (inr none_left) ↦ absurd none_left
              ]
              | inr (j, st) ↦ inr (inr j, st)
            ],
            λ k. (members q).1 (elim k [
              | inl j ↦ inl (In-append_left xs (p ∷ []) q j)
              | inr (inl at, st) ↦
                  inl (subst (λ x. In x (xs ++ p ∷ [])) (sym at) (In-middle xs p []))
              | inr (inr j, st) ↦ inr (j, st)
            ]),
          ),
        )
]

-- A well-formed topology with this router the same, whose network has exactly the routers of `s`
-- that stay.
abbrev pub Kept : Subsys → ℕ → Subsys → Type 0
Kept s now t =
    IsWellFormed t
    × (t.this_router ≡ s.this_router)
    × ((q : ℕ) → In q t.network ↔ (In q s.network × Stays s now q))

-- From a well-formed topology check_top_invalid ends, unless an interface is missing, in a
-- well-formed topology with this router the same, whose network has exactly the routers of the old
-- one that expire later than now, and this router.
pub check_top_invalid-Settles :
    (s : Subsys) (now : ℕ) → IsWellFormed s → Settles (check_top_invalid s now) (Kept s now)
unfolding check_top_invalid
check_top_invalid-Settles s now w =
    let t = (sweep now s [] s.network false).0 in
    let (wt, this, members) = sweep-Swept now s [] s.network false w refl in
    let only : (q : ℕ) → In q t.network ↔ (In q s.network × Stays s now q) = λ q. (
      λ i. elim ((members q).0 i) [ inl none_left ↦ absurd none_left | inr k ↦ k ],
      λ k. (members q).1 (inr k),
    ) in
    if-all {A = Outcome Subsys} (λ x. Settles x (Kept s now)) (sweep now s [] s.network false).1
      (Settles-map (Shrinks t) (Kept s now) (recompute t) (recompute-Settles t wt) (λ u c. (
        Shrinks-IsWellFormed t u c wt,
        c.this_router ∙ this,
        λ q. (
          λ i. (only q).0 (subst (In q) c.network i),
          λ k. subst (In q) (sym c.network) ((only q).1 k),
        ),
      )))
      (wt, this, only)
