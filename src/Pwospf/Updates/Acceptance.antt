-- ===== src/Pwospf/Updates/Acceptance.antt =====
-- handle_lsu of lsu.c: an update that comes again, and the topology.
use pwospf.Base.{
  ℕ, zero, suc, ◌≡◌, ◌⊎◌, inl, inr, refl, sym, ap, ◌∙◌, List, [], ◌∷◌, Bool, true, false, ◌==◌,
  ==_iff, arith, Bool-cases, Option-cases, Settles, Settles-bind, Any, done, ◌>>=◌,
}
use pwospf.Wire.{htonl, OspfHdr, LsuHdr, LsuAdv}
use pwospf.Topology.{
  Route, Router, Heap, put, Subsys, find_rid, adj_list_contains, get_sequence, set_sequence,
}
use pwospf.Topology.Learn.{add_to_top}
use pwospf.Topology.WellFormed.{
  IsWellFormed, put-all, Shrinks, Shrinks-refl, Shrinks-IsWellFormed, update-Shrinks,
}
use pwospf.Topology.WellFormed.Growth.{Grows, find_rid-none, put-same}
use pwospf.Topology.WellFormed.Learning.{Knows}
use pwospf.Topology.WellFormed.Recompute.{add_to_top-Settles}
use pwospf.Routing.{SrRt}
use pwospf.Pwospf.Updates.{read_advs, handle_lsu, build_lsu}

find_rid-same :
    (h k : Heap) (ps : List ℕ) (id : ℕ)
    → ((p : ℕ) → (k p).rid ≡ (h p).rid)
    → find_rid k ps id ≡ find_rid h ps id
unfolding find_rid
find_rid-same h k [] id e = refl
find_rid-same h k (p ∷ ps) id e = ground (arith, e p, find_rid-same h k ps id e)

set_sequence-Shrinks : (s : Subsys) (id seq : ℕ) → Shrinks s (set_sequence s id seq)
unfolding set_sequence
set_sequence-Shrinks s id seq = elim (Option-cases (adj_list_contains s id)) [
  | inl e ↦ rw (e, set_sequence) (Shrinks-refl s)
  | inr (p, e) ↦ rw (e, set_sequence) (update-Shrinks s p _ refl (λ q i. i) (λ d. d))
]

-- What set_sequence stored is what get_sequence reads, for a router that the network has.
pub get_sequence-set_sequence :
    (s : Subsys) (id p seq : ℕ) → Knows s id p → get_sequence (set_sequence s id seq) id ≡ seq
unfolding set_sequence get_sequence adj_list_contains
get_sequence-set_sequence s id p seq (i, e) = elim (Option-cases (find_rid s.heap s.network id)) [
  | inl nothing ↦ absurd (find_rid-none s.heap s.network id p nothing i e)
  | inr (q, found) ↦
      let r : Router = record (s.heap q) { last_seq = seq } in
      let same : (x : ℕ) → (put s.heap q r x).rid ≡ (s.heap x).rid =
        put-all (λ x (y : Router). y.rid ≡ (s.heap x).rid) s.heap q r refl (λ x. refl) in
      let again = find_rid-same s.heap (put s.heap q r) s.network id same ∙ found in
      rw (found, set_sequence, adj_list_contains)
        (rw (again, get_sequence, adj_list_contains)
          (ap (λ (y : Router). y.last_seq) (put-same s.heap q r)))
]

read_advs-Settles : (raw n : ℕ) (body : List LsuAdv) → Settles (read_advs raw n body) Any
unfolding read_advs
read_advs-Settles raw zero body = tt
read_advs-Settles raw (suc n) [] = tt
read_advs-Settles raw (suc n) (a ∷ body) =
    Settles-bind Any Any (read_advs raw n body) _ (read_advs-Settles raw n body) (λ rs _. tt)

-- An update that has the sequence number on record, or is this router's own, is dropped.
drops :
    (s : Subsys) (now raw : ℕ) (p : OspfHdr) (h : LsuHdr) (b : List LsuAdv)
    → ((s.heap s.this_router).rid ≡ p.rid) ⊎ (get_sequence s p.rid ≡ h.seq)
    → handle_lsu s now raw p h b ≡ done (s, false)
unfolding handle_lsu
drops s now raw p h b (inl own) = ground (arith, own)
drops s now raw p h b (inr old) = ground (arith, old)

-- A well-formed topology in which the update is on record: it is dropped if it comes again, at any
-- time and with whatever body, with no change of state.
abbrev pub Recorded : OspfHdr → LsuHdr → Subsys × Bool → Type 0
Recorded p h (t, accepted) =
    IsWellFormed t
    × ((now raw : ℕ) (body : List LsuAdv) → handle_lsu t now raw p h body ≡ done (t, false))

drops-Recorded :
    (s : Subsys) (p : OspfHdr) (h : LsuHdr) (b : Bool)
    → IsWellFormed s
    → ((s.heap s.this_router).rid ≡ p.rid) ⊎ (get_sequence s p.rid ≡ h.seq)
    → Recorded p h (s, b)
drops-Recorded s p h b w old = (w, λ now raw body. drops s now raw p h body old)

accept-Recorded :
    (s : Subsys) (now : ℕ) (p : OspfHdr) (h : LsuHdr) (advs : List Route)
    → IsWellFormed s
    → Settles
        (add_to_top s now p.rid advs >>= λ t. done (set_sequence t p.rid h.seq, true))
        (Recorded p h)
accept-Recorded s now p h advs w =
    Settles-bind (λ t. Grows s t × (q : ℕ) × Knows t p.rid q) (Recorded p h)
      (add_to_top s now p.rid advs) _ (add_to_top-Settles s now p.rid advs w)
      (λ t (g, q, k).
        drops-Recorded (set_sequence t p.rid h.seq) p h true
          (Shrinks-IsWellFormed t _ (set_sequence-Shrinks t p.rid h.seq) g.here)
          (inr (get_sequence-set_sequence t p.rid q h.seq k)))

-- From a well-formed topology handle_lsu ends, unless an assertion fails, an array of subnets or
-- adjacencies is written past its end, or the update says that it has more advertisements than it
-- has. The topology is well-formed then; and if an update with the
-- same router and sequence number comes again, at any time and whatever it advertises, it is dropped
-- with no change.
pub handle_lsu-once :
    (s : Subsys) (now raw : ℕ) (p : OspfHdr) (h : LsuHdr) (body : List LsuAdv)
    → IsWellFormed s
    → Settles (handle_lsu s now raw p h body) (Recorded p h)
unfolding handle_lsu
handle_lsu-once s now raw p h body w = elim (Bool-cases (p.rid == (s.heap s.this_router).rid)) [
  | inl own ↦ rw (own, handle_lsu) (drops-Recorded s p h false w (inl (sym ((==_iff _ _).0 own))))
  | inr foreign ↦ elim (Bool-cases (get_sequence s p.rid == h.seq)) [
    | inl old ↦
        rw (foreign, old, handle_lsu) (drops-Recorded s p h false w (inr ((==_iff _ _).0 old)))
    | inr new ↦
        rw (foreign, new, handle_lsu)
          (Settles-bind Any (Recorded p h) (read_advs raw (htonl h.num_adv) body) _
            (read_advs-Settles raw (htonl h.num_adv) body)
            (λ advs _. accept-Recorded s now p h advs w))
  ]
]

-- The building of an update changes the sequence number alone.
pub build_lsu-IsWellFormed :
    (raw : ℕ) (s : Subsys) (table : List SrRt)
    → IsWellFormed s
    → IsWellFormed (build_lsu raw s table).0
unfolding build_lsu
build_lsu-IsWellFormed raw s table w =
    Shrinks-IsWellFormed s _
      (record {
        network = refl;
        next_address = refl;
        this_router = refl;
        rids = λ p. refl;
        subset = λ p q i. i;
        keeps = λ p d. d;
      })
      w
