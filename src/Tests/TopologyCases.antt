-- ===== src/Tests/TopologyCases.antt =====
-- The theorems on the topology at concrete inputs: two routers that are neighbors.
use pwospf.Base.{
  is_some, true, ℕ, ◌≡◌, ◌↔◌, inl, inr, refl, sym, subst, List, [], ◌∷◌, false, none, some, In,
  Nodup, arith, done, Settles, if◌then◌else◌, ◌==◌,
}
use pwospf.Topology.{Router, Neighbor, Heap, Subsys, get_sequence, set_sequence}
use pwospf.Topology.Edit.{recompute, check_top_invalid}
use pwospf.Topology.Learn.{add_to_top}
use pwospf.Topology.ShortestPath.{dijkstra}
use pwospf.Topology.ShortestPath.Invariant.{Walk}
use pwospf.Topology.ShortestPath.Rounds.{fixed}
use pwospf.Topology.ShortestPath.Correct.{IsClosed, links, IsShortest, dijkstra-IsShortest}
use pwospf.Topology.ShortestPath.Hops.{Finds, find_next_hop_shortest}
use pwospf.Topology.WellFormed.{IsWellFormed}
use pwospf.Topology.WellFormed.Growth.{Grows}
use pwospf.Topology.WellFormed.Learning.{Knows}
use pwospf.Topology.WellFormed.Recompute.{add_to_top-Settles}
use pwospf.Topology.WellFormed.Sweep.{Kept}
use pwospf.Topology.WellFormed.Interfaces.{HasInterfaces, check_top_invalid-Kept}
use pwospf.Topology.Forwarding.{get_subnet_if}
use pwospf.Topology.Forwarding.Keys.{IsKeyed, recompute-IsKeyed}
use pwospf.Pwospf.Updates.Acceptance.{get_sequence-set_sequence}

abbrev pub router : ℕ → List ℕ → Router
router id next = record {
  adjacencies = next;
  adj_buf_size = 10;
  adj_bytes = 80;
  subnets = record { prefix = 10; mask = 255; next_hop = 0; r_id = 0 } ∷ [];
  subnet_buf_size = 10;
  subnet_bytes = 80;
  last_seq = 0;
  expired = 50;
  rid = id;
  known = false;
  dist = none;
  prev = none;
}

abbrev pub pair : Subsys
pair = record {
  heap = λ p. if p == 0 then router 7 (1 ∷ []) else router 8 (0 ∷ []);
  next_address = 2;
  network = 0 ∷ 1 ∷ [];
  fwrd_table = [];
  interfaces = [];
  this_router = 0;
  last_seq_sent = 0;
  area_id = 0;
  autype = 0;
  init_time = 90;
  overrun = false;
}

pair-closed : (p q : ℕ) → In p pair.network → In q (links pair p) → In q pair.network
pair-closed p q (inl e) j = inr (subst (λ x. In q (links pair x)) e j)
pair-closed p q (inr (inl e)) j = elim (subst (λ x. In q (links pair x)) e j) [
  | inl z ↦ inl z
  | inr none_left ↦ absurd none_left
]
pair-closed p q (inr (inr none_left)) j = absurd none_left

pair-IsClosed : IsClosed pair
pair-IsClosed = record { present = inl refl; closed = pair-closed }

pair_unique :
    (p q : ℕ)
    → In p pair.network
    → In q pair.network
    → (pair.heap p).rid ≡ (pair.heap q).rid
    → p ≡ q
pair_unique p q i j e = ground (arith, e, i, j)

pair-Nodup : (p : ℕ) → In p pair.network → Nodup (links pair p)
pair-Nodup p (inl e) = subst (λ x. Nodup (links pair x)) (sym e) ((λ i. i), tt)
pair-Nodup p (inr (inl e)) = subst (λ x. Nodup (links pair x)) (sym e) ((λ i. i), tt)
pair-Nodup p (inr (inr none_left)) = absurd none_left

pub pair-IsWellFormed : IsWellFormed pair
pair-IsWellFormed = record {
  inside = pair-IsClosed;
  fresh = λ p i. ground (arith, i);
  unique = pair_unique;
  listed = ((λ i. elim i [ inl e ↦ absurd (omega (arith, e)) | inr z ↦ absurd z ]), ((λ i. i), tt));
  distinct = pair-Nodup;
}

dijkstra-IsShortest_example :
    (t : Heap) × (dijkstra pair ≡ done (record pair { heap = t }))
    × ((p : ℕ) → fixed (t p) ≡ fixed (pair.heap p))
    × ((v n : ℕ)
        → In v pair.network
        → ((t v).dist ≡ some n) ↔ IsShortest (links pair) pair.this_router v n)
    × ((v : ℕ)
        → In v pair.network
        → ((t v).dist ≡ none) ↔ ((m : ℕ) → ¬ Walk (links pair) pair.this_router v m))
dijkstra-IsShortest_example = dijkstra-IsShortest pair pair-IsClosed

-- The pair with the labels that dijkstra gives it.
pair_labelled : (s : Subsys) × (dijkstra pair ≡ done s)
pair_labelled = (
  record pair { heap = (dijkstra-IsShortest pair pair-IsClosed).0 },
  (dijkstra-IsShortest pair pair-IsClosed).1,
)

find_next_hop_shortest_example : Finds pair pair_labelled.0 1
find_next_hop_shortest_example =
    find_next_hop_shortest pair pair_labelled.0 1 pair-IsClosed
      (λ p i e. pair_unique p 0 i (inl refl) e) pair_labelled.1 (inr (inl refl))
      (λ e. omega (arith, e))

get_sequence-set_sequence_example : get_sequence (set_sequence pair 8 5) 8 ≡ 5
get_sequence-set_sequence_example = get_sequence-set_sequence pair 8 1 5 (inr (inl refl), refl)

abbrev pub alive : Neighbor
alive = record { id = 9; ip_address = 31; timenotvalid = 150 }

-- The pair with the interface that this router's subnet stands on.
abbrev pub wired : Subsys
wired = record pair {
  interfaces =
      record {
        address = 10;
        mask = 255;
        name = "eth0";
        helloint = 5;
        mac = [];
        neighbors = alive ∷ [];
        nbr_buf_size = 5;
        nbr_bytes = 40;
      }
      ∷ [];
}

pub wired-IsWellFormed : IsWellFormed wired
wired-IsWellFormed = record {
  inside = record { present = inl refl; closed = pair-closed };
  fresh = λ p i. ground (arith, i);
  unique = pair_unique;
  listed = pair-IsWellFormed.listed;
  distinct = pair-Nodup;
}

pub wired-HasInterfaces : HasInterfaces wired.interfaces (wired.heap 0).subnets
unfolding get_subnet_if
wired-HasInterfaces r (inl e) =
    subst (λ x. is_some (get_subnet_if wired.interfaces x) ≡ true) (sym e) refl
wired-HasInterfaces r (inr none_left) = absurd none_left

add_to_top-Settles_example :
    Settles (add_to_top wired 10 9 []) (λ t. Grows wired t × (p : ℕ) × Knows t 9 p)
add_to_top-Settles_example = add_to_top-Settles wired 10 9 [] wired-IsWellFormed

recompute-IsKeyed_example :
    (t : Subsys) × (recompute wired ≡ done t) × IsWellFormed t × IsKeyed t.fwrd_table
recompute-IsKeyed_example = recompute-IsKeyed wired wired-IsWellFormed wired-HasInterfaces

check_top_invalid-Kept_example :
    (t : Subsys) × (check_top_invalid wired 60 ≡ done t) × Kept wired 60 t
check_top_invalid-Kept_example =
    check_top_invalid-Kept wired 60 wired-IsWellFormed wired-HasInterfaces
