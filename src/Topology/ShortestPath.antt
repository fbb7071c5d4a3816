-- ===== src/Topology/ShortestPath.antt =====
-- dijkstra, get_smallest_unknown and find_next_hop of top_info.c.
pub mod Invariant
mod Smallest
mod Visit
pub mod Rounds
pub mod Correct
pub mod Hops
use pwospf.Base.{
  ℕ, zero, suc, ◌+◌, Bool, true, false, ◌&&◌, ◌||◌, not, List, [], ◌∷◌, Option, none, some, ltb,
  ◌==◌, if◌then◌else◌, length, ◌>>=◌, Outcome, done, aborted, out_of_fuel,
}
use mathlib.Core.Option
use pwospf.Topology.{Router, Heap, put, Subsys}

-- The first loop: every router is unknown and unreached.
pub reset : Heap → List ℕ → Heap
reset h [] = h
reset h (p ∷ ps) = reset (put h p (record (h p) { known = false; dist = none; prev = none })) ps

-- A distance below another, where -1 is no distance.
abbrev pub closer : ℕ → Option ℕ → Bool
closer d none = true
closer d (some e) = ltb d e

-- get_smallest_unknown from a node on, with the best so far. A node that improves on it is visited
-- once more, and then takes the last branch.
pub smallest : Heap → List ℕ → Option (ℕ × ℕ) → Option (ℕ × ℕ)
smallest h [] best = best
smallest h (p ∷ ps) best = smallest h ps (
    if (h p).known then best else (elim (h p).dist [
      | none ↦ best
      | some d ↦ if closer d (Option.map (λ b. b.0) best) then some (d, p) else best
    ]))

-- The router found; its distance is carried along as `min_dist`.
pub get_smallest_unknown : Heap → List ℕ → Option (ℕ × ℕ)
unfolding smallest
get_smallest_unknown h network = smallest h network none

-- The body of the inner loop, at distance `d` of the router `u`.
pub relax : ℕ → ℕ → Heap → ℕ → Heap
relax u d h w =
    if (h w).known
    then h
    else (if closer (d + 1) (h w).dist
        then put h w (record (h w) { dist = some (d + 1); prev = some u })
        else h)

pub relax_all : ℕ → ℕ → Heap → List ℕ → Heap
unfolding relax
relax_all u d h [] = h
relax_all u d h (w ∷ ws) = relax_all u d (relax u d h w) ws

-- The body of the outer loop.
pub visit : Heap → ℕ → ℕ → Heap
unfolding relax_all
visit h u d = relax_all u d (put h u (record (h u) { known = true })) (h u).adjacencies

-- The outer loop. Each round makes one more router known.
pub search_paths : ℕ → List ℕ → Heap → Outcome Heap
search_paths zero network h = elim (get_smallest_unknown h network) [
  | none ↦ done h
  | some _ ↦ out_of_fuel
]
search_paths (suc fuel) network h = elim (get_smallest_unknown h network) [
  | none ↦ done h
  | some (d, u) ↦ search_paths fuel network (visit h u d)
]

-- The state in which the outer loop starts.
pub start_paths : Subsys → Heap
unfolding reset
start_paths s =
    let h = reset s.heap s.network in
    put h s.this_router (record (h s.this_router) { dist = some 0 })

-- The argument `host` of the source is never read.
unfoldable pub dijkstra : Subsys → Outcome Subsys
unfolding start_paths
dijkstra s =
    search_paths (length s.network) s.network (start_paths s) >>= λ h. done (record s { heap = h })

-- What find_next_hop returns, with `*hops`: NULL and 0, NULL and -1, or a router and the count.
pub data NextHop : Type 0 where
  itself : NextHop
  unreachable : NextHop
  via : ℕ → ℕ → NextHop

-- The loop of find_next_hop, at the router `cur`.
unfoldable pub chase : ℕ → Heap → ℕ → ℕ → ℕ → Outcome NextHop
chase zero h this_rid cur numhops = out_of_fuel
chase (suc fuel) h this_rid cur numhops = elim (h cur).prev [
  | none ↦ done unreachable
  | some q ↦
      let rest = chase fuel h this_rid q (numhops + 1) in
      if (h q).rid == this_rid then done (via cur numhops) else rest
]

-- The fuel is the label of the destination: each step back lowers it.
unfoldable pub find_next_hop : Subsys → ℕ → Outcome NextHop
unfolding chase
find_next_hop s dest =
    let this_rid = (s.heap s.this_router).rid in
    if (s.heap dest).rid == this_rid
    then done itself
    else chase (suc (Option.get_or (s.heap dest).dist 0)) s.heap this_rid dest 1
