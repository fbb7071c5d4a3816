-- ===== src/Server/Table.antt =====
-- sr_verify_routing_table of sr_main.c.
use pwospf.Base.{◌≡◌, ◌≢◌, ◌↔◌, refl, inl, inr, List, [], ◌∷◌, some, Option-cases, All, arith}
use pwospf.Routing.{SrIf, SrRt, sr_get_interface}
use pwospf.Server.{missing_interfaces, sr_verify_routing_table}

-- The interface of a route exists.
abbrev pub Exists : List SrIf → SrRt → Type 0
Exists if_list rt = (i : SrIf) × (sr_get_interface if_list rt.interface ≡ some i)

missing_interfaces-none :
    (if_list : List SrIf) (table : List SrRt)
    → (missing_interfaces if_list table ≡ 0) ↔ All (Exists if_list) table
unfolding missing_interfaces
missing_interfaces-none if_list [] = (λ _. tt, λ _. refl)
missing_interfaces-none if_list (rt ∷ table) =
    let rest = missing_interfaces-none if_list table in
    elim (Option-cases (sr_get_interface if_list rt.interface)) [
      | inl e ↦ rw e (
        λ z. absurd (ground (arith, z)),
        λ a. let found = a.0.1 in absurd (ground (arith, found)),
      )
      | inr (i, e) ↦ rw e (λ z. ((i, refl), rest.0 z), λ a. rest.1 a.1)
    ]

-- sr_verify_routing_table gives 0 exactly if there is an interface, there is a route, and each route
-- names an interface that exists.
pub sr_verify_routing_table-zero_iff :
    (if_list : List SrIf) (table : List SrRt)
    → (sr_verify_routing_table if_list table ≡ 0)
      ↔ ((if_list ≢ []) × (table ≢ []) × All (Exists if_list) table)
unfolding sr_verify_routing_table
sr_verify_routing_table-zero_iff [] table = (λ z. absurd (omega (arith, z)), λ a. absurd (a.0 refl))
sr_verify_routing_table-zero_iff (i ∷ ifs) [] =
    (λ z. absurd (omega (arith, z)), λ (x, some_route, y). absurd (some_route refl))
sr_verify_routing_table-zero_iff (i ∷ ifs) (rt ∷ table) =
    let all = missing_interfaces-none (i ∷ ifs) (rt ∷ table) in
    (
      λ z. (λ e. absurd (ground (arith, e)), λ e. absurd (ground (arith, e)), all.0 z),
      λ a. all.1 a.2,
    )
