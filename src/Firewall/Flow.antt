-- ===== src/Firewall/Flow.antt =====
-- check_connection and tell_valid of fw.c: the flow table as a bounded set of live connections.
use pwospf.Base.{
  ℕ, suc, ◌≤◌, ◌≡◌, ◌↔◌, ◌⊎◌, refl, true, ◌&&◌, List, [], ◌∷◌, some, inl, inr, arith, In, length,
  Bool-cases, Option-cases, length-modify, if-all, String, ◌++◌,
}
use text.Mathlib.Text.{◌==◌ as str_eq}
use pwospf.Firewall.{
  FtEntry, Firewall, Tuple, max_ft_size, same_tuple, is_current, flow_position, ft_contains,
  rule_contains, check_connection, refresh, add_interface, init_if_config, add_rule,
}

-- The counter is the length of the table, and the table is within its limit.
pub record IsSized (fw : Firewall) : Type 0 where
  pub counted : fw.ft_size ≡ length fw.flow_table
  pub bounded : length fw.flow_table ≤ max_ft_size

abbrev pub Serves : Tuple → ℕ → FtEntry → Type 0
Serves k now e = (same_tuple e.key k && is_current e now) ≡ true

position_sound :
    (es : List FtEntry) (k : Tuple) (now i : ℕ)
    → flow_position es k now ≡ some i
    → (e : FtEntry) × In e es × Serves k now e
unfolding flow_position
position_sound [] k now i h = cc
position_sound (e ∷ es) k now i h = elim (Bool-cases (same_tuple e.key k && is_current e now)) [
  | inl hit ↦ (e, inl refl, hit)
  | inr miss ↦ elim (Option-cases (flow_position es k now)) [
    | inl nowhere ↦ absurd (ground arith)
    | inr (j, found) ↦
        let (e', at, serves) = position_sound es k now j found in (e', inr at, serves)
  ]
]

position_complete :
    (es : List FtEntry) (k : Tuple) (now : ℕ) (e : FtEntry)
    → In e es
    → Serves k now e
    → (i : ℕ) × (flow_position es k now ≡ some i)
unfolding flow_position
position_complete [] k now e at serves = absurd at
position_complete (x ∷ es) k now e (inl same) serves = (0, rw (← same, serves))
position_complete (x ∷ es) k now e (inr at) serves =
    elim (Bool-cases (same_tuple x.key k && is_current x now)) [
      | inl hit ↦ (0, rw hit)
      | inr miss ↦
          let (i, found) = position_complete es k now e at serves in (suc i, rw (miss, found))
    ]

-- A connection passes exactly when the rule table passes it or an entry of the flow table has its
-- five fields, has not expired and has been renewed at most 80 times.
pub check_connection_iff :
    (fw : Firewall) (k : Tuple) (now : ℕ)
    → ((check_connection fw k now).1 ≡ true)
      ↔ ((rule_contains fw k ≡ true) ⊎ ((e : FtEntry) × In e fw.flow_table × Serves k now e))
unfolding check_connection ft_contains
check_connection_iff fw k now = (there, back)
  where
    there :
        (check_connection fw k now).1 ≡ true
        → (rule_contains fw k ≡ true) ⊎ ((e : FtEntry) × In e fw.flow_table × Serves k now e)
    there h = elim (Bool-cases (rule_contains fw k)) [
      | inl passes ↦ inl passes
      | inr blocked ↦ elim (Option-cases (flow_position fw.flow_table k now)) [
        | inl nowhere ↦ absurd (ground arith)
        | inr (i, found) ↦ inr (position_sound fw.flow_table k now i found)
      ]
    ]

    back :
        (rule_contains fw k ≡ true) ⊎ ((e : FtEntry) × In e fw.flow_table × Serves k now e)
        → (check_connection fw k now).1 ≡ true
    back (inl passes) = rw passes
    back (inr (e, at, serves)) =
        let (i, found) = position_complete fw.flow_table k now e at serves in ground arith

-- check_connection leaves the length of the table and its counter.
pub check_connection-IsSized :
    (fw : Firewall) (k : Tuple) (now : ℕ) → IsSized fw → IsSized (check_connection fw k now).0
unfolding check_connection
check_connection-IsSized fw k now s = elim (Bool-cases (rule_contains fw k)) [
  | inl ruled ↦ rw (ruled, check_connection) s
  | inr unruled ↦ elim (Option-cases (ft_contains fw k now)) [
    | inl e ↦ rw (unruled, e, check_connection) s
    | inr (i, e) ↦
        rw (unruled, e, check_connection)
          (record {
            counted = omega (arith, s.counted, length-modify fw.flow_table i refresh);
            bounded = omega (arith, s.bounded, length-modify fw.flow_table i refresh);
          })
  ]
]

add_interface-IsSized :
    (fw : Firewall) (l : String × String) → IsSized fw → IsSized (add_interface fw l)
unfolding add_interface
add_interface-IsSized fw (name, category) s =
    let kept : (i e : List String) → IsSized (record fw { inter = i; exter = e }) =
      λ i e. record { counted = s.counted; bounded = s.bounded } in
    if-all IsSized (str_eq category "external") (kept fw.inter (fw.exter ++ name ∷ []))
      (if-all IsSized (str_eq category "internal") (kept (fw.inter ++ name ∷ []) fw.exter) s)

-- The readers of the configuration leave the flow table.
pub init_if_config-IsSized :
    (fw : Firewall) (lines : List (String × String))
    → IsSized fw
    → IsSized (init_if_config fw lines)
unfolding init_if_config
init_if_config-IsSized fw [] s = s
init_if_config-IsSized fw (l ∷ lines) s =
    init_if_config-IsSized (add_interface fw l) lines (add_interface-IsSized fw l s)

pub add_rule-IsSized : (fw : Firewall) (k : Tuple) → IsSized fw → IsSized (add_rule fw k)
unfolding add_rule
add_rule-IsSized fw k s = record { counted = s.counted; bounded = s.bounded }
