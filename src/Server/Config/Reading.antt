-- ===== src/Server/Config/Reading.antt =====
-- The readers of the configuration: what they take from a file, and where they stop.
use pwospf.Base.{
  ℕ, ◌≡◌, ◌⊎◌, refl, inl, inr, Bool, true, false, List, [], ◌∷◌, ◌++◌, map, Option, none, some,
  Option-cases, String, done, aborted, arith, Settles, if◌then◌else◌,
}
use pwospf.Firewall.{Firewall, add_rule, init_if_config}
use pwospf.Firewall.Flow.{IsSized, init_if_config-IsSized, add_rule-IsSized}
use pwospf.Server.Config.{RuleLine, scanned, rule_of, add_rules, init_rules_table, sr_init}

-- The lines of `front` are read, each as one of `rs`, and the reader has reached the end, with the
-- result `true`, or stands before a line that it cannot read, with the result `false`.
pub record Reads {L R : Type 0} (f : L → Option R) (lines : List L) (rs : List R) (ok : Bool)
    : Type 0 where
  pub front : List L
  pub rest : List L
  pub split : lines ≡ front ++ rest
  pub read : map f front ≡ map (λ r. some r) rs
  pub stop :
      ((ok ≡ true) × (rest ≡ []))
      ⊎ ((ok ≡ false) × (bad : L) × (more : List L) × (rest ≡ bad ∷ more) × (f bad ≡ none))

module _ (inet_aton : String → Option ℕ) where
  add_rules-IsSized :
      (fw : Firewall) (ls : List RuleLine) → IsSized fw → IsSized (add_rules inet_aton fw ls).0
  unfolding add_rules
  add_rules-IsSized fw [] s = s
  add_rules-IsSized fw (l ∷ ls) s = elim (Option-cases (rule_of inet_aton l)) [
    | inl e ↦ rw (e, add_rules) s
    | inr (k, e) ↦
        rw (e, add_rules) (add_rules-IsSized (add_rule fw k) ls (add_rule-IsSized fw k s))
  ]

  init_rules_table-IsSized :
      (sscanf : RuleLine → String → RuleLine) (vars : RuleLine) (fw : Firewall)
      (file : Option (List String))
      → IsSized fw
      → IsSized (init_rules_table inet_aton sscanf vars fw file).0
  unfolding init_rules_table
  init_rules_table-IsSized sscanf vars fw none s = s
  init_rules_table-IsSized sscanf vars fw (some lines) s =
      add_rules-IsSized fw (scanned sscanf vars lines) s

  pub sr_init-IsSized :
      (sscanf : RuleLine → String → RuleLine) (vars : RuleLine) (rules : Option (List String))
      (ifaces : Option (List (String × String)))
      → Settles (sr_init inet_aton sscanf vars rules ifaces) IsSized
  unfolding sr_init
  sr_init-IsSized sscanf vars rules ifaces =
      let empty : Firewall = record {
        flow_table = [];
        rules = [];
        ft_size = 0;
        inter = [];
        exter = [];
      } in
      let s =
        init_rules_table-IsSized sscanf vars empty rules
          (record { counted = refl; bounded = omega arith }) in
      by (init_rules_table inet_aton sscanf vars empty rules).0
        (init_rules_table inet_aton sscanf vars empty rules).1 ifaces s
    where
      by :
          (fw : Firewall) (loaded : Bool) (file : Option (List (String × String)))
          → IsSized fw
          → Settles
              (if loaded
                then (elim file [ none ↦ aborted | some lines ↦ done (init_if_config fw lines) ])
                else aborted)
              IsSized
      by fw true none s = tt
      by fw true (some lines) s = init_if_config-IsSized fw lines s
      by fw false file s = tt
