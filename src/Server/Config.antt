-- ===== src/Server/Config.antt =====
-- The files that are read at the start: init_rules_table (fw.c), sr_load_rt (sr_rt.c), read_config
-- (sr_pwospf.c), and sr_init (sr_router.c). A file that cannot be read is `none`, else its lines.
pub mod Reading
use pwospf.Base.{
  ℕ, zero, suc, ◌%◌, ◌^◌, ◌≡◌, refl, ap, sym, ◌∙◌, Bool, true, false, List, [], ◌∷◌, ◌++◌, map,
  append_assoc, append-nil, Option, none, some, String, Outcome, done, aborted, if◌then◌else◌,
}
use pwospf.Firewall.{Firewall, FtEntry, Tuple, add_rule, init_if_config}
use pwospf.Routing.{SrRt, sr_add_rt_entry}

-- The variables that sscanf sets for a line of the rule table.
pub record RuleLine : Type 0 where
  pub source_ip_in : String
  pub dest_ip_in : String
  pub ip_protocol : ℕ
  pub src_port : ℕ
  pub dst_port : ℕ

-- The variables that sscanf sets for a line of the routing table.
pub record RouteLine : Type 0 where
  pub dest : String
  pub gw : String
  pub mask : String
  pub iface : String

-- The variables after each line; those that sscanf does not set keep their values.
abbrev pub scanned : {S : Type 0} → (S → String → S) → S → List String → List S
scanned sscanf vars [] = []
scanned sscanf vars (line ∷ lines) = sscanf vars line ∷ scanned sscanf (sscanf vars line) lines

-- The address that inet_aton gives for a text, if it is one.
module _ (inet_aton : String → Option ℕ) where
  -- The tuple of a line, cut to the widths of the parameters of add_rule.
  unfoldable pub rule_of : RuleLine → Option Tuple
  rule_of l = elim (inet_aton l.source_ip_in) [
    | none ↦ none
    | some src ↦ elim (inet_aton l.dest_ip_in) [
      | none ↦ none
      | some dst ↦ some (record {
        ip_s = src;
        ip_d = dst;
        protocol = l.ip_protocol % 2 ^ 8;
        port_s = l.src_port % 2 ^ 16;
        port_d = l.dst_port % 2 ^ 16;
      })
    ]
  ]

  -- The loop of init_rules_table, with its result.
  unfoldable pub add_rules : Firewall → List RuleLine → Firewall × Bool
  unfolding rule_of
  add_rules fw [] = (fw, true)
  add_rules fw (l ∷ ls) = elim (rule_of l) [
    | none ↦ (fw, false)
    | some k ↦ add_rules (add_rule fw k) ls
  ]

  unfoldable pub init_rules_table :
      (RuleLine → String → RuleLine) → RuleLine → Firewall → Option (List String) → Firewall × Bool
  unfolding add_rules
  init_rules_table sscanf vars fw none = (fw, false)
  init_rules_table sscanf vars fw (some lines) = add_rules fw (scanned sscanf vars lines)

  pub route_of : RouteLine → Option SrRt
  route_of l = elim (inet_aton l.dest) [
    | none ↦ none
    | some dest ↦ elim (inet_aton l.gw) [
      | none ↦ none
      | some gw ↦ elim (inet_aton l.mask) [
        | none ↦ none
        | some mask ↦ some (record { dest = dest; gw = gw; mask = mask; interface = l.iface })
      ]
    ]
  ]

  -- The loop of sr_load_rt; `true` is its result 0, and `false` -1.
  add_routes : List SrRt → List RouteLine → List SrRt × Bool
  unfolding route_of
  add_routes table [] = (table, true)
  add_routes table (l ∷ ls) = elim (route_of l) [
    | none ↦ (table, false)
    | some r ↦ add_routes (sr_add_rt_entry table r.dest r.gw r.mask r.interface) ls
  ]

  pub sr_load_rt :
      (RouteLine → String → RouteLine)
      → RouteLine
      → List SrRt
      → Option (List String)
      → List SrRt × Bool
  unfolding add_routes
  sr_load_rt sscanf vars table none = (table, false)
  sr_load_rt sscanf vars table (some lines) = add_routes table (scanned sscanf vars lines)

  -- sr_init, up to arp_init: both readers are in an `assert`. The lines of the second file are
  -- given as they are scanned.
  unfoldable pub sr_init :
      (RuleLine → String → RuleLine)
      → RuleLine
      → Option (List String)
      → Option (List (String × String))
      → Outcome Firewall
  unfolding init_rules_table
  sr_init sscanf vars rules ifaces =
      let empty : Firewall = record {
        flow_table = [];
        rules = [];
        ft_size = 0;
        inter = [];
        exter = [];
      } in
      let (fw, loaded) = init_rules_table sscanf vars empty rules in
      if loaded
      then (elim ifaces [ none ↦ aborted | some lines ↦ done (init_if_config fw lines) ])
      else aborted

-- The last number of the file, or what the variable held. A file that cannot be read gives 0.
pub read_config : (ℕ → String → ℕ) → ℕ → Option (List String) → ℕ
read_config sscanf aid none = 0
read_config sscanf aid (some []) = aid
read_config sscanf aid (some (line ∷ lines)) = read_config sscanf (sscanf aid line) (some lines)
