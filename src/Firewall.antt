-- ===== src/Firewall.antt =====
-- The firewall of fw.c and fw.h: the rule table, the flow table, and the interface lists.
pub mod Purge
pub mod Flow
pub mod Admission
pub mod Rules
use pwospf.Base.{
  ℕ, zero, suc, ◌+◌, ◌-◌, ◌*◌, Bool, true, false, ◌&&◌, ◌||◌, List, [], ◌∷◌, ◌++◌, Option, none,
  some, ltb, leb, ◌==◌, if◌then◌else◌, length, modify, String,
}
use mathlib.Core.Option
use text.Mathlib.Text.{◌==◌ as str_eq}

abbrev pub ttl_increment : ℕ
ttl_increment = 50

abbrev pub max_ttl_updates : ℕ
max_ttl_updates = 80

abbrev pub max_ft_size : ℕ
max_ft_size = 30

-- The header fields by which a packet is judged.
pub record Tuple : Type 0 where
  pub ip_s : ℕ
  pub ip_d : ℕ
  pub protocol : ℕ
  pub port_s : ℕ
  pub port_d : ℕ

-- struct ft_entry, in the flow table and in the rule table alike.
pub record FtEntry : Type 0 where
  pub key : Tuple
  pub open key use *
  pub exp_time : ℕ
  pub ttl_updates : ℕ

-- The part of struct sr_instance that the firewall owns.
pub record Firewall : Type 0 where
  pub flow_table : List FtEntry
  pub rules : List FtEntry
  pub ft_size : ℕ
  pub inter : List String
  pub exter : List String

unfoldable pub add_rule : Firewall → Tuple → Firewall
add_rule fw k = record fw {
  rules = fw.rules ++ record { key = k; exp_time = 0; ttl_updates = 0 } ∷ [];
}

-- Both walks over an interface list.
listed : List String → String → Bool
listed [] iface = false
listed (name ∷ rest) iface = if str_eq name iface then true else listed rest iface

unfoldable pub is_external : Firewall → String → Bool
unfolding listed
is_external fw iface = listed fw.exter iface

unfoldable pub is_internal : Firewall → String → Bool
unfolding listed
is_internal fw iface = listed fw.inter iface

-- One line of the interface file, after the scan: a name and its category.
add_interface : Firewall → String × String → Firewall
add_interface fw (if_name, category) =
    if str_eq category "external"
    then record fw { exter = fw.exter ++ if_name ∷ [] }
    else (if str_eq category "internal" then record fw { inter = fw.inter ++ if_name ∷ [] } else fw)

pub init_if_config : Firewall → List (String × String) → Firewall
unfolding add_interface
init_if_config fw [] = fw
init_if_config fw (line ∷ lines) = init_if_config (add_interface fw line) lines

-- The body of the walk over the rules. The third test compares the protocol with the address.
abbrev pub rule_matches : FtEntry → Tuple → Bool
rule_matches r k =
    (r.ip_s == k.ip_s || r.ip_s == 0)
    && (r.ip_d == k.ip_d || r.ip_d == 0)
    && (r.protocol == k.ip_d || r.protocol == 0)
    && (r.port_s == k.port_s || r.port_s == 0)
    && (r.port_d == k.port_d || r.port_d == 0)

rules_contain : List FtEntry → Tuple → Bool
rules_contain [] k = false
rules_contain (r ∷ rs) k = if rule_matches r k then true else rules_contain rs k

pub rule_contains : Firewall → Tuple → Bool
unfolding rules_contain
rule_contains fw k = rules_contain fw.rules k

-- The five comparisons of ft_contains.
abbrev pub same_tuple : Tuple → Tuple → Bool
same_tuple e k =
    e.ip_s == k.ip_s
    && e.ip_d == k.ip_d
    && e.protocol == k.protocol
    && e.port_s == k.port_s
    && e.port_d == k.port_d

abbrev pub is_current : FtEntry → ℕ → Bool
is_current e now = leb now e.exp_time && leb e.ttl_updates max_ttl_updates

-- The pointer that ft_contains returns is the position of the entry in the table.
unfoldable pub flow_position : List FtEntry → Tuple → ℕ → Option ℕ
flow_position [] k now = none
flow_position (e ∷ es) k now =
    if same_tuple e.key k && is_current e now
    then some 0
    else Option.map suc (flow_position es k now)

unfoldable pub ft_contains : Firewall → Tuple → ℕ → Option ℕ
unfolding flow_position
ft_contains fw k now = flow_position fw.flow_table k now

-- `ent->exp_time += TTL_INCREMENT; ent->ttl_updates++;` on an unsigned counter.
abbrev pub refresh : FtEntry → FtEntry
refresh e = record e { exp_time = e.exp_time + ttl_increment; ttl_updates = e.ttl_updates + 1 }

pub check_connection : Firewall → Tuple → ℕ → Firewall × Bool
check_connection fw k now =
    if rule_contains fw k then (fw, true) else (elim (ft_contains fw k now) [
      | none ↦ (fw, false)
      | some i ↦ (record fw { flow_table = modify fw.flow_table i refresh }, true)
    ])

abbrev pub new_entry : Tuple → ℕ → FtEntry
new_entry k now = record { key = k; exp_time = now + ttl_increment; ttl_updates = 0 }

pub add_connect : Firewall → Tuple → ℕ → Firewall
add_connect fw k now = record fw {
  flow_table = fw.flow_table ++ new_entry k now ∷ [];
  ft_size = fw.ft_size + 1;
}

abbrev pub is_stale : FtEntry → ℕ → Bool
is_stale e now = ltb max_ttl_updates e.ttl_updates || ltb e.exp_time now

abbrev pub tail : List FtEntry → List FtEntry
tail [] = []
tail (e ∷ es) = es

-- The loop of remove_stale_entries: the table, its size, and the walker as the rest of the table
-- from there on. `prev` is never assigned, so a stale entry always takes the first branch, which
-- unlinks the head of the table and starts again from the new head. `none`: the fuel ran out.
pub purge : ℕ → ℕ → List FtEntry → ℕ → List FtEntry → Option (List FtEntry × ℕ)
purge fuel now table size [] = some (table, size)
purge zero now table size (w ∷ ws) = none
purge (suc fuel) now table size (w ∷ ws) =
    let restart = purge fuel now (tail table) (size - 1) (tail table) in
    let onward = purge fuel now table size ws in if is_stale w now then restart else onward

-- Each of the n unlinkings is followed by a walk of at most n steps.
abbrev pub purge_fuel : List FtEntry → ℕ
purge_fuel es = suc (length es) * suc (length es)

pub remove_stale_entries : Firewall → ℕ → Option Firewall
remove_stale_entries fw now =
    Option.map (λ (t, n). record fw { flow_table = t; ft_size = n })
      (purge (purge_fuel fw.flow_table) now fw.flow_table fw.ft_size fw.flow_table)

-- The last branch of tell_valid, after the purge.
admit : Firewall → Tuple → ℕ → Firewall × Bool
unfolding add_connect
admit fw k now = if ltb fw.ft_size max_ft_size then (add_connect fw k now, true) else (fw, false)

unfoldable pub tell_valid : Firewall → Tuple → ℕ → Option (Firewall × Bool)
unfolding admit
tell_valid fw k now = elim (ft_contains fw k now) [
  | some i ↦ some (record fw { flow_table = modify fw.flow_table i refresh }, true)
  | none ↦
      if ltb fw.ft_size max_ft_size
      then some (add_connect fw k now, true)
      else Option.map (λ g. admit g k now) (remove_stale_entries fw now)
]
