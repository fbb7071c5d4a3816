-- ===== src/Tests/FirewallCases.antt =====
-- The theorems on the firewall at concrete inputs.
use pwospf.Base.{
  ◌≡◌, ◌↔◌, ◌⊎◌, refl, List, [], ◌∷◌, Bool, true, false, none, some, length, any, In, arith,
}
use pwospf.Firewall.{
  Tuple, FtEntry, Firewall, max_ft_size, ft_contains, flow_position, rule_contains,
  check_connection, tell_valid, remove_stale_entries, is_stale, refresh,
}
use pwospf.Firewall.Flow.{IsSized, Serves, check_connection_iff}
use pwospf.Firewall.Purge.{Cut, any_stale, remove_stale_entries_lem}
use pwospf.Firewall.Rules.{Fits, rule_contains_iff, rule_contains-protocol}
use pwospf.Firewall.Admission.{
  tell_valid-IsSized, tell_valid-refuses_iff, tell_valid-check_connection,
}

abbrev web : Tuple
web = record { ip_s = 167772161; ip_d = 167772162; protocol = 6; port_s = 80; port_d = 5000 }

abbrev fresh_entry : FtEntry
fresh_entry = record { key = web; exp_time = 150; ttl_updates = 0 }

abbrev stale_entry : FtEntry
stale_entry = record { key = web; exp_time = 90; ttl_updates = 3 }

abbrev tcp_rule : FtEntry
tcp_rule = record {
  key = record { ip_s = 0; ip_d = 0; protocol = 6; port_s = 0; port_d = 0 };
  exp_time = 0;
  ttl_updates = 0;
}

abbrev pub wall : Firewall
wall = record {
  flow_table = fresh_entry ∷ stale_entry ∷ fresh_entry ∷ [];
  rules = tcp_rule ∷ [];
  ft_size = 3;
  inter = "eth0" ∷ [];
  exter = "eth1" ∷ [];
}

pub wall-IsSized : IsSized wall
wall-IsSized = record { counted = refl; bounded = omega arith }

-- The wall after the connection has been renewed.
abbrev renewed_wall : Firewall
renewed_wall = record wall { flow_table = refresh fresh_entry ∷ stale_entry ∷ fresh_entry ∷ [] }

wall-tell_valid : tell_valid wall web 100 ≡ some (renewed_wall, true)
unfolding tell_valid ft_contains flow_position
wall-tell_valid = refl

remove_stale_entries_lem_example :
    (kept : List FtEntry) × (remove_stale_entries wall 100
      ≡ some (record wall { flow_table = kept; ft_size = length kept }))
    × (any (λ e. is_stale e 100) kept ≡ false)
    × Cut 100 wall.flow_table kept
remove_stale_entries_lem_example = remove_stale_entries_lem wall 100 refl

rule_contains_iff_example :
    (rule_contains wall web ≡ true) ↔ ((r : FtEntry) × In r wall.rules × Fits r web)
rule_contains_iff_example = rule_contains_iff wall web

rule_contains-protocol_example : rule_contains wall web ≡ false
rule_contains-protocol_example =
    rule_contains-protocol wall web ((omega arith, omega arith), tt) (omega arith)

check_connection_iff_example :
    ((check_connection wall web 100).1 ≡ true)
    ↔ ((rule_contains wall web ≡ true) ⊎ ((e : FtEntry) × In e wall.flow_table × Serves web 100 e))
check_connection_iff_example = check_connection_iff wall web 100

tell_valid-IsSized_example :
    (g : Firewall) × (b : Bool) × (tell_valid wall web 100 ≡ some (g, b)) × IsSized g
tell_valid-IsSized_example = tell_valid-IsSized wall web 100 wall-IsSized

tell_valid-refuses_iff_example :
    (g : Firewall) × (b : Bool) × (tell_valid wall web 100 ≡ some (g, b))
    × ((b ≡ false) ↔ (
        (ft_contains wall web 100 ≡ none)
        × (wall.ft_size ≡ max_ft_size)
        × (any_stale 100 wall.flow_table ≡ false)))
    × ((b ≡ true) ⊎ (g ≡ wall))
tell_valid-refuses_iff_example = tell_valid-refuses_iff wall web 100 wall-IsSized

tell_valid-check_connection_example : (check_connection renewed_wall web 100).1 ≡ true
tell_valid-check_connection_example =
    tell_valid-check_connection wall renewed_wall web 100 wall-IsSized
      (omega arith, (omega arith, (omega arith, tt))) wall-tell_valid
