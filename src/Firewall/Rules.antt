-- ===== src/Firewall/Rules.antt =====
-- rule_contains of fw.c: what the rule table lets through.
use pwospf.Base.{
  ℕ, ◌≤◌, ◌<◌, ◌≡◌, ◌↔◌, ◌⊎◌, refl, true, false, List, [], ◌∷◌, inl, inr, arith, All, In,
  Bool-cases,
}
use pwospf.Firewall.{FtEntry, Firewall, Tuple, rule_matches, rules_contain, rule_contains}

-- The field of a rule is a wildcard, or has the value.
abbrev pub Allows : ℕ → ℕ → Type 0
Allows field value = (field ≡ value) ⊎ (field ≡ 0)

abbrev pub Fits : FtEntry → Tuple → Type 0
Fits r k =
    Allows r.ip_s k.ip_s
    × Allows r.ip_d k.ip_d
    × Allows r.protocol k.ip_d
    × Allows r.port_s k.port_s
    × Allows r.port_d k.port_d

rule_matches_iff : (r : FtEntry) (k : Tuple) → (rule_matches r k ≡ true) ↔ Fits r k
rule_matches_iff r k = (λ h. ground arith, λ h. ground arith)

contain_sound :
    (rs : List FtEntry) (k : Tuple) → rules_contain rs k ≡ true → (r : FtEntry) × In r rs × Fits r k
unfolding rules_contain
contain_sound [] k h = cc
contain_sound (r ∷ rs) k h = elim (Bool-cases (rule_matches r k)) [
  | inl fits ↦ (r, inl refl, (rule_matches_iff r k).0 fits)
  | inr other ↦ let (r', at, fits) = contain_sound rs k (rw other at h) in (r', inr at, fits)
]

contain_complete :
    (rs : List FtEntry) (k : Tuple) (r : FtEntry) → In r rs → Fits r k → rules_contain rs k ≡ true
unfolding rules_contain
contain_complete [] k r at fits = absurd at
contain_complete (x ∷ rs) k r (inl e) fits = rw (← e, (rule_matches_iff r k).1 fits)
contain_complete (x ∷ rs) k r (inr at) fits = ground (arith, contain_complete rs k r at fits)

-- The rule table passes a packet exactly when some rule of it fits: each field of the rule is 0 or
-- has the packet's value, where the protocol of the rule stands against the packet's destination
-- address.
pub rule_contains_iff :
    (fw : Firewall) (k : Tuple)
    → (rule_contains fw k ≡ true) ↔ ((r : FtEntry) × In r fw.rules × Fits r k)
unfolding rule_contains
rule_contains_iff fw k =
    (contain_sound fw.rules k, λ (r, at, fits). contain_complete fw.rules k r at fits)

named-block :
    (rs : List FtEntry) (k : Tuple)
    → All (λ r. (0 < r.protocol) × (r.protocol < 256)) rs
    → 256 ≤ k.ip_d
    → rules_contain rs k ≡ false
unfolding rules_contain
named-block [] k named address = refl
named-block (r ∷ rs) k named address = ground (arith, named-block rs k named.1)

-- Where every rule names a protocol (1 to 255), no packet to an address of 256 or more passes,
-- whatever its protocol is.
pub rule_contains-protocol :
    (fw : Firewall) (k : Tuple)
    → All (λ r. (0 < r.protocol) × (r.protocol < 256)) fw.rules
    → 256 ≤ k.ip_d
    → rule_contains fw k ≡ false
unfolding rule_contains
rule_contains-protocol fw k named address = named-block fw.rules k named address
