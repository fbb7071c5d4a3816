-- ===== src/Pwospf/Start.antt =====
-- pwospf_init of sr_pwospf.c, against the invariant of the topology.
use pwospf.Base.{
  ℕ, ◌≡◌, refl, List, [], ◌∷◌, map, length, In, Nodup, ap, inl, some, done, arith, subst, sym, ◌∙◌,
  suc, inr, Settles, Option-cases, Outcome, if-all, if◌then◌else◌, ◌==◌, bit_and, bit_or, false,
  ltb, ◌*◌, ◌≤◌,
}
use pwospf.Routing.{SrIf, sr_get_interface}
use pwospf.Wire.{htonl}
use pwospf.Topology.{Router, Subsys, Route, FtableEntry, PwospfIf}
use pwospf.Topology.ShortestPath.Correct.{links}
use pwospf.Topology.Edit.{add_new_router}
use pwospf.Topology.WellFormed.{IsWellFormed}
use pwospf.Pwospf.{
  create_iface, blank, iface_route, iface_entry, started, create_pwospf_ifaces, pwospf_init,
}

length-ifaces : (ifs : List SrIf) → length (create_pwospf_ifaces ifs) ≡ length ifs
unfolding create_pwospf_ifaces
length-ifaces [] = refl
length-ifaces (i ∷ ifs) = ap suc (length-ifaces ifs)

module _ (ifs : List SrIf) (now area : ℕ) (nothing : Router) (eth0 : SrIf) where
  only : (p : ℕ) → In p (started ifs now area nothing eth0).network → p ≡ 0
  unfolding started add_new_router blank
  only p (inl same) = same
  only p (inr none_left) = absurd none_left

  no_links : (p : ℕ) → p ≡ 0 → links (started ifs now area nothing eth0) p ≡ []
  unfolding started add_new_router blank
  no_links p e = ap (λ x. ((started ifs now area nothing eth0).heap x).adjacencies) e

  started-IsWellFormed : IsWellFormed (started ifs now area nothing eth0)
  unfolding started add_new_router blank
  started-IsWellFormed = record {
    inside = record {
      present = inl refl;
      closed = λ p q i j. absurd (subst (In q) (no_links p (only p i)) j);
    };
    fresh = λ p i. omega (arith, only p i);
    unique = λ p q i j _. only p i ∙ sym (only q j);
    listed = ((λ i. i), tt);
    distinct = λ p i. subst Nodup (sym (no_links p (only p i))) tt;
  }

-- The net of an interface, as the theorem below has it: the address without its last bit in network
-- order, with a mask for two addresses; the next hop is the other of the two.
abbrev pub near : SrIf → Route
near i =
    let mask = htonl 0xfffffffe in
    record {
      prefix = bit_and i.ip mask;
      mask = mask;
      next_hop =
          if bit_and i.ip mask == i.ip then htonl (bit_or (htonl i.ip) 1) else bit_and i.ip mask;
      r_id = 0;
    }

abbrev pub near_entry : SrIf → FtableEntry
near_entry i = record {
  prefix = (near i).prefix;
  mask = (near i).mask;
  next_hop = (near i).next_hop;
  interface = i.name;
  num_hops = 0;
}

abbrev pub watched : SrIf → PwospfIf
watched i = record {
  address = i.ip;
  mask = htonl 0xfffffffe;
  name = i.name;
  mac = i.addr;
  helloint = 5;
  neighbors = [];
  nbr_buf_size = 5;
  nbr_bytes = 40;
}

near-all : (ifs : List SrIf) → map iface_route (create_pwospf_ifaces ifs) ≡ map near ifs
unfolding create_pwospf_ifaces create_iface iface_route
near-all [] = refl
near-all (i ∷ ifs) = ap (λ l. near i ∷ l) (near-all ifs)

entry-all : (ifs : List SrIf) → map iface_entry (create_pwospf_ifaces ifs) ≡ map near_entry ifs
unfolding create_pwospf_ifaces create_iface iface_route iface_entry
entry-all [] = refl
entry-all (i ∷ ifs) = ap (λ l. near_entry i ∷ l) (entry-all ifs)

watched-all : (ifs : List SrIf) → create_pwospf_ifaces ifs ≡ map watched ifs
unfolding create_pwospf_ifaces create_iface
watched-all [] = refl
watched-all (i ∷ ifs) = ap (λ l. watched i ∷ l) (watched-all ifs)

-- With an interface eth0 and at most 10 interfaces, pwospf_init ends, with no array written past its
-- end, in a well-formed topology of this router alone. The router has the address of eth0 as its
-- identifier. In the order of the interfaces, each has an interface of PWOSPF with its name and
-- addresses and no neighbors; a subnet, which is its address without the last bit, with a mask for two
-- addresses and the other of them as the next hop; and an entry of the forwarding table for that
-- subnet, with its name and no hop.
pub pwospf_init-IsWellFormed :
    (ifs : List SrIf) (now area : ℕ) (nothing : Router) (eth0 : SrIf)
    → sr_get_interface ifs "eth0" ≡ some eth0
    → length ifs ≤ 10
    → (s : Subsys) × (pwospf_init ifs now area nothing ≡ done s)
      × IsWellFormed s
      × (s.network ≡ s.this_router ∷ [])
      × ((s.heap s.this_router).rid ≡ eth0.ip)
      × (s.overrun ≡ false)
      × (s.interfaces ≡ map watched ifs)
      × ((s.heap s.this_router).subnets ≡ map near ifs)
      × (s.fwrd_table ≡ map near_entry ifs)
unfolding pwospf_init started add_new_router blank
pwospf_init-IsWellFormed ifs now area nothing eth0 e few =
    let fits : ltb 80 (8 * length (create_pwospf_ifaces ifs)) ≡ false =
      ground (arith, few, length-ifaces ifs) in
    (
      started ifs now area nothing eth0,
      rw (e, fits, pwospf_init) refl,
      started-IsWellFormed ifs now area nothing eth0,
      refl,
      refl,
      fits,
      watched-all ifs,
      near-all ifs,
      entry-all ifs,
    )

-- With or without an interface eth0, what pwospf_init ends in is well-formed.
pub pwospf_init-Settles :
    (ifs : List SrIf) (now area : ℕ) (nothing : Router)
    → Settles (pwospf_init ifs now area nothing) IsWellFormed
unfolding pwospf_init
pwospf_init-Settles ifs now area nothing = elim (Option-cases (sr_get_interface ifs "eth0")) [
  | inl e ↦ rw (e, pwospf_init) tt
  | inr (eth0, e) ↦
      rw (e, pwospf_init)
        (if-all {A = Outcome Subsys} (λ x. Settles x IsWellFormed)
          (started ifs now area nothing eth0).overrun (tt {0})
          (started-IsWellFormed ifs now area nothing eth0))
]
