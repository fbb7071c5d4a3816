-- ===== src/Arp/Queue/Ends.antt =====
-- The parts of arp.c and arpq.c that the packet path calls: they end.
use pwospf.Base.{
  ℕ, List, inl, inr, if-all, ltb, ◌==◌, Option-cases, String, Outcome, Settles, Settles-bind, Any,
}
use pwospf.Wire.{EthernetHdr, ArpHdr, htons}
use pwospf.Routing.{SrIf, sr_get_interface}
use pwospf.Arp.{
  ArpCacheEntry, Handled, construct_request, got_request, got_reply, add_cache_entry, search_cache,
  handle_arp,
}
use pwospf.Arp.Queue.{Arpq, Parcel, get_entry, create_entry, get_mac_address}

construct_request-Settles :
    (ifs : List SrIf) (iface : String) (ip_addr : ℕ)
    → Settles (construct_request ifs iface ip_addr) Any
unfolding construct_request
construct_request-Settles ifs iface ip_addr = elim (Option-cases (sr_get_interface ifs iface)) [
  | inl e ↦ rw (e, construct_request) tt
  | inr (i, e) ↦ rw (e, construct_request) tt
]

got_request-Settles :
    (ifs : List SrIf) (interface : String) (arp : ArpHdr) (eth : EthernetHdr)
    → Settles (got_request ifs interface arp eth) Any
unfolding got_request
got_request-Settles ifs interface arp eth = elim (Option-cases (sr_get_interface ifs interface)) [
  | inl e ↦ rw (e, got_request) tt
  | inr (i, e) ↦ rw (e, got_request) tt
]

create_entry-Settles :
    (ifs : List SrIf) (next_hop : ℕ) (iface : String)
    → Settles (create_entry ifs next_hop iface) Any
unfolding create_entry
create_entry-Settles ifs next_hop iface =
    Settles-bind Any Any (construct_request ifs iface next_hop) _
      (construct_request-Settles ifs iface next_hop) (λ x _. tt)

pub get_mac_address-Settles :
    (ifs : List SrIf) (q : List Arpq) (next_hop : ℕ) (p : Parcel) (iface : String)
    → Settles (get_mac_address ifs q next_hop p iface) Any
unfolding get_mac_address
get_mac_address-Settles ifs q next_hop p iface = elim (Option-cases (get_entry q next_hop)) [
  | inl e ↦
      rw (e, get_mac_address)
        (Settles-bind Any Any (create_entry ifs next_hop iface) _
          (create_entry-Settles ifs next_hop iface) (λ x _. tt))
  | inr (x, e) ↦ elim (Option-cases x.num_requests) [
    | inl n ↦ rw (e, n, get_mac_address) tt
    | inr (k, n) ↦ rw (e, n, get_mac_address) tt
  ]
]

add_cache_entry-Settles :
    (cache : List ArpCacheEntry) (now ip : ℕ) (mac : List ℕ)
    → Settles (add_cache_entry cache now ip mac) Any
unfolding add_cache_entry
add_cache_entry-Settles cache now ip mac = elim (Option-cases (search_cache cache now ip).1) [
  | inr (m, e) ↦ rw (e, add_cache_entry) tt
  | inl e ↦
      rw (e, add_cache_entry)
        (if-all {A = Outcome (List ArpCacheEntry)} (λ x. Settles x Any) (ip == 0) (tt {0}) (tt {0}))
]

pub handle_arp-Settles :
    (ifs : List SrIf) (interface : String) (cache : List ArpCacheEntry) (now len : ℕ) (arp : ArpHdr)
    (eth : EthernetHdr)
    → Settles (handle_arp ifs interface cache now len arp eth) Any
unfolding handle_arp got_reply
handle_arp-Settles ifs interface cache now len arp eth =
    let ends : Outcome Handled → Type 0 = λ x. Settles x Any in
    if-all ends (ltb len 28) (tt {0}) (
      if-all ends (htons arp.ar_op == 1)
        (Settles-bind Any Any (got_request ifs interface arp eth) _
          (got_request-Settles ifs interface arp eth) (λ x _. tt))
        (if-all ends (htons arp.ar_op == 2)
          (Settles-bind Any Any (got_reply cache now arp) _
            (Settles-bind Any Any (add_cache_entry cache now arp.ar_sip arp.ar_sha) _
              (add_cache_entry-Settles cache now arp.ar_sip arp.ar_sha) (λ c _. tt))
            (λ x _. tt))
          (tt {0})))
