-- ===== src/Packet/Sound/Floods.antt =====
-- The sending of an update to the neighbors, and handle_pwospf, against the invariants.
use pwospf.Base.{
  arith, ℕ, ◌+◌, refl, ◌∙◌, subst, inl, inr, List, [], ◌∷◌, ◌++◌, none, some, All, if-all, ◌==◌,
  Option-cases, String, Outcome, done, ◌>>=◌, Settles, Settles-bind, Any,
}
use pwospf.Wire.{htons, ethertype_ip}
use pwospf.Wire.Bytes.{Bytes, bytes16, bytes32, load, store}
use pwospf.Wire.Sums.{write_cksum}
use pwospf.Topology.{Neighbor, PwospfIf}
use pwospf.Arp.{search_cache}
use pwospf.Arp.Queue.{Parcel, get_mac_address, lsu as lsu_parcel}
use pwospf.Arp.Queue.Ends.{get_mac_address-Settles}
use pwospf.Vns.{sr_send_packet}
use pwospf.Packet.{Instance, Output, written}
use pwospf.Packet.Link.{request_mac}
use pwospf.Packet.Ospf.{send_copy, send_copies, flood_copies}
use pwospf.Packet.Sound.{IsSound, Good, Sourced, All-append, written-Sourced, write_cksum-Settles}

-- What a step leaves that also changes the frame.
abbrev pub Good3 : {X : Type 0} → Instance → Instance × X × List Output → Type 0
Good3 sr (sr', m, out) = Good sr.if_list sr' out

abbrev pub Good2 : Instance → Instance × List Output → Type 0
Good2 sr (sr', out) = Good sr.if_list sr' out

pub request_mac-Settles :
    (sr : Instance) (next_hop : ℕ) (p : Parcel) (iface : String)
    → IsSound sr
    → Settles (request_mac sr next_hop p iface) (Good2 sr)
unfolding request_mac
request_mac-Settles sr next_hop p iface w =
    Settles-bind Any (Good2 sr) (get_mac_address sr.if_list sr.arpq next_hop p iface) _
      (get_mac_address-Settles sr.if_list sr.arpq next_hop p iface)
      (λ (q, starts) _. (
        record { sized = w.sized; formed = w.formed },
        refl,
        if-all (All (Sourced sr.if_list)) starts (tt, tt) tt,
      ))

-- A step from a later state, with what was sent before it.
pub Good-after :
    (sr sr' : Instance) (out : List Output)
    → Good sr.if_list sr' out
    → (sr2 : Instance) (more : List Output) → Good sr'.if_list sr2 more
    → Good sr.if_list sr2 (out ++ more)
Good-after sr sr' out (w, e, a) sr2 more (w2, e2, a2) = (
  w2,
  e2 ∙ e,
  All-append (Sourced sr.if_list) out more a (subst (λ ifs. All (Sourced ifs) more) e a2),
)

send_copy-Settles :
    (sr : Instance) (now : ℕ) (m : Bytes) (packet : ℕ) (iface : PwospfIf) (dst size : ℕ)
    → IsSound sr
    → Settles (send_copy sr now m packet iface dst size) (Good3 sr)
unfolding send_copy
send_copy-Settles sr now m packet iface dst size w =
    Settles-bind Any (Good3 sr)
      (write_cksum (store m (packet + 30) (bytes32 dst)) (packet + 14) 20 10) _
      (write_cksum-Settles (store m (packet + 30) (bytes32 dst)) (packet + 14) 20 10 (omega arith))
      (λ summed _. after summed)
  where
    after :
        (summed : Bytes)
        → Settles
            (let framed = store summed (packet + 6) (iface.mac ++ bytes16 (htons ethertype_ip)) in
              let sr' : Instance = record sr {
                arp_cache = (search_cache sr.arp_cache now dst).0;
              } in
              elim (search_cache sr.arp_cache now dst).1 [
                | some found ↦
                    let final = store framed packet found in
                    done
                      (sr', final, written (sr_send_packet sr.if_list final packet size iface.name))
                | none ↦
                    request_mac sr' dst (lsu_parcel (load framed packet size)) iface.name
                    >>= λ (sr2, out). done (sr2, framed, out)
              ])
            (Good3 sr)
    after summed =
        let framed = store summed (packet + 6) (iface.mac ++ bytes16 (htons ethertype_ip)) in
        let sr' : Instance = record sr { arp_cache = (search_cache sr.arp_cache now dst).0 } in
        let w' : IsSound sr' = record { sized = w.sized; formed = w.formed } in
        elim (Option-cases (search_cache sr.arp_cache now dst).1) [
          | inr (found, e) ↦ rw e (
            w',
            refl,
            written-Sourced sr.if_list (store framed packet found) packet size iface.name,
          )
          | inl e ↦ rw e (
              Settles-bind (Good2 sr) (Good3 sr)
                (request_mac sr' dst (lsu_parcel (load framed packet size)) iface.name) _
                (request_mac-Settles sr' dst (lsu_parcel (load framed packet size)) iface.name w')
                (λ x g. g))
        ]

send_copies-Settles :
    (sr : Instance) (now : ℕ) (m : Bytes) (packet : ℕ) (iface : PwospfIf) (ns : List Neighbor)
    (prev_src size : ℕ)
    → IsSound sr
    → Settles (send_copies sr now m packet iface ns prev_src size) (Good3 sr)
unfolding send_copies
send_copies-Settles sr now m packet iface [] prev_src size w = (w, refl, tt)
send_copies-Settles sr now m packet iface (n ∷ ns) prev_src size w =
    if-all {A = Outcome (Instance × Bytes × List Output)} (λ x. Settles x (Good3 sr))
      (n.ip_address == prev_src) (send_copies-Settles sr now m packet iface ns prev_src size w)
      (Settles-bind (Good3 sr) (Good3 sr) (send_copy sr now m packet iface n.ip_address size) _
        (send_copy-Settles sr now m packet iface n.ip_address size w)
        (λ (sr', m', out) g.
          Settles-bind (Good3 sr') (Good3 sr) (send_copies sr' now m' packet iface ns prev_src size)
            _ (send_copies-Settles sr' now m' packet iface ns prev_src size g.0)
            (λ (sr2, m2, more) h. Good-after sr sr' out g sr2 more h)))

pub flood_copies-Settles :
    (sr : Instance) (now : ℕ) (m : Bytes) (packet : ℕ) (ifs : List PwospfIf) (prev_src size : ℕ)
    → IsSound sr
    → Settles (flood_copies sr now m packet ifs prev_src size) (Good3 sr)
unfolding flood_copies
flood_copies-Settles sr now m packet [] prev_src size w = (w, refl, tt)
flood_copies-Settles sr now m packet (i ∷ ifs) prev_src size w =
    let m1 = store m (packet + 26) (bytes32 i.address) in
    Settles-bind (Good3 sr) (Good3 sr) (send_copies sr now m1 packet i i.neighbors prev_src size) _
      (send_copies-Settles sr now m1 packet i i.neighbors prev_src size w)
      (λ (sr', m', out) g.
        Settles-bind (Good3 sr') (Good3 sr) (flood_copies sr' now m' packet ifs prev_src size) _
          (flood_copies-Settles sr' now m' packet ifs prev_src size g.0)
          (λ (sr2, m2, more) h. Good-after sr sr' out g sr2 more h))
