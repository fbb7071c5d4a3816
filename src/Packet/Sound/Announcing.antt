-- ===== src/Packet/Sound/Announcing.antt =====
-- What the thread of PWOSPF sends, against the invariants.
use pwospf.Base.{
  arith, ℕ, refl, inl, inr, List, [], ◌∷◌, none, some, Option-cases, String, done, ◌>>=◌, Settles,
  Settles-bind, Any,
}
use pwospf.Wire.{htons, ethertype_ip}
use pwospf.Wire.Bytes.{Bytes, bytes16, bytes32, load, store}
use pwospf.Wire.Sums.{write_cksum}
use pwospf.Topology.{Neighbor, PwospfIf}
use pwospf.Routing.{sr_get_interface}
use pwospf.Pwospf.Updates.{build_lsu}
use pwospf.Pwospf.Updates.Acceptance.{build_lsu-IsWellFormed}
use pwospf.Arp.{search_cache}
use pwospf.Arp.Queue.{lsu as lsu_parcel}
use pwospf.Vns.{sr_send_packet}
use pwospf.Packet.{Instance, Output, written}
use pwospf.Packet.Link.{request_mac}
use pwospf.Packet.Announce.{lsu_to, lsu_to_all, lsu_loop, lsu_frame, send_lsu}
use pwospf.Packet.Sound.{IsSound, written-Sourced, write_cksum-Settles}
use pwospf.Packet.Sound.Floods.{Good2, Good3, Good-after, request_mac-Settles}

lsu_framed-Settles :
    (sr : Instance) (now : ℕ) (framed : Bytes) (name : String) (dst size : ℕ)
    → IsSound sr
    → Settles {A = Instance × Bytes × List Output}
        (let sr' : Instance = record sr { arp_cache = (search_cache sr.arp_cache now dst).0 } in
          elim (search_cache sr.arp_cache now dst).1 [
            | some found ↦
                let final = store framed 0 found in
                done (sr', final, written (sr_send_packet sr.if_list final 0 size name))
            | none ↦ request_mac sr' dst (lsu_parcel (load framed 0 size)) name >>= λ (sr2, out).
                done (sr2, framed, out)
          ])
        (Good3 sr)
lsu_framed-Settles sr now framed name dst size w =
    let sr' : Instance = record sr { arp_cache = (search_cache sr.arp_cache now dst).0 } in
    let w' : IsSound sr' = record { sized = w.sized; formed = w.formed } in
    elim (Option-cases (search_cache sr.arp_cache now dst).1) [
      | inr (found, e) ↦
          rw e (w', refl, written-Sourced sr.if_list (store framed 0 found) 0 size name)
      | inl e ↦ rw e (
          Settles-bind (Good2 sr) (Good3 {X = Bytes} sr)
            (request_mac sr' dst (lsu_parcel (load framed 0 size)) name) _
            (request_mac-Settles sr' dst (lsu_parcel (load framed 0 size)) name w') (λ x g. g))
    ]

lsu_to-Settles :
    (sr : Instance) (now : ℕ) (m : Bytes) (name : String) (dst size : ℕ)
    → IsSound sr
    → Settles (lsu_to sr now m name dst size) (Good3 sr)
unfolding lsu_to
lsu_to-Settles sr now m name dst size w = elim (Option-cases (sr_get_interface sr.if_list name)) [
  | inl e ↦
      rw (e, lsu_to)
        (Settles-bind Any (Good3 {X = Bytes} sr) (write_cksum (store m 30 (bytes32 dst)) 14 20 10) _
          (write_cksum-Settles (store m 30 (bytes32 dst)) 14 20 10 (omega arith)) (λ ip _. tt))
  | inr (f, e) ↦
      rw (e, lsu_to)
        (Settles-bind Any (Good3 {X = Bytes} sr) (write_cksum (store m 30 (bytes32 dst)) 14 20 10) _
          (write_cksum-Settles (store m 30 (bytes32 dst)) 14 20 10 (omega arith))
          (λ ip _.
            lsu_framed-Settles sr now (store (store ip 12 (bytes16 (htons ethertype_ip))) 6 f.addr)
              name dst size w))
]

lsu_to_all-Settles :
    (sr : Instance) (now : ℕ) (m : Bytes) (name : String) (ns : List Neighbor) (size : ℕ)
    → IsSound sr
    → Settles (lsu_to_all sr now m name ns size) (Good3 sr)
unfolding lsu_to_all
lsu_to_all-Settles sr now m name [] size w = (w, refl, tt)
lsu_to_all-Settles sr now m name (n ∷ ns) size w =
    Settles-bind (Good3 sr) (Good3 sr) (lsu_to sr now m name n.ip_address size) _
      (lsu_to-Settles sr now m name n.ip_address size w)
      (λ (sr', m', out) g.
        Settles-bind (Good3 sr') (Good3 sr) (lsu_to_all sr' now m' name ns size) _
          (lsu_to_all-Settles sr' now m' name ns size g.0)
          (λ (sr2, m2, more) h. Good-after sr sr' out g sr2 more h))

lsu_loop-Settles :
    (sr : Instance) (now : ℕ) (m : Bytes) (ifs : List PwospfIf) (size : ℕ)
    → IsSound sr
    → Settles (lsu_loop sr now m ifs size) (Good2 sr)
unfolding lsu_loop
lsu_loop-Settles sr now m [] size w = (w, refl, tt)
lsu_loop-Settles sr now m (i ∷ ifs) size w =
    let m1 = store m 26 (bytes32 i.address) in
    Settles-bind (Good3 sr) (Good2 sr) (lsu_to_all sr now m1 i.name i.neighbors size) _
      (lsu_to_all-Settles sr now m1 i.name i.neighbors size w)
      (λ (sr', m', out) g.
        Settles-bind (Good2 sr') (Good2 sr) (lsu_loop sr' now m' ifs size) _
          (lsu_loop-Settles sr' now m' ifs size g.0)
          (λ (sr2, more) h. Good-after sr sr' out g sr2 more h))

pub send_lsu-Settles :
    (sr : Instance) (now : ℕ) (raw : Bytes) → IsSound sr → Settles (send_lsu sr now raw) (Good2 sr)
unfolding send_lsu lsu_frame
send_lsu-Settles sr now raw w =
    let s = sr.ospf_subsys in
    let sr' : Instance = record sr { ospf_subsys = (build_lsu (raw 60) s sr.routing_table).0 } in
    let w' : IsSound sr' = record {
      sized = w.sized;
      formed = build_lsu-IsWellFormed (raw 60) s sr.routing_table w.formed;
    } in
    Settles-bind Any (Good2 sr) (lsu_frame raw s sr.routing_table) _
      (Settles-bind Any Any (write_cksum _ 34 16 12) _
        (write_cksum-Settles _ 34 16 12 (omega arith)) (λ b _. tt))
      (λ m _. lsu_loop-Settles sr' now m s.interfaces _ w')
