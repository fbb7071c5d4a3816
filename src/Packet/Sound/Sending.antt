-- ===== src/Packet/Sound/Sending.antt =====
-- The messages that the threads write are as IsSourced says.
use pwospf.Base.{
  arith, ℕ, ◌+◌, ◌%◌, ◌^◌, List, [], ◌∷◌, ◌++◌, Option-cases, inl, inr, length, All, Settles,
  Settles-bind, Any,
}
use pwospf.Wire.{EthernetHdr}
use pwospf.Wire.Bytes.{Bytes, store}
use pwospf.Wire.Layout.{eth_bytes, arp_bytes}
use pwospf.Wire.Sums.{write_cksum}
use pwospf.Topology.{PwospfIf}
use pwospf.Routing.{SrIf, get_if_from_mac}
use pwospf.Arp.Queue.{Sent, request, frame, host_unreachable}
use pwospf.Packet.{Instance}
use pwospf.Packet.Announce.{hello_for, hello_loop, hello_from, hello_frame, send_hello}
use pwospf.Packet.Unreachable.{returned_le, returned, icmp_body, icmp_headers, send_icmp}
use pwospf.Packet.Pending.{write_sent, write_all}
use pwospf.Packet.Sound.{Sourced, All-append, written-Sourced, write_cksum-Settles}

hello_loop-Settles :
    (if_list : List SrIf) (m : Bytes) (ifs : List PwospfIf)
    → Settles (hello_loop if_list m ifs) (All (Sourced if_list))
unfolding hello_loop hello_for
hello_loop-Settles if_list m [] = tt
hello_loop-Settles if_list m (i ∷ ifs) =
    Settles-bind Any (All (Sourced if_list)) (hello_for m i) _
      (Settles-bind Any Any (write_cksum _ 34 16 12) _
        (write_cksum-Settles _ 34 16 12 (omega arith))
        (λ ospf _.
          Settles-bind Any Any (write_cksum _ 14 20 10) _
            (write_cksum-Settles _ 14 20 10 (omega arith)) (λ ip _. tt)))
      (λ m' _.
        Settles-bind (All (Sourced if_list)) (All (Sourced if_list)) (hello_loop if_list m' ifs) _
          (hello_loop-Settles if_list m' ifs)
          (λ out a. All-append (Sourced if_list) _ out (written-Sourced if_list m' 0 66 i.name) a))

pub send_hello-Settles :
    (sr : Instance) (raw : Bytes) → Settles (send_hello sr raw) (All (Sourced sr.if_list))
unfolding send_hello hello_from
send_hello-Settles sr raw = by sr.ospf_subsys.interfaces
  where
    by :
        (ifs : List PwospfIf)
        → Settles
            (hello_from sr.if_list (hello_frame raw sr.ospf_subsys) ifs)
            (All (Sourced sr.if_list))
    by [] = tt {0}
    by (i ∷ ifs) = hello_loop-Settles sr.if_list (hello_frame raw sr.ospf_subsys) (i ∷ ifs)

send_icmp-Settles :
    (if_list : List SrIf) (raw packet : Bytes) (old_len : ℕ) (old_eth : EthernetHdr)
    → Settles (send_icmp if_list raw packet old_len old_eth) (All (Sourced if_list))
unfolding send_icmp icmp_body icmp_headers
send_icmp-Settles if_list raw packet old_len old_eth =
    Settles-bind Any (All (Sourced if_list)) (icmp_body raw packet (returned old_len)) _
      (Settles-bind Any Any (write_cksum _ 34 ((8 + returned old_len) % 2 ^ 16) 2) _
        (write_cksum-Settles _ 34 ((8 + returned old_len) % 2 ^ 16) 2
          (omega (arith, returned_le old_len)))
        (λ summed _. tt))
      (λ body _. elim (Option-cases (get_if_from_mac if_list old_eth.ether_dhost)) [
        | inl e ↦ rw e (tt {0})
        | inr (iface, e) ↦ rw e (
            Settles-bind Any (All (Sourced if_list)) (icmp_headers body packet iface old_eth) _
              (Settles-bind Any Any (write_cksum _ 14 20 10) _
                (write_cksum-Settles _ 14 20 10 (omega arith)) (λ summed _. tt))
              (λ m _. written-Sourced if_list m 0 (34 + (8 + returned old_len)) iface.name))
      ])

write_sent-Settles :
    (if_list : List SrIf) (raw : Bytes) (x : Sent)
    → Settles (write_sent if_list raw x) (All (Sourced if_list))
unfolding write_sent
write_sent-Settles if_list raw (request (e, a) iface) =
    written-Sourced if_list (store raw 0 (eth_bytes e ++ arp_bytes a)) 0 42 iface
write_sent-Settles if_list raw (frame mac p iface) =
    written-Sourced if_list (store (store raw 0 p) 0 mac) 0 (length p % 2 ^ 16) iface
write_sent-Settles if_list raw (host_unreachable p) =
    send_icmp-Settles if_list raw (store raw 0 p.packet) (length p.packet % 2 ^ 16) p.old_eth

pub write_all-Settles :
    (if_list : List SrIf) (raw : Bytes) (xs : List Sent)
    → Settles (write_all if_list raw xs) (All (Sourced if_list))
unfolding write_all
write_all-Settles if_list raw [] = tt
write_all-Settles if_list raw (x ∷ xs) =
    Settles-bind (All (Sourced if_list)) (All (Sourced if_list)) (write_sent if_list raw x) _
      (write_sent-Settles if_list raw x)
      (λ out a.
        Settles-bind (All (Sourced if_list)) (All (Sourced if_list)) (write_all if_list raw xs) _
          (write_all-Settles if_list raw xs) (λ more b. All-append (Sourced if_list) out more a b))
