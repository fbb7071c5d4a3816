-- ===== src/Packet/Sound/Frames.antt =====
-- sr_handlepacket as a whole, against the invariants.
use pwospf.Base.{
  ℕ, ◌≡◌, refl, true, false, inl, inr, List, [], ◌++◌, none, some, All, if-all, ltb, ◌==◌,
  if◌then◌else◌, Option-cases, String, Outcome, done, aborted, Settles, Settles-bind, Any,
}
use pwospf.Wire.{EthernetHdr, htons, ethertype_ip, ethertype_arp}
use pwospf.Wire.Bytes.{Bytes, bytes16, load, store}
use pwospf.Wire.Layout.{read_eth, read_arp, eth_bytes, arp_bytes}
use pwospf.Routing.{SrIf, sr_get_interface}
use pwospf.Arp.{ArpCacheEntry, Handled, answers, learns, ignores, handle_arp, search_cache}
use pwospf.Arp.Queue.{pack}
use pwospf.Arp.Queue.Ends.{handle_arp-Settles}
use pwospf.Vns.{sr_send_packet}
use pwospf.Packet.{Instance, PacketState, Output, written, leave_hdr_room}
use pwospf.Packet.Link.{request_mac, create_forward_hdr, create_eth_hdr, way_out, put_eth}
use pwospf.Packet.Ip.{handle_ip}
use pwospf.Packet.Frame.{
  arrived, out_interface, send_response, receive_ip, receive_arp, sr_handlepacket,
}
use pwospf.Packet.Sound.{IsSound, Sourced, written-Sourced}
use pwospf.Packet.Sound.Floods.{Good2, Good-after, request_mac-Settles}
use pwospf.Packet.Sound.Handling.{Good4, Ends, handle_ip-Ends}

module _ (sr : Instance) (now : ℕ) (ps : PacketState) (eth_rec : EthernetHdr) where
  create_forward_hdr-Ends :
      (sif : SrIf) (nhop : ℕ) → IsSound sr → Ends sr (create_forward_hdr sr now ps eth_rec sif nhop)
  unfolding create_forward_hdr
  create_forward_hdr-Ends sif nhop w =
      let sr' : Instance = record sr { arp_cache = (search_cache sr.arp_cache now nhop).0 } in
      let w' : IsSound sr' = record { sized = w.sized; formed = w.formed } in
      let b = store (store ps.buffer 6 sif.addr) 12 (bytes16 (htons ethertype_ip)) in
      let parcel = pack (record { packet = load b 0 ps.res_len; old_eth = eth_rec }) in
      elim (Option-cases (search_cache sr.arp_cache now nhop).1) [
        | inr (found, e) ↦ rw (e, create_forward_hdr) (w', refl, tt)
        | inl e ↦
            rw (e, create_forward_hdr)
              (Settles-bind (Good2 sr) (Good4 sr) (request_mac sr' nhop parcel sif.name) _
                (request_mac-Settles sr' nhop parcel sif.name w') (λ x g. g))
      ]

  create_eth_hdr-Ends : IsSound sr → Ends sr (create_eth_hdr sr now ps eth_rec)
  unfolding create_eth_hdr
  create_eth_hdr-Ends w = if-all (Ends sr) ps.forward forwarded returned
    where
      forwarded : Ends sr (elim (way_out ps) [
        | none ↦ done (sr, ps, [], false)
        | some (interface, nhop) ↦ elim (sr_get_interface sr.if_list interface) [
          | none ↦ aborted
          | some sif ↦ create_forward_hdr sr now ps eth_rec sif nhop
        ]
      ])
      forwarded = elim (Option-cases (way_out ps)) [
        | inl e ↦ rw e (w, refl, tt)
        | inr ((interface, nhop), e) ↦ elim (Option-cases (sr_get_interface sr.if_list interface)) [
          | inl i ↦ rw (e, i) tt
          | inr (sif, i) ↦ rw (e, i) (create_forward_hdr-Ends sif nhop w)
        ]
      ]

      returned : Ends sr (elim (sr_get_interface sr.if_list ps.interface) [
        | none ↦ aborted
        | some sif ↦
            done
              (sr, record ps { buffer = put_eth ps.buffer eth_rec.ether_shost sif.addr }, [], true)
      ])
      returned = elim (Option-cases (sr_get_interface sr.if_list ps.interface)) [
        | inl i ↦ rw i tt
        | inr (sif, i) ↦ rw i (w, refl, tt)
      ]

send_response-Sourced :
    (sr : Instance) (ps : PacketState) → All (Sourced sr.if_list) (send_response sr ps)
unfolding send_response
send_response-Sourced sr ps = elim (Option-cases (out_interface ps)) [
  | inl e ↦ rw (e, send_response) tt
  | inr (i, e) ↦ rw (e, send_response) (written-Sourced sr.if_list ps.buffer 0 ps.res_len i)
]

module _ (sr : Instance) (now : ℕ) (ps : PacketState) where
  receive_ip-Settles :
      (raw : ℕ) (perm_eth : EthernetHdr)
      → IsSound sr
      → Settles (receive_ip sr now raw ps perm_eth) (Good2 sr)
  unfolding receive_ip
  receive_ip-Settles raw perm_eth w =
      Settles-bind (Good4 sr) (Good2 sr) (handle_ip sr now raw ps) _
        (handle_ip-Ends sr now raw ps w)
        (λ (sr', ps', out, respond) g.
          if-all {A = Outcome (Instance × List Output)} (λ x. Settles x (Good2 sr)) respond
            (Settles-bind (Good4 sr') (Good2 sr) (create_eth_hdr sr' now ps' perm_eth) _
              (create_eth_hdr-Ends sr' now ps' perm_eth g.0)
              (λ (sr2, ps2, more, complete) h.
                Good-after sr sr2 (out ++ more) (Good-after sr sr' out g sr2 more h) sr2
                  (if complete then send_response sr2 ps2 else [])
                  (
                    h.0,
                    refl,
                    if-all (All (Sourced sr2.if_list)) complete (send_response-Sourced sr2 ps2) tt,
                  )))
            g)

  receive_arp-Settles :
      (eth : EthernetHdr) → IsSound sr → Settles (receive_arp sr now ps eth) (Good2 sr)
  unfolding receive_arp
  receive_arp-Settles eth w =
      Settles-bind Any (Good2 sr)
        (handle_arp sr.if_list ps.interface sr.arp_cache now ps.len (read_arp ps.memory ps.packet)
          eth)
        _
        (handle_arp-Settles sr.if_list ps.interface sr.arp_cache now ps.len
          (read_arp ps.memory ps.packet) eth)
        (λ handled _. by handled)
    where
      kept : (cache : List ArpCacheEntry) → IsSound (record sr { arp_cache = cache })
      kept cache = record { sized = w.sized; formed = w.formed }

      sourced :
          All
            (Sourced sr.if_list)
            (written (sr_send_packet sr.if_list ps.buffer 0 ps.res_len ps.interface))
      sourced = written-Sourced sr.if_list ps.buffer 0 ps.res_len ps.interface

      by :
          (handled : Handled)
          → Settles {A = Instance × List Output}
              (elim handled [
                | answers e a ↦
                    let b = store ps.buffer 0 (eth_bytes e ++ arp_bytes a) in
                    done (sr, written (sr_send_packet sr.if_list b 0 42 ps.interface))
                | learns cache (some _) ↦ done (record sr { arp_cache = cache }, [])
                | learns cache none ↦ done (
                  record sr { arp_cache = cache },
                  written (sr_send_packet sr.if_list ps.buffer 0 ps.res_len ps.interface),
                )
                | ignores ↦ done (
                  sr,
                  if ltb ps.len 28
                      then []
                      else written (sr_send_packet sr.if_list ps.buffer 0 ps.res_len ps.interface),
                )
              ])
              (Good2 sr)
      by (answers e a) = (w, refl, written-Sourced sr.if_list _ 0 42 ps.interface)
      by (learns cache (some _)) = (kept cache, refl, tt)
      by (learns cache none) = (kept cache, refl, sourced)
      by ignores = (w, refl, if-all (All (Sourced sr.if_list)) (ltb ps.len 28) tt sourced)

pub sr_handlepacket-IsSound :
    (sr : Instance) (now raw : ℕ) (head packet : Bytes) (len : ℕ) (interface : String)
    → IsSound sr
    → Settles
        (sr_handlepacket sr now raw head packet len interface)
        (λ (sr', out). IsSound sr' × (sr'.if_list ≡ sr.if_list) × All (Sourced sr.if_list) out)
unfolding sr_handlepacket
sr_handlepacket-IsSound sr now raw head packet len interface w =
    let eth = read_eth packet 0 in
    let ps = leave_hdr_room (arrived packet len interface head) 14 in
    let ends : Outcome (Instance × List Output) → Type 0 = λ x. Settles x (Good2 sr) in
    if-all ends (ltb len 14) (w, refl, tt)
      (if-all ends (htons eth.ether_type == ethertype_ip) (receive_ip-Settles sr now ps raw eth w) (
        if-all ends (htons eth.ether_type == ethertype_arp) (receive_arp-Settles sr now ps eth w)
          (w, refl, tt)))
