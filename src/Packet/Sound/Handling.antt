-- ===== src/Packet/Sound/Handling.antt =====
-- handle_ip and sr_handlepacket, against the invariants.
use pwospf.Base.{
  arith, ℕ, ◌+◌, ◌*◌, ◌≡◌, refl, Bool, false, List, none, some, if-all, ltb, ◌==◌, if◌then◌else◌,
  ◌&&◌, String, Outcome, Settles, Settles-bind, Any,
}
use pwospf.Wire.Layout.{IpHdr, read_ip}
use pwospf.Firewall.{Firewall, is_external, is_internal}
use pwospf.Firewall.Flow.{IsSized}
use pwospf.Routing.{SrIf, Way, dynamic, static, nowhere, choose_way}
use pwospf.Packet.{max_pac_length, Instance, PacketState, Output, leave_hdr_room}
use pwospf.Packet.Icmp.{icmp_response, handle_icmp, icmpt_destun, icmpt_timeex}
use pwospf.Packet.Ospf.{receive_pwospf}
use pwospf.Packet.Ip.{
  Gate, pass, refuse, ospf, admit_packet, note_packet, Destination, own, all_routers, elsewhere,
  find_destination, to_pwospf, answer_hdr, answer, to_router, update_ip_hdr, send_on, pass_on,
  forward_ip, handle_ip, dropped, ipproto_icmp, ospfv2_type,
}
use pwospf.Packet.Sound.{IsSound, Good, write_cksum-Settles}
use pwospf.Packet.Sound.Gates.{admit_packet-IsSized, note_packet-Settles}
use pwospf.Packet.Sound.Floods.{Good3}
use pwospf.Packet.Sound.Steps.{icmp_response-Settles, handle_icmp-Settles, receive_pwospf-Settles}

-- What handle_ip may leave.
abbrev pub Good4 : Instance → Instance × PacketState × List Output × Bool → Type 0
Good4 sr (sr', ps, out, b) = Good sr.if_list sr' out

abbrev pub Ends : Instance → Outcome (Instance × PacketState × List Output × Bool) → Type 0
Ends sr x = Settles x (Good4 sr)

module _ (sr : Instance) (now : ℕ) where
  with_firewall : (fw : Firewall) → IsSound sr → IsSized fw → IsSound (record sr { firewall = fw })
  with_firewall fw w s = record { sized = s; formed = w.formed }

  answer_hdr-Settles : (ps : PacketState) (iph ip_hdr : ℕ) → Settles (answer_hdr ps iph ip_hdr) Any
  unfolding answer_hdr
  answer_hdr-Settles ps iph ip_hdr = write_cksum-Settles _ iph 20 10 (omega arith)

  to_pwospf-Ends :
      (raw : ℕ) (ps : PacketState) (ip_hdr : ℕ)
      → IsSound sr
      → Ends sr (to_pwospf sr now raw ps ip_hdr)
  unfolding to_pwospf
  to_pwospf-Ends raw ps ip_hdr w =
      Settles-bind (Good3 {X = PacketState} sr) (Good4 sr) (receive_pwospf sr now raw ps ip_hdr) _
        (receive_pwospf-Settles sr now raw ps ip_hdr w) (λ x g. g)

  answer-Ends :
      (raw : ℕ) (ps : PacketState) (h : IpHdr) → IsSound sr → Ends sr (answer sr now raw ps h)
  unfolding answer
  answer-Ends raw ps h w =
      if-all (Ends sr) (h.ip_p == ospfv2_type) (to_pwospf-Ends raw ps ps.packet w) (
        Settles-bind Any (Good4 sr)
          (if h.ip_p == ipproto_icmp
            then handle_icmp (leave_hdr_room ps 20) ps.packet
            else icmp_response (leave_hdr_room ps 20) ps.packet icmpt_destun 3)
          _
          (if-all {A = Outcome PacketState} (λ x. Settles x Any) (h.ip_p == ipproto_icmp)
            (handle_icmp-Settles (leave_hdr_room ps 20) ps.packet)
            (icmp_response-Settles (leave_hdr_room ps 20) ps.packet icmpt_destun 3))
          (λ filled _.
            Settles-bind Any (Good4 sr) (answer_hdr filled ps.response ps.packet) _
              (answer_hdr-Settles filled ps.response ps.packet) (λ b _. (w, refl, tt))))

  send_on-Ends :
      (ps : PacketState) (ip_hdr iph : ℕ) → IsSound sr → Ends sr (send_on sr ps ip_hdr iph)
  unfolding send_on update_ip_hdr
  send_on-Ends ps ip_hdr iph w =
      if-all (Ends sr) (ltb (ps.memory (ip_hdr + 8)) 1)
        (Settles-bind Any (Good4 sr) (icmp_response ps ip_hdr icmpt_timeex 0) _
          (icmp_response-Settles ps ip_hdr icmpt_timeex 0) (λ x _. (w, refl, tt)))
        (if-all (Ends sr) (ltb max_pac_length (iph + (ps.len + 20))) (tt {0}) (
          Settles-bind Any (Good4 sr) (update_ip_hdr ps.memory ip_hdr) _
            (write_cksum-Settles _ ip_hdr 20 10 (omega arith)) (λ m _. (w, refl, tt))))

module _ (sr : Instance) (now : ℕ) where
  to_router-Ends :
      (raw : ℕ) (ps : PacketState) (h : IpHdr) (iface : SrIf)
      → IsSound sr
      → Ends sr (to_router sr now raw ps h iface)
  unfolding to_router
  to_router-Ends raw ps h iface w =
      if-all (Ends sr) (is_external sr.firewall ps.interface && is_internal sr.firewall iface.name)
        (by (admit_packet sr.firewall now ps h other)
          (admit_packet-IsSized sr.firewall now ps h other w.sized))
        (answer-Ends sr now raw ps h w)
    where
      other : Gate
      other = if h.ip_p == ospfv2_type then ospf else refuse

      by :
          (x : Firewall × Gate)
          → IsSized x.0
          → Ends sr (
              let sr' : Instance = record sr { firewall = x.0 } in
              elim x.1 [
                | pass ↦ answer sr' now raw ps h
                | refuse ↦ dropped sr' ps
                | ospf ↦ to_pwospf sr' now raw ps ps.packet
              ])
      by (fw, pass) s =
          answer-Ends (record sr { firewall = fw }) now raw ps h (with_firewall sr now fw w s)
      by (fw, refuse) s = (with_firewall sr now fw w s, refl, tt)
      by (fw, ospf) s =
          to_pwospf-Ends (record sr { firewall = fw }) now raw ps ps.packet
            (with_firewall sr now fw w s)

  -- The last step under a firewall that has changed.
  passed :
      (ps ps' : PacketState) (ip_hdr iph : ℕ) (x : Firewall × Gate)
      → IsSound sr
      → IsSized x.0
      → Ends sr (
          let sr' : Instance = record sr { firewall = x.0 } in
          elim x.1 [ pass ↦ send_on sr' ps ip_hdr iph | _ ↦ dropped sr' ps' ])
  passed ps ps' ip_hdr iph (fw, pass) w s =
      send_on-Ends (record sr { firewall = fw }) now ps ip_hdr iph (with_firewall sr now fw w s)
  passed ps ps' ip_hdr iph (fw, refuse) w s = (with_firewall sr now fw w s, refl, tt)
  passed ps ps' ip_hdr iph (fw, ospf) w s = (with_firewall sr now fw w s, refl, tt)

  pass_on-Ends :
      (ps : PacketState) (h : IpHdr) (temp_if : String)
      → IsSound sr
      → Ends sr (pass_on sr now ps h temp_if)
  unfolding pass_on
  pass_on-Ends ps h temp_if w =
      let ps' = leave_hdr_room ps 20 in
      if-all (Ends sr) (is_external sr.firewall ps.interface)
        (if-all (Ends sr) (is_internal sr.firewall temp_if)
          (passed ps' ps' ps.packet ps.response (admit_packet sr.firewall now ps' h refuse) w
            (admit_packet-IsSized sr.firewall now ps' h refuse w.sized))
          (send_on-Ends sr now ps ps.packet ps.response w))
        (Settles-bind (λ x. IsSized x.0) (Good4 sr) (note_packet sr.firewall now ps h) _
          (note_packet-Settles sr.firewall now ps h w.sized)
          (λ x s. passed ps ps ps.packet ps.response x w s))

  forward_ip-Ends : (ps : PacketState) (h : IpHdr) → IsSound sr → Ends sr (forward_ip sr now ps h)
  unfolding forward_ip
  forward_ip-Ends ps h w = by (choose_way sr.ospf_subsys.fwrd_table sr.routing_table h.ip_dst) refl
    where
      by :
          (x : Way)
          → choose_way sr.ospf_subsys.fwrd_table sr.routing_table h.ip_dst ≡ x
          → Ends sr (forward_ip sr now ps h)
      by (dynamic e) same =
          rw (same, forward_ip) (pass_on-Ends (record ps { dyn_entry = some e }) h e.interface w)
      by (static e) same =
          rw (same, forward_ip)
            (pass_on-Ends (record ps { dyn_entry = none; rt_entry = some e }) h e.interface w)
      by nowhere same = rw (same, forward_ip) (w, refl, tt)

  -- From a sound state handle_ip ends in one, unless an assertion fails.
  pub handle_ip-Ends : (raw : ℕ) (ps : PacketState) → IsSound sr → Ends sr (handle_ip sr now raw ps)
  unfolding handle_ip
  handle_ip-Ends raw ps0 w =
      if-all (Ends sr) (ltb ps.len 20) (w, refl, tt)
        (if-all (Ends sr) (ltb 20 (h.ip_hl * 4)) (w, refl, tt)
          (by (find_destination sr.if_list h.ip_dst)))
    where
      ps : PacketState
      ps = record ps0 { ok_to_send = false }

      h : IpHdr
      h = read_ip ps.memory ps.packet

      by :
          (d : Destination)
          → Ends sr (elim d [
            | own iface ↦ to_router sr now raw ps h iface
            | all_routers ↦ to_pwospf sr now raw ps ps.packet
            | elsewhere ↦ forward_ip sr now ps h
          ])
      by (own iface) = to_router-Ends raw ps h iface w
      by all_routers = to_pwospf-Ends sr now raw ps ps.packet w
      by elsewhere = forward_ip-Ends ps h w
