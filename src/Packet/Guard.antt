-- ===== src/Packet/Guard.antt =====
-- handle_ip on a packet from outside that would be forwarded to the inside: the firewall decides.
use pwospf.Base.{
  ℕ, ◌+◌, ◌*◌, ◌-◌, ◌%◌, ◌^◌, ◌≤◌, ◌≡◌, ◌↔◌, ◌⊎◌, refl, sym, Bool, true, false, [], ◌∷◌, none, some,
  ltb, if-all, arith, done, String,
}
use pwospf.Wire.Bytes.{Bytes, get16, load, store}
use pwospf.Wire.Layout.{IpHdr, read_ip}
use pwospf.Wire.Sums.{write_cksum-total}
use pwospf.Firewall.{Tuple, Firewall, is_external, is_internal, check_connection}
use pwospf.Routing.{Way, dynamic, static, nowhere, choose_way}
use pwospf.Packet.{max_pac_length, Instance, PacketState, leave_hdr_room, minus32}
use pwospf.Packet.Icmp.{create_icmp_hdr, create_icmp_data, icmp_response, sum_message, icmpt_timeex}
use pwospf.Packet.Ip.{
  Gate, pass, refuse, ospf, gate, check_packet, admit_packet, elsewhere, find_destination, dropped,
  Handled, update_ip_hdr, send_on, pass_on, forward_ip, handle_ip,
}

-- The connection of a packet with the header `h` and these ports.
abbrev pub connection : IpHdr → ℕ → ℕ → Tuple
connection h src_port dst_port = record {
  ip_s = h.ip_src;
  ip_d = h.ip_dst;
  protocol = h.ip_p;
  port_s = src_port;
  port_d = dst_port;
}

-- The firewall passes the packet: one of ICMP as a connection with the ports 0, or one of TCP or UDP
-- that has its ports, which stand at `p`.
abbrev pub Admitted : Firewall → ℕ → Bytes → ℕ → ℕ → IpHdr → Type 0
Admitted fw now m p len h =
    ((h.ip_p ≡ 1) × ((check_connection fw (connection h 0 0) now).1 ≡ true))
    ⊎ (((h.ip_p ≡ 6) ⊎ (h.ip_p ≡ 17))
        × (4 ≤ len)
        × ((check_connection fw (connection h (get16 m p) (get16 m (p + 2))) now).1 ≡ true))

gate-pass : (b : Bool) → (gate b ≡ pass) ↔ (b ≡ true)
gate-pass b = ground arith

admit_packet-pass_iff :
    (fw : Firewall) (now : ℕ) (ps : PacketState) (h : IpHdr)
    → ((admit_packet fw now ps h refuse).1 ≡ pass) ↔ Admitted fw now ps.memory ps.packet ps.len h
unfolding admit_packet check_packet
admit_packet-pass_iff fw now ps h =
    let icmp = gate-pass (check_connection fw (connection h 0 0) now).1 in
    let ports =
      gate-pass
        (check_connection fw
          (connection h (get16 ps.memory ps.packet) (get16 ps.memory (ps.packet + 2))) now).1 in
    ground (arith, icmp, ports)

-- The run ends with nothing sent yet, and the result of handle_ip is `b`.
abbrev pub Results : Handled → Bool → Type 0
Results x b = (sr : Instance) × (ps : PacketState) × (x ≡ done (sr, ps, [], b))

sum_message-total :
    (ps : PacketState) (p : ℕ)
    → ps.res_len ≤ max_pac_length
    → (ps' : PacketState) × (sum_message ps p ≡ done ps')
unfolding sum_message
sum_message-total ps p room =
    let fits : ltb max_pac_length ps.res_len ≡ false = ground (arith, room) in
    let (b, e, _) = write_cksum-total ps.buffer p (ps.res_len - 34) 2 (omega (arith, room)) in
    (record ps { buffer = b }, rw (fits, e) refl)

-- A packet whose time is exceeded, with room for the 36 bytes of the answer.
icmp_response-timeex :
    (ps : PacketState) (ip_hdr : ℕ)
    → ps.res_len + 36 ≤ max_pac_length
    → (ps' : PacketState) × (icmp_response ps ip_hdr icmpt_timeex 0 ≡ done ps')
unfolding icmp_response create_icmp_hdr create_icmp_data
icmp_response-timeex ps ip_hdr room = sum_message-total _ ps.response (ground (arith, room))

send_on-true :
    (sr : Instance) (ps : PacketState) (ip_hdr iph : ℕ)
    → ps.res_len + 36 ≤ max_pac_length
    → iph + (ps.len + 20) ≤ max_pac_length
    → Results (send_on sr ps ip_hdr iph) true
unfolding send_on update_ip_hdr
send_on-true sr ps ip_hdr iph room fits =
    let m1 = store ps.memory (ip_hdr + 8) ((ps.memory (ip_hdr + 8) + 255) % 256 ∷ []) in
    let (m, e, _) = write_cksum-total m1 ip_hdr 20 10 (omega arith) in
    let (ps', e') = icmp_response-timeex ps ip_hdr room in
    let inside : ltb max_pac_length (iph + (ps.len + 20)) ≡ false = ground (arith, fits) in
    if-all (λ x. Results x true) (ltb (ps.memory (ip_hdr + 8)) 1) (sr, ps', rw e' refl)
      (
        sr,
        record ps {
          memory = m;
          buffer = store ps.buffer iph (load m ip_hdr (ps.len + 20));
          forward = true;
          res_len = (ps.res_len + ps.len) % 2 ^ 32;
        },
        rw (inside, e) refl,
      )

-- The way leads out of an interface of this name.
abbrev pub Leads : Way → String → Type 0
Leads (dynamic e) i = e.interface ≡ i
Leads (static e) i = e.interface ≡ i
Leads nowhere i = ⊥

-- The result is 1 exactly if `P` holds.
abbrev pub Decides : Handled → Type 0 → Type 0
Decides x P = (b : Bool) × Results x b × ((b ≡ true) ↔ P)

module _ (sr : Instance) (now : ℕ) (h : IpHdr) where
  pass_on-Decides :
      (ps : PacketState) (i : String)
      → is_external sr.firewall ps.interface ≡ true
      → is_internal sr.firewall i ≡ true
      → 20 ≤ ps.len
      → ps.response + ps.len ≤ max_pac_length
      → ps.res_len + 56 ≤ max_pac_length
      → Decides
          (pass_on sr now ps h i)
          (Admitted sr.firewall now ps.memory (ps.packet + 20) (ps.len - 20) h)
  unfolding pass_on leave_hdr_room
  pass_on-Decides ps i external internal long fits room =
      rw (external, internal, pass_on, sym shorter)
        (by (admit_packet sr.firewall now ps' h refuse)
          (admit_packet-pass_iff sr.firewall now ps' h))
    where
      shorter : minus32 ps.len 20 ≡ ps.len - 20
      shorter = omega (arith, long, fits)

      ps' : PacketState
      ps' = leave_hdr_room ps 20

      by :
          {P : Type 0} (x : Firewall × Gate)
          → (x.1 ≡ pass) ↔ P
          → Decides
              (let sr' : Instance = record sr { firewall = x.0 } in
                elim x.1 [ pass ↦ send_on sr' ps' ps.packet ps.response | _ ↦ dropped sr' ps' ])
              P
      by (fw, pass) p = (
        true,
        send_on-true (record sr { firewall = fw }) ps' ps.packet ps.response (omega (arith, room))
            (omega (arith, shorter, long, fits)),
        (λ _. p.0 refl, λ _. refl),
      )
      by (fw, refuse) p = (
        false,
        (record sr { firewall = fw }, ps', refl),
        (λ e. absurd (ground (arith, e)), λ a. absurd (ground (arith, p.1 a))),
      )
      by (fw, ospf) p = (
        false,
        (record sr { firewall = fw }, ps', refl),
        (λ e. absurd (ground (arith, e)), λ a. absurd (ground (arith, p.1 a))),
      )

  forward_ip-Decides :
      (ps : PacketState) (i : String)
      → is_external sr.firewall ps.interface ≡ true
      → is_internal sr.firewall i ≡ true
      → 20 ≤ ps.len
      → ps.response + ps.len ≤ max_pac_length
      → ps.res_len + 56 ≤ max_pac_length
      → Leads (choose_way sr.ospf_subsys.fwrd_table sr.routing_table h.ip_dst) i
      → Decides
          (forward_ip sr now ps h)
          (Admitted sr.firewall now ps.memory (ps.packet + 20) (ps.len - 20) h)
  unfolding forward_ip
  forward_ip-Decides ps i external internal long fits room leads =
      by (choose_way sr.ospf_subsys.fwrd_table sr.routing_table h.ip_dst) refl leads
    where
      by :
          (x : Way)
          → choose_way sr.ospf_subsys.fwrd_table sr.routing_table h.ip_dst ≡ x
          → Leads x i
          → Decides
              (forward_ip sr now ps h)
              (Admitted sr.firewall now ps.memory (ps.packet + 20) (ps.len - 20) h)
      by (dynamic e) same l =
          rw (same, forward_ip)
            (pass_on-Decides (record ps { dyn_entry = some e }) e.interface external (rw l internal)
              long fits room)
      by (static e) same l =
          rw (same, forward_ip)
            (pass_on-Decides (record ps { dyn_entry = none; rt_entry = some e }) e.interface
              external (rw l internal) long fits room)
      by nowhere same l = absurd l

-- A packet that came in on an external interface, whose destination is no interface of the router
-- nor, with an interface there is, the group of all routers, and whose way leads out of an internal
-- one. It has at least 20 bytes and a header that passes the test of its length, and the 10000 bytes of
-- the response have room for it, and for the message that its time is exceeded. Then handle_ip
-- returns, and its result is 1 exactly if the firewall passes the connection of the packet: with the
-- ports 0 for ICMP, with the ports behind the header for TCP and UDP, and with no other protocol.
pub handle_ip-guards :
    (sr : Instance) (now raw : ℕ) (ps : PacketState) (i : String)
    → is_external sr.firewall ps.interface ≡ true
    → is_internal sr.firewall i ≡ true
    → 20 ≤ ps.len
    → ps.response + ps.len ≤ max_pac_length
    → ps.res_len + 56 ≤ max_pac_length
    → (read_ip ps.memory ps.packet).ip_hl * 4 ≤ 20
    → find_destination sr.if_list (read_ip ps.memory ps.packet).ip_dst ≡ elsewhere
    → Leads
        (choose_way sr.ospf_subsys.fwrd_table sr.routing_table (read_ip ps.memory ps.packet).ip_dst)
        i
    → Decides (handle_ip sr now raw ps) (
        Admitted sr.firewall now ps.memory
          (ps.packet + 20)
          (ps.len - 20)
          (read_ip ps.memory ps.packet))
unfolding handle_ip
handle_ip-guards sr now raw ps i external internal long fits room plain away leads =
    let enough : ltb ps.len 20 ≡ false = ground (arith, long) in
    let no_options : ltb 20 ((read_ip ps.memory ps.packet).ip_hl * 4) ≡ false =
      ground (arith, plain) in
    rw (enough, no_options, away, handle_ip)
      (forward_ip-Decides sr now (read_ip ps.memory ps.packet) (record ps { ok_to_send = false }) i
        external internal long fits room leads)
