-- ===== src/Packet/Sound/Gates.antt =====
-- The questions that handle_ip asks the firewall, against the bound of the flow table.
use pwospf.Base.{ℕ, ◌+◌, none, some, if-all, leb, ◌==◌, ◌||◌, Outcome, done, out_of_fuel, Settles}
use pwospf.Wire.Bytes.{get16}
use pwospf.Wire.Layout.{IpHdr}
use pwospf.Firewall.{Firewall, tell_valid}
use pwospf.Firewall.Flow.{IsSized, check_connection-IsSized}
use pwospf.Firewall.Admission.{tell_valid-IsSized}
use pwospf.Packet.{PacketState}
use pwospf.Packet.Ip.{
  Gate, gate, check_packet, admit_packet, note_packet, ipproto_icmp, ipproto_tcp, ipproto_udp,
}

check_packet-IsSized :
    (fw : Firewall) (now : ℕ) (ps : PacketState) (h : IpHdr) (s d : ℕ)
    → IsSized fw
    → IsSized (check_packet fw now ps h s d).0
unfolding check_packet
check_packet-IsSized fw now ps h s d w = check_connection-IsSized fw _ now w

pub admit_packet-IsSized :
    (fw : Firewall) (now : ℕ) (ps : PacketState) (h : IpHdr) (other : Gate)
    → IsSized fw
    → IsSized (admit_packet fw now ps h other).0
unfolding admit_packet
admit_packet-IsSized fw now ps h other w =
    let sized : Firewall × Gate → Type 0 = λ x. IsSized x.0 in
    if-all sized (h.ip_p == ipproto_icmp) (check_packet-IsSized fw now ps h 0 0 w) (
      if-all sized (h.ip_p == ipproto_tcp || h.ip_p == ipproto_udp)
        (if-all sized (leb 4 ps.len) (check_packet-IsSized fw now ps h _ _ w) w) w)

pub note_packet-Settles :
    (fw : Firewall) (now : ℕ) (ps : PacketState) (h : IpHdr)
    → IsSized fw
    → Settles (note_packet fw now ps h) (λ x. IsSized x.0)
unfolding note_packet
note_packet-Settles fw now ps h w =
    let ends : Outcome (Firewall × Gate) → Type 0 = λ x. Settles x (λ y. IsSized y.0) in
    if-all ends (h.ip_p == ipproto_icmp) (noted 0 0) (
      if-all ends (h.ip_p == ipproto_tcp || h.ip_p == ipproto_udp)
        (if-all ends (leb 4 ps.len)
          (noted (get16 ps.memory (ps.packet + 2)) (get16 ps.memory ps.packet)) w)
        w)
  where
    noted :
        (dst src : ℕ)
        → Settles {A = Firewall × Gate}
            (elim (tell_valid fw
              (record {
                ip_s = h.ip_dst;
                ip_d = h.ip_src;
                protocol = h.ip_p;
                port_s = dst;
                port_d = src;
              })
              now) [ none ↦ out_of_fuel | some (fw', valid) ↦ done (fw', gate valid) ])
            (λ y. IsSized y.0)
    noted dst src =
        let (g, b, e, s) =
          tell_valid-IsSized fw
            (record {
              ip_s = h.ip_dst;
              ip_d = h.ip_src;
              protocol = h.ip_p;
              port_s = dst;
              port_d = src;
            })
            now w in
        rw e s
