-- ===== src/Packet/Ip/Gates.antt =====
-- handle_ip of sr_router.c: what it asks of the firewall, and what it tells it.
use pwospf.Base.{
  ℕ, ◌+◌, Bool, true, false, ◌||◌, none, some, leb, ◌==◌, if◌then◌else◌, Outcome, done, out_of_fuel,
}
use pwospf.Wire.Bytes.{get16}
use pwospf.Wire.Layout.{IpHdr}
use pwospf.Firewall.{Firewall, check_connection, tell_valid}
use pwospf.Packet.{PacketState}

abbrev pub ipproto_icmp : ℕ
ipproto_icmp = 1

abbrev pub ipproto_tcp : ℕ
ipproto_tcp = 6

abbrev pub ipproto_udp : ℕ
ipproto_udp = 17

-- Whether a packet may pass: yes, no, or it is a PWOSPF packet.
pub data Gate : Type 0 where
  pass refuse ospf : Gate

abbrev pub gate : Bool → Gate
gate true = pass
gate false = refuse

-- check_connection with the ports that the packet points to, or 0 for ICMP.
unfoldable pub check_packet : Firewall → ℕ → PacketState → IpHdr → ℕ → ℕ → Firewall × Gate
check_packet fw now ps h src_port dst_port =
    let (fw', valid) =
      check_connection fw
        (record {
          ip_s = h.ip_src;
          ip_d = h.ip_dst;
          protocol = h.ip_p;
          port_s = src_port;
          port_d = dst_port;
        })
        now in
    (fw', gate valid)

-- The tests on the protocol of a packet that comes from outside and goes inside. What is done with
-- a protocol that has no case is `other`.
unfoldable pub admit_packet : Firewall → ℕ → PacketState → IpHdr → Gate → Firewall × Gate
unfolding check_packet
admit_packet fw now ps h other =
    if h.ip_p == ipproto_icmp
    then check_packet fw now ps h 0 0
    else (if h.ip_p == ipproto_tcp || h.ip_p == ipproto_udp
        then (if leb 4 ps.len
            then check_packet fw now ps h (get16 ps.memory ps.packet)
                (get16 ps.memory (ps.packet + 2))
            else (fw, refuse))
        else (fw, other))

-- The same for a packet from inside that is forwarded: the connection of the answers is noted.
-- The ports are those that the packet points to.
unfoldable pub note_packet : Firewall → ℕ → PacketState → IpHdr → Outcome (Firewall × Gate)
note_packet fw now ps h =
    let note : ℕ → ℕ → Outcome (Firewall × Gate) = λ dst_port src_port.
      elim (tell_valid fw
        (record {
          ip_s = h.ip_dst;
          ip_d = h.ip_src;
          protocol = h.ip_p;
          port_s = dst_port;
          port_d = src_port;
        })
        now) [ none ↦ out_of_fuel | some (fw', valid) ↦ done (fw', gate valid) ] in
    if h.ip_p == ipproto_icmp
    then note 0 0
    else (if h.ip_p == ipproto_tcp || h.ip_p == ipproto_udp
        then (if leb 4 ps.len
            then note (get16 ps.memory (ps.packet + 2)) (get16 ps.memory ps.packet)
            else done (fw, refuse))
        else done (fw, refuse))
