-- ===== src/Packet/Ip.antt =====
-- handle_ip and update_ip_hdr of sr_router.c: packets to the router, and packets to forward.
pub mod Gates
use pwospf.Base.{
  ℕ, ◌+◌, ◌-◌, ◌*◌, ◌%◌, ◌^◌, Bool, true, false, ◌&&◌, ◌||◌, List, [], ◌∷◌, none, some, ltb, leb,
  ◌==◌, if◌then◌else◌, String, Outcome, done, aborted, out_of_fuel, ◌>>=◌,
}
use pwospf.Wire.{htons, htonl}
use pwospf.Wire.Bytes.{Bytes, bytes16, get16, load, store}
use pwospf.Wire.Layout.{IpHdr, read_ip}
use pwospf.Wire.Sums.{write_cksum}
use pwospf.Firewall.{Firewall, is_external, is_internal, check_connection, tell_valid}
use pwospf.Routing.{SrIf, dynamic, static, nowhere, choose_way}
use pwospf.Packet.{max_pac_length, Instance, PacketState, Output, leave_hdr_room}
use pwospf.Packet.Icmp.{icmp_response, handle_icmp, icmpt_destun, icmpt_timeex}
use pwospf.Packet.Ospf.{receive_pwospf}
pub use pwospf.Packet.Ip.Gates.{
  ipproto_icmp, ipproto_tcp, ipproto_udp, Gate, pass, refuse, ospf, gate,
}
unfoldable pub use pwospf.Packet.Ip.Gates.{check_packet, admit_packet, note_packet}

abbrev pub init_ttl : ℕ
init_ttl = 255

abbrev pub ospfv2_type : ℕ
ospfv2_type = 89

-- The time to live is a byte, so that 0 becomes 255.
unfoldable pub update_ip_hdr : Bytes → ℕ → Outcome Bytes
update_ip_hdr m ip_hdr =
    write_cksum (store m (ip_hdr + 8) ((m (ip_hdr + 8) + 255) % 256 ∷ [])) ip_hdr 20 10

-- The loop over the interfaces: the one that has the destination, or the group of all routers.
pub data Destination : Type 0 where
  own : SrIf → Destination
  all_routers elsewhere : Destination

unfoldable pub find_destination : List SrIf → ℕ → Destination
find_destination [] ip_dst = elsewhere
find_destination (i ∷ ifs) ip_dst =
    if i.ip == ip_dst
    then own i
    else (if ip_dst == htonl 0xe0000005 then all_routers else find_destination ifs ip_dst)

-- What handle_ip leaves; the flag is its result.
abbrev pub Handled : Type 0
Handled = Outcome (Instance × PacketState × List Output × Bool)

abbrev pub dropped : Instance → PacketState → Handled
dropped sr ps = done (sr, ps, [], false)

-- handle_pwospf, and the result 0.
unfoldable pub to_pwospf : Instance → ℕ → ℕ → PacketState → ℕ → Handled
to_pwospf sr now raw ps ip_hdr =
    receive_pwospf sr now raw ps ip_hdr >>= λ (sr', ps', out). done (sr', ps', out, false)

-- The header of an answer of the router, at `iph`, from the header at `ip_hdr`.
unfoldable pub answer_hdr : PacketState → ℕ → ℕ → Outcome Bytes
answer_hdr ps iph ip_hdr =
    let m = ps.memory in
    let copied = store ps.buffer iph (load m ip_hdr 20) in
    let sized = store copied (iph + 2) (bytes16 (htons ((ps.res_len + (2 ^ 32 - 14)) % 2 ^ 16))) in
    let lived = store sized (iph + 8) (init_ttl ∷ ipproto_icmp ∷ []) in
    let sourced = store lived (iph + 12) (load m (ip_hdr + 16) 4) in
    let turned = store sourced (iph + 16) (load m (ip_hdr + 12) 4) in write_cksum turned iph 20 10

-- What the router does with a packet to itself, once it has passed. The packet points to its IP
-- header, and the response to the place of one.
unfoldable pub answer : Instance → ℕ → ℕ → PacketState → IpHdr → Handled
unfolding answer_hdr to_pwospf
answer sr now raw ps h =
    if h.ip_p == ospfv2_type
    then to_pwospf sr now raw ps ps.packet
    else ((if h.ip_p == ipproto_icmp
          then handle_icmp (leave_hdr_room ps 20) ps.packet
          else icmp_response (leave_hdr_room ps 20) ps.packet icmpt_destun 3)
        >>= λ filled. answer_hdr filled ps.response ps.packet >>= λ b.
            done (sr, record filled { buffer = b; ok_to_send = true }, [], true))

-- A packet to the interface `iface` of the router.
unfoldable pub to_router : Instance → ℕ → ℕ → PacketState → IpHdr → SrIf → Handled
unfolding answer
to_router sr now raw ps h iface =
    if is_external sr.firewall ps.interface && is_internal sr.firewall iface.name
    then (let (fw, verdict) =
          admit_packet sr.firewall now ps h (if h.ip_p == ospfv2_type then ospf else refuse) in
        let sr' = record sr { firewall = fw } in
        elim verdict [
          | pass ↦ answer sr' now raw ps h
          | refuse ↦ dropped sr' ps
          | ospf ↦ to_pwospf sr' now raw ps ps.packet
        ])
    else answer sr now raw ps h

-- The last step of forwarding, with the IP header at `ip_hdr` and the place of the new one at `iph`.
-- The copy takes 20 bytes more than the length that is left; if they do not fit, they are written past
-- the end of the response.
unfoldable pub send_on : Instance → PacketState → ℕ → ℕ → Handled
send_on sr ps ip_hdr iph =
    if ltb (ps.memory (ip_hdr + 8)) 1
    then (icmp_response ps ip_hdr icmpt_timeex 0 >>= λ answered. done (sr, answered, [], true))
    else (if ltb max_pac_length (iph + (ps.len + 20))
        then aborted
        else (update_ip_hdr ps.memory ip_hdr >>= λ m. done (
          sr,
          record ps {
            memory = m;
            buffer = store ps.buffer iph (load m ip_hdr (ps.len + 20));
            forward = true;
            res_len = (ps.res_len + ps.len) % 2 ^ 32;
          },
          [],
          true,
        )))

-- A packet that goes out on the interface `temp_if`. From outside to inside the firewall is asked
-- with the packet behind its IP header; from inside it is told. A PWOSPF packet has no case of its
-- own here: the test for one stands where the protocol is TCP or UDP.
unfoldable pub pass_on : Instance → ℕ → PacketState → IpHdr → String → Handled
unfolding send_on
pass_on sr now ps h temp_if =
    if is_external sr.firewall ps.interface
    then (if is_internal sr.firewall temp_if
        then (let ps' = leave_hdr_room ps 20 in
            let (fw, verdict) = admit_packet sr.firewall now ps' h refuse in
            let sr' = record sr { firewall = fw } in
            elim verdict [ pass ↦ send_on sr' ps' ps.packet ps.response | _ ↦ dropped sr' ps' ])
        else send_on sr ps ps.packet ps.response)
    else (note_packet sr.firewall now ps h >>= λ (fw, verdict).
        let sr' = record sr { firewall = fw } in
        elim verdict [ pass ↦ send_on sr' ps ps.packet ps.response | _ ↦ dropped sr' ps ])

-- The choice of the way, which handle_ip keeps in the state.
unfoldable pub forward_ip : Instance → ℕ → PacketState → IpHdr → Handled
unfolding pass_on
forward_ip sr now ps h = elim (choose_way sr.ospf_subsys.fwrd_table sr.routing_table h.ip_dst) [
  | dynamic e ↦ pass_on sr now (record ps { dyn_entry = some e }) h e.interface
  | static e ↦ pass_on sr now (record ps { dyn_entry = none; rt_entry = some e }) h e.interface
  | nowhere ↦ dropped sr (record ps { dyn_entry = none; rt_entry = none })
]

unfoldable pub handle_ip : Instance → ℕ → ℕ → PacketState → Handled
unfolding to_router forward_ip find_destination to_pwospf
handle_ip sr now raw ps0 =
    let ps = record ps0 { ok_to_send = false } in
    let h = read_ip ps.memory ps.packet in
    if ltb ps.len 20
    then dropped sr ps
    else (if ltb 20 (h.ip_hl * 4)
        then dropped sr ps
        else (elim (find_destination sr.if_list h.ip_dst) [
          | own iface ↦ to_router sr now raw ps h iface
          | all_routers ↦ to_pwospf sr now raw ps ps.packet
          | elsewhere ↦ forward_ip sr now ps h
        ]))
