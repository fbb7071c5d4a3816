-- ===== src/Packet/Ospf.antt =====
-- PWOSPF packets in memory: handle_pwospf of sr_pwospf.c, handle_lsu and forward_lsu of lsu.c.
use pwospf.Base.{
  ℕ, ◌+◌, ◌-◌, ◌/◌, ◌%◌, ◌^◌, ◌&&◌, List, [], ◌∷◌, ◌++◌, none, some, ltb, ◌==◌, if◌then◌else◌,
  Outcome, done, out_of_fuel, ◌>>=◌,
}
use pwospf.Wire.{htons, ethertype_ip, LsuAdv}
use pwospf.Wire.Bytes.{Bytes, bytes16, bytes32, get16, get32, load, store}
use pwospf.Wire.Layout.{read_ospf, read_hello, read_lsu, read_all_advs}
use pwospf.Wire.Sums.{write_cksum}
use pwospf.Topology.{Neighbor, PwospfIf}
use pwospf.Pwospf.Hello.{handle_hello}
use pwospf.Pwospf.Updates.{Dispatch, handle_pwospf, handle_lsu}
use pwospf.Arp.{search_cache}
use pwospf.Arp.Queue.{lsu as lsu_parcel}
use pwospf.Vns.{sr_send_packet}
use pwospf.Packet.{Instance, PacketState, Output, written}
use pwospf.Packet.Icmp.{icmp_response, icmpt_timeex}
use pwospf.Packet.Link.{request_mac}

-- The frame at `packet` goes out on an interface to one neighbor: it is sent, or buffered for an
-- ARP request.
unfoldable pub send_copy :
    Instance → ℕ → Bytes → ℕ → PwospfIf → ℕ → ℕ → Outcome (Instance × Bytes × List Output)
send_copy sr now m packet iface dst size =
    write_cksum (store m (packet + 30) (bytes32 dst)) (packet + 14) 20 10 >>= λ summed.
    let framed = store summed (packet + 6) (iface.mac ++ bytes16 (htons ethertype_ip)) in
    let (cache, mac) = search_cache sr.arp_cache now dst in
    let sr' = record sr { arp_cache = cache } in
    elim mac [
      | some found ↦
          let final = store framed packet found in
          done (sr', final, written (sr_send_packet sr.if_list final packet size iface.name))
      | none ↦
          request_mac sr' dst (lsu_parcel (load framed packet size)) iface.name >>= λ (sr2, out).
          done (sr2, framed, out)
    ]

-- The loop over the neighbors of an interface.
unfoldable pub send_copies :
    Instance
    → ℕ
    → Bytes
    → ℕ
    → PwospfIf
    → List Neighbor
    → ℕ
    → ℕ
    → Outcome (Instance × Bytes × List Output)
unfolding send_copy
send_copies sr now m packet iface [] prev_src size = done (sr, m, [])
send_copies sr now m packet iface (n ∷ ns) prev_src size =
    let skipped = send_copies sr now m packet iface ns prev_src size in
    let copied = send_copy sr now m packet iface n.ip_address size >>= λ (sr', m', out).
    send_copies sr' now m' packet iface ns prev_src size >>= λ (sr2, m2, more).
    done (sr2, m2, out ++ more) in
    if n.ip_address == prev_src then skipped else copied

-- The loop over the interfaces.
unfoldable pub flood_copies :
    Instance → ℕ → Bytes → ℕ → List PwospfIf → ℕ → ℕ → Outcome (Instance × Bytes × List Output)
unfolding send_copies
flood_copies sr now m packet [] prev_src size = done (sr, m, [])
flood_copies sr now m packet (i ∷ ifs) prev_src size =
    send_copies sr now (store m (packet + 26) (bytes32 i.address)) packet i i.neighbors prev_src
      size
    >>= λ (sr', m', out). flood_copies sr' now m' packet ifs prev_src size >>= λ (sr2, m2, more).
        done (sr2, m2, out ++ more)

-- forward_lsu. Both fields are bytes, and are lowered before they are tested.
unfoldable pub forward_frame :
    Instance → ℕ → PacketState → ℕ → ℕ → Outcome (Instance × PacketState × List Output)
unfolding flood_copies
forward_frame sr now ps packet ip_hdr =
    (if ltb (ps.memory (ip_hdr + 8)) 1 then icmp_response ps ip_hdr icmpt_timeex 0 else done ps)
    >>= λ answered.
        let ospf_hdr = packet + 34 in
        let lsu_hdr = packet + 58 in
        let older = store ps.memory (ip_hdr + 8) ((ps.memory (ip_hdr + 8) + 255) % 256 ∷ []) in
        let lowered = store older (lsu_hdr + 3) ((older (lsu_hdr + 3) + 255) % 256 ∷ []) in
        write_cksum lowered ospf_hdr 16 12 >>= λ m.
        let size = (14 + 20 + htons (get16 m (ospf_hdr + 2))) % 2 ^ 16 in
        if ltb 0 (m (lsu_hdr + 3)) && ltb 0 (m (ip_hdr + 8))
        then (flood_copies sr now m packet sr.ospf_subsys.interfaces (get32 m (ip_hdr + 12)) size
            >>= λ (sr', m', out). done (sr', record answered { memory = m' }, out))
        else done (sr, record answered { memory = m }, [])

-- The advertisements that lie in the packet, behind its three headers.
unfoldable pub advs_within : PacketState → ℕ → List LsuAdv
advs_within ps body = read_all_advs ps.memory body ((ps.len - 52) / 12)

-- What handle_pwospf does with an update: handle_lsu, and forward_lsu where it was not dropped.
-- The pointer to the packet is back at the start of the frame then.
unfoldable pub receive_lsu :
    Instance → ℕ → ℕ → PacketState → ℕ → Outcome (Instance × PacketState × List Output)
unfolding forward_frame advs_within
receive_lsu sr now raw ps ip_hdr =
    let pwospf_hdr = ip_hdr + 20 in
    handle_lsu sr.ospf_subsys now raw (read_ospf ps.memory pwospf_hdr)
      (read_lsu ps.memory (pwospf_hdr + 24)) (advs_within ps (pwospf_hdr + 32))
    >>= λ (s, fresh).
        let sr' = record sr { ospf_subsys = s } in
        let packet = ip_hdr - 14 in
        if fresh
        then forward_frame sr' now (record ps { packet = packet }) packet ip_hdr
        else done (sr', ps, [])

-- handle_pwospf on the packet whose IP header is at `ip_hdr`. The checksum in the packet is set to 0
-- when it has been read, and the sums are taken of a header with 0 there. In a packet that is shorter
-- than its headers, the fields are read from the memory behind it.
unfoldable pub receive_pwospf :
    Instance → ℕ → ℕ → PacketState → ℕ → Outcome (Instance × PacketState × List Output)
unfolding receive_lsu
receive_pwospf sr now raw ps ip_hdr =
    let pwospf_hdr = ps.packet + 20 in
    let header = read_ospf ps.memory pwospf_hdr in
    let at = record ps {
      packet = pwospf_hdr;
      memory = store ps.memory (pwospf_hdr + 12) (0 ∷ 0 ∷ []);
    } in
    elim (handle_pwospf sr.ospf_subsys header) [
      | none ↦ out_of_fuel
      | some Dispatch.invalid_version ↦ done (sr, record ps { packet = pwospf_hdr }, [])
      | some Dispatch.hello ↦
          handle_hello sr.ospf_subsys now ps.interface ps.len (record {
            ip_src = get32 ps.memory (ip_hdr + 12);
            rid = header.rid;
            hello = read_hello ps.memory (pwospf_hdr + 24);
          })
          >>= λ s. done (record sr { ospf_subsys = s }, at, [])
      | some Dispatch.lsu ↦ receive_lsu sr now raw at ip_hdr
      | some _ ↦ done (sr, at, [])
    ]
