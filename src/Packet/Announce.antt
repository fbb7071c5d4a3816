-- ===== src/Packet/Announce.antt =====
-- What the thread of PWOSPF sends: send_HELLO of hello.c and send_lsu of lsu.c.
use pwospf.Base.{
  ℕ, ◌+◌, ◌*◌, ◌%◌, ◌^◌, List, [], ◌∷◌, ◌++◌, none, some, length, String, Outcome, done, aborted,
  ◌>>=◌,
}
use pwospf.Wire.{htons, htonl, ethertype_ip}
use pwospf.Wire.Bytes.{Bytes, bytes16, bytes32, load, store}
use pwospf.Wire.Layout.{advs_bytes}
use pwospf.Wire.Sums.{write_cksum}
use pwospf.Topology.{Neighbor, PwospfIf, Subsys}
use pwospf.Routing.{SrIf, SrRt, sr_get_interface}
use pwospf.Pwospf.{default_helloint}
use pwospf.Pwospf.Updates.{build_lsu}
use pwospf.Arp.{search_cache}
use pwospf.Arp.Queue.{lsu as lsu_parcel}
use pwospf.Vns.{sr_send_packet}
use pwospf.Packet.{Instance, Output, written}
use pwospf.Packet.Link.{request_mac}

-- The first ten bytes of the IP header of a PWOSPF packet with `size` bytes behind the Ethernet
-- header. The version is in the low half of the first byte, as the bit-fields have it.
unfoldable pub ip_head : ℕ → List ℕ
ip_head size = (4 + 5 * 16) ∷ 0 ∷ bytes16 (htons size) ++ 0 ∷ 0 ∷ 0 ∷ 0 ∷ 255 ∷ 89 ∷ []

-- The PWOSPF header of a packet of a type and a length, with 0 for its checksum.
unfoldable pub ospf_head : Subsys → ℕ → ℕ → List ℕ
ospf_head s type len =
    2 ∷ type ∷ bytes16 (htons len)
    ++ bytes32 (s.heap s.this_router).rid
    ++ bytes32 (htonl s.area_id)
    ++ 0 ∷ 0 ∷ 0 ∷ 0 ∷ 0 ∷ 0 ∷ 0 ∷ 0 ∷ 0 ∷ 0 ∷ 0 ∷ 0 ∷ []

-- The HELLO packet before its loop. `raw` is what malloc left.
unfoldable pub hello_frame : Bytes → Subsys → Bytes
unfolding ip_head ospf_head
hello_frame raw s =
    let ethernet =
      store (store raw 0 (0xff ∷ 0xff ∷ 0xff ∷ 0xff ∷ 0xff ∷ 0xff ∷ [])) 12
        (bytes16 (htons ethertype_ip)) in
    let ip = store (store ethernet 14 (ip_head 52)) 30 (bytes32 (htonl 0xe0000005)) in
    let hello = store ip 62 (bytes16 (htons default_helloint) ++ 0 ∷ 0 ∷ []) in
    store hello 34 (ospf_head s 1 32)

-- The body of the loop for one interface: the packet, which is sent then.
unfoldable pub hello_for : Bytes → PwospfIf → Outcome Bytes
hello_for m iface = write_cksum (store m 58 (bytes32 (htonl iface.mask))) 34 16 12 >>= λ ospf.
    write_cksum (store ospf 26 (bytes32 iface.address)) 14 20 10 >>= λ ip.
    done (store ip 6 iface.mac)

unfoldable pub hello_loop : List SrIf → Bytes → List PwospfIf → Outcome (List Output)
unfolding hello_for
hello_loop if_list m [] = done []
hello_loop if_list m (i ∷ ifs) = hello_for m i >>= λ m'. hello_loop if_list m' ifs >>= λ out.
    done (written (sr_send_packet if_list m' 0 66 i.name) ++ out)

-- Without an interface an assertion fails.
unfoldable pub hello_from : List SrIf → Bytes → List PwospfIf → Outcome (List Output)
unfolding hello_loop
hello_from if_list m [] = aborted
hello_from if_list m (i ∷ ifs) = hello_loop if_list m (i ∷ ifs)

unfoldable pub send_hello : Instance → Bytes → Outcome (List Output)
unfolding hello_from hello_frame
send_hello sr raw = hello_from sr.if_list (hello_frame raw sr.ospf_subsys) sr.ospf_subsys.interfaces

-- The update before its loops, with `n` advertisements; the memory of one field is as malloc left it.
unfoldable pub lsu_frame : Bytes → Subsys → List SrRt → Outcome Bytes
lsu_frame raw s table =
    let (s', head, advs) = build_lsu (raw 60) s table in
    let n = length (s.heap s.this_router).subnets + length table in
    let ospf_len = (24 + 8 + n * 12) % 2 ^ 16 in
    let body = store raw 66 (advs_bytes advs) in
    let lsu = store (store body 58 (bytes16 head.seq)) 61 (head.ttl ∷ bytes32 head.num_adv) in
    let ospf = store lsu 34 (ospf_head s 4 ospf_len) in
    write_cksum ospf 34 16 12 >>= λ summed.
    done (store summed 14 (ip_head ((20 + ospf_len) % 2 ^ 16)))

-- The body of the inner loop: the update goes to one neighbor, or is buffered. The source is the
-- interface of that name; without one a null pointer is read.
unfoldable pub lsu_to :
    Instance → ℕ → Bytes → String → ℕ → ℕ → Outcome (Instance × Bytes × List Output)
lsu_to sr now m name dst size = write_cksum (store m 30 (bytes32 dst)) 14 20 10 >>= λ ip.
    elim (sr_get_interface sr.if_list name) [
      | none ↦ aborted
      | some src_if ↦
          let framed = store (store ip 12 (bytes16 (htons ethertype_ip))) 6 src_if.addr in
          let (cache, mac) = search_cache sr.arp_cache now dst in
          let sr' = record sr { arp_cache = cache } in
          elim mac [
            | some found ↦
                let final = store framed 0 found in
                done (sr', final, written (sr_send_packet sr.if_list final 0 size name))
            | none ↦ request_mac sr' dst (lsu_parcel (load framed 0 size)) name >>= λ (sr2, out).
                done (sr2, framed, out)
          ]
    ]

unfoldable pub lsu_to_all :
    Instance → ℕ → Bytes → String → List Neighbor → ℕ → Outcome (Instance × Bytes × List Output)
unfolding lsu_to
lsu_to_all sr now m name [] size = done (sr, m, [])
lsu_to_all sr now m name (n ∷ ns) size =
    lsu_to sr now m name n.ip_address size >>= λ (sr', m', out).
    lsu_to_all sr' now m' name ns size >>= λ (sr2, m2, more). done (sr2, m2, out ++ more)

unfoldable pub lsu_loop :
    Instance → ℕ → Bytes → List PwospfIf → ℕ → Outcome (Instance × List Output)
unfolding lsu_to_all
lsu_loop sr now m [] size = done (sr, [])
lsu_loop sr now m (i ∷ ifs) size =
    lsu_to_all sr now (store m 26 (bytes32 i.address)) i.name i.neighbors size >>= λ (sr', m', out).
    lsu_loop sr' now m' ifs size >>= λ (sr2, more). done (sr2, out ++ more)

unfoldable pub send_lsu : Instance → ℕ → Bytes → Outcome (Instance × List Output)
unfolding lsu_loop lsu_frame
send_lsu sr now raw =
    let s = sr.ospf_subsys in
    let n = length (s.heap s.this_router).subnets + length sr.routing_table in
    let sr' = record sr { ospf_subsys = (build_lsu (raw 60) s sr.routing_table).0 } in
    lsu_frame raw s sr.routing_table >>= λ m.
    lsu_loop sr' now m s.interfaces ((66 + n * 12) % 2 ^ 16)
