-- ===== src/Packet/Link.antt =====
-- create_eth_hdr of sr_router.c: the Ethernet header of a packet that leaves, or an ARP request.
use pwospf.Base.{
  ℕ, Bool, true, false, List, [], ◌∷◌, Option, none, some, if◌then◌else◌, String, Outcome, done,
  aborted, ◌>>=◌,
}
use pwospf.Wire.{EthernetHdr, htons, ethertype_ip}
use pwospf.Wire.Bytes.{Bytes, bytes16, load, store}
use pwospf.Routing.{SrIf, sr_get_interface}
use pwospf.Arp.{search_cache}
use pwospf.Arp.Queue.{Parcel, pack, get_mac_address}
use pwospf.Packet.{Instance, PacketState, Output, thread}

-- get_mac_address on the router's queue; the flag says that a thread is started.
unfoldable pub request_mac : Instance → ℕ → Parcel → String → Outcome (Instance × List Output)
request_mac sr next_hop parcel iface =
    get_mac_address sr.if_list sr.arpq next_hop parcel iface >>= λ (q, starts).
    done (record sr { arpq = q }, if starts then thread next_hop ∷ [] else [])

-- Where a packet goes that is forwarded: the interface and the next hop. The dynamic entry is
-- preferred.
unfoldable pub way_out : PacketState → Option (String × ℕ)
way_out ps = elim ps.dyn_entry [
  | some e ↦ some (e.interface, e.next_hop)
  | none ↦ elim ps.rt_entry [ some e ↦ some (e.interface, e.gw) | none ↦ none ]
]

-- The three statements that write a header at the start of the response.
unfoldable pub put_eth : Bytes → List ℕ → List ℕ → Bytes
put_eth b dhost shost = store (store (store b 0 dhost) 6 shost) 12 (bytes16 (htons ethertype_ip))

-- The next hop has an address in the cache, or the packet is buffered with the destination that
-- malloc left. The flag is the result 1.
unfoldable pub create_forward_hdr :
    Instance
    → ℕ
    → PacketState
    → EthernetHdr
    → SrIf
    → ℕ
    → Outcome (Instance × PacketState × List Output × Bool)
unfolding request_mac put_eth
create_forward_hdr sr now ps eth_rec sif nhop =
    let (cache, mac) = search_cache sr.arp_cache now nhop in
    let sr' = record sr { arp_cache = cache } in
    elim mac [
      | some found ↦ done (sr', record ps { buffer = put_eth ps.buffer found sif.addr }, [], true)
      | none ↦
          let b = store (store ps.buffer 6 sif.addr) 12 (bytes16 (htons ethertype_ip)) in
          request_mac sr' nhop (pack (record { packet = load b 0 ps.res_len; old_eth = eth_rec }))
            sif.name
          >>= λ (sr2, out). done (sr2, record ps { buffer = b }, out, false)
    ]

-- A missing interface is a null pointer that is read.
unfoldable pub create_eth_hdr :
    Instance → ℕ → PacketState → EthernetHdr → Outcome (Instance × PacketState × List Output × Bool)
unfolding put_eth way_out create_forward_hdr
create_eth_hdr sr now ps eth_rec =
    if ps.forward
    then (elim (way_out ps) [
      | none ↦ done (sr, ps, [], false)
      | some (interface, nhop) ↦ elim (sr_get_interface sr.if_list interface) [
        | none ↦ aborted
        | some sif ↦ create_forward_hdr sr now ps eth_rec sif nhop
      ]
    ])
    else (elim (sr_get_interface sr.if_list ps.interface) [
      | none ↦ aborted
      | some sif ↦
          done (sr, record ps { buffer = put_eth ps.buffer eth_rec.ether_shost sif.addr }, [], true)
    ])
