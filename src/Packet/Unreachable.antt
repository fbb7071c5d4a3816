-- ===== src/Packet/Unreachable.antt =====
-- send_icmp of buffer.c: the host unreachable for a packet that waited in vain for an address.
use pwospf.Base.{
  ◌≤◌, ℕ, ◌+◌, ◌-◌, ◌%◌, ◌^◌, ◌≡◌, refl, sym, ap, ◌∙◌, inl, inr, List, [], ◌∷◌, none, some, leb,
  if◌then◌else◌, length, Outcome, done, aborted, ◌>>=◌, arith,
}
use pwospf.Wire.{EthernetHdr, htons, htonl, ethertype_ip}
use pwospf.Wire.Bytes.{Bytes, bytes16, bytes32, load, store, length-load, store-Apart, load-same}
use pwospf.Wire.Sums.{write_cksum, write_cksum-total}
use pwospf.Wire.Ranges.{load-stored}
use pwospf.Routing.{SrIf, sr_get_interface, get_if_from_mac}
use pwospf.Vns.{sr_send_packet}
use pwospf.Packet.{Output, wire, written}
use pwospf.Packet.Leave.{sr_send_packet-written}

-- How much of the packet is returned: its IP header and at most eight bytes behind it.
abbrev pub returned : ℕ → ℕ
returned old_len =
    let data_len = (old_len + (2 ^ 32 - 34)) % 2 ^ 16 in
    if leb 8 data_len then 28 else 20 + data_len

-- The header and the data of the message, with its sum, and the copied IP header before them.
unfoldable pub icmp_body : Bytes → Bytes → ℕ → Outcome Bytes
icmp_body raw packet size =
    let head = store (store raw 34 (3 ∷ 1 ∷ [])) 38 (0 ∷ 0 ∷ 0 ∷ 0 ∷ []) in
    let data' = store head 42 (load packet 14 size) in
    write_cksum data' 34 ((8 + size) % 2 ^ 16) 2 >>= λ summed.
    let copied = store summed 14 (load packet 14 20) in
    done (store (store copied 16 (bytes16 (htons ((20 + (8 + size)) % 2 ^ 16)))) 22 (255 ∷ 1 ∷ []))

-- The addresses, the sum of the IP header, and the Ethernet header.
unfoldable pub icmp_headers : Bytes → Bytes → SrIf → EthernetHdr → Outcome Bytes
icmp_headers m packet iface old_eth =
    write_cksum (store (store m 26 (bytes32 iface.ip)) 30 (load packet 26 4)) 14 20 10 >>= λ summed.
    done (
      store (store (store summed 0 old_eth.ether_shost) 6 iface.addr) 12
        (bytes16 (htons ethertype_ip)))

-- `raw` is what malloc left. The interface is the one that get_if_from_mac gives for the address
-- that the packet came to; without one a null pointer is read.
unfoldable pub send_icmp : List SrIf → Bytes → Bytes → ℕ → EthernetHdr → Outcome (List Output)
unfolding icmp_body icmp_headers
send_icmp if_list raw packet old_len old_eth = icmp_body raw packet (returned old_len) >>= λ body.
    elim (get_if_from_mac if_list old_eth.ether_dhost) [
      | none ↦ aborted
      | some iface ↦ icmp_headers body packet iface old_eth >>= λ m.
          done (written (sr_send_packet if_list m 0 (34 + (8 + returned old_len)) iface.name))
    ]

icmp_headers-total :
    (m packet : Bytes) (iface : SrIf) (old_eth : EthernetHdr)
    → length iface.addr ≡ 6
    → length old_eth.ether_shost ≡ 6
    → (m' : Bytes) × (icmp_headers m packet iface old_eth ≡ done m')
      × (load m' 0 6 ≡ old_eth.ether_shost)
      × (load m' 6 6 ≡ iface.addr)
      × (load m' 34 2 ≡ load m 34 2)
unfolding icmp_headers
icmp_headers-total m packet iface old_eth six six' =
    let dst = load packet 26 4 in
    let dst_size = length-load packet 26 4 in
    let m1 = store m 26 (bytes32 iface.ip) in
    let (summed, e, same) = write_cksum-total (store m1 30 dst) 14 20 10 (omega arith) in
    let m2 = store summed 0 old_eth.ether_shost in
    let m3 = store m2 6 iface.addr in
    let type = bytes16 (htons ethertype_ip) in
    (
      store m3 12 type,
      rw e refl,
      load-stored summed (store m3 12 type) 0 6 old_eth.ether_shost (sym six') (λ q _ hi.
          store-Apart m3 12 type q (inl (omega (arith, hi)))
          ∙ store-Apart m2 6 iface.addr q (inl (omega (arith, hi)))),
      load-stored m2 (store m3 12 type) 6 6 iface.addr (sym six)
          (λ q _ hi. store-Apart m3 12 type q (inl (omega (arith, hi)))),
      load-same (store m3 12 type) m 34 2 (λ q lo _.
          store-Apart m3 12 type q (inr (omega (arith, lo)))
          ∙ store-Apart m2 6 iface.addr q (inr (omega (arith, lo, six)))
          ∙ store-Apart summed 0 old_eth.ether_shost q (inr (omega (arith, lo, six')))
          ∙ same q (inr (omega (arith, lo)))
          ∙ store-Apart m1 30 dst q (inr (omega (arith, lo, dst_size)))
          ∙ store-Apart m 26 (bytes32 iface.ip) q (inr (omega (arith, lo)))),
    )

-- At most 28 bytes are returned.
pub returned_le : (old_len : ℕ) → returned old_len ≤ 28
returned_le old_len = ground arith

icmp_body-total :
    (raw packet : Bytes) (size : ℕ)
    → size ≤ 28
    → (m : Bytes) × (icmp_body raw packet size ≡ done m) × (load m 34 2 ≡ 3 ∷ 1 ∷ [])
unfolding icmp_body
icmp_body-total raw packet size few =
    let zeros : List ℕ = 0 ∷ 0 ∷ 0 ∷ 0 ∷ [] in
    let h1 = store raw 34 (3 ∷ 1 ∷ []) in
    let h2 = store h1 38 zeros in
    let h3 = store h2 42 (load packet 14 size) in
    let (summed, e, same) = write_cksum-total h3 34 ((8 + size) % 2 ^ 16) 2 (omega (arith, few)) in
    let copied = store summed 14 (load packet 14 20) in
    let copied_size = length-load packet 14 20 in
    let len = bytes16 (htons ((20 + (8 + size)) % 2 ^ 16)) in
    let sized = store copied 16 len in
    (
      store sized 22 (255 ∷ 1 ∷ []),
      rw e refl,
      load-stored raw (store sized 22 (255 ∷ 1 ∷ [])) 34 2 (3 ∷ 1 ∷ []) refl (λ q lo hi.
          store-Apart sized 22 (255 ∷ 1 ∷ []) q (inr (omega (arith, lo)))
          ∙ store-Apart copied 16 len q (inr (omega (arith, lo)))
          ∙ store-Apart summed 14 (load packet 14 20) q (inr (omega (arith, lo, copied_size)))
          ∙ same q (inl (omega (arith, hi)))
          ∙ store-Apart h2 42 (load packet 14 size) q (inl (omega (arith, hi)))
          ∙ store-Apart h1 38 zeros q (inl (omega (arith, hi)))),
    )

-- Where get_if_from_mac finds the interface that a packet came to, and the router has that interface
-- by its name; all hardware addresses have six bytes. send_icmp writes exactly one frame, on that
-- interface and from its address to the one that the packet came from, with a message of type 3 and
-- code 1 behind its two headers.
pub send_icmp-unreachable :
    (if_list : List SrIf) (raw packet : Bytes) (old_len : ℕ) (old_eth : EthernetHdr) (iface : SrIf)
    → get_if_from_mac if_list old_eth.ether_dhost ≡ some iface
    → sr_get_interface if_list iface.name ≡ some iface
    → length iface.addr ≡ 6
    → length old_eth.ether_shost ≡ 6
    → (m : Bytes) × (send_icmp if_list raw packet old_len old_eth
        ≡ done (
            wire (record {
              m_len = htonl (34 + (8 + returned old_len) + 24);
              m_type = htonl 4;
              m_interface_name = iface.name;
              frame = load m 0 (34 + (8 + returned old_len));
            })
            ∷ []))
      × (load m 0 6 ≡ old_eth.ether_shost)
      × (load m 6 6 ≡ iface.addr)
      × (load m 34 2 ≡ 3 ∷ 1 ∷ [])
unfolding send_icmp
send_icmp-unreachable if_list raw packet old_len old_eth iface found named six six' =
    let (body, e, kind) = icmp_body-total raw packet (returned old_len) (returned_le old_len) in
    let (m, e', dest, source, same) = icmp_headers-total body packet iface old_eth six six' in
    let sent =
      sr_send_packet-written if_list m (34 + (8 + returned old_len)) iface.name iface named source
        (omega arith) in
    (m, rw (e, found, e') (ap (λ l. done l) sent), dest, source, same ∙ kind)
