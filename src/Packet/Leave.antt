-- ===== src/Packet/Leave.antt =====
-- A forwarded packet at the link layer: create_eth_hdr, and the sending of its frame.
use pwospf.Base.{
  ℕ, ◌+◌, ◌-◌, ◌≤◌, ◌≡◌, refl, sym, ap, ◌∙◌, inl, inr, true, false, List, [], ◌∷◌, ◌++◌, some,
  Option-cases, length, ltb, ==_iff, arith, done, String,
}
use pwospf.Wire.{EthernetHdr, htons, htonl, ethertype_ip}
use pwospf.Wire.Bytes.{Bytes, bytes16, load, store, store-Apart, load-same, load-append}
use pwospf.Wire.Ranges.{load-stored}
use pwospf.Routing.{SrIf, sr_get_interface, same_mac}
use pwospf.Arp.{search_cache}
use pwospf.Vns.{sr_send_packet, ether_addrs_match_interface}
use pwospf.Packet.{Instance, PacketState, wire, written}
use pwospf.Packet.Link.{put_eth, way_out, create_eth_hdr, create_forward_hdr}
use pwospf.Packet.Frame.{out_interface, send_response}

-- The type of a frame of IP.
abbrev pub ip_type : List ℕ
ip_type = bytes16 (htons ethertype_ip)

pub same_mac_refl : (mac : List ℕ) → same_mac mac mac ≡ true
unfolding same_mac
same_mac_refl [] = refl
same_mac_refl (a ∷ mac) = rw ((==_iff a a).1 refl) (same_mac_refl mac)

-- A frame from an interface that exists is written.
pub sr_send_packet-written :
    (if_list : List SrIf) (m : Bytes) (len : ℕ) (i : String) (f : SrIf)
    → sr_get_interface if_list i ≡ some f
    → load m 6 6 ≡ f.addr
    → 14 ≤ len
    → written (sr_send_packet if_list m 0 len i)
      ≡ wire (record {
        m_len = htonl (len + 24);
        m_type = htonl 4;
        m_interface_name = i;
        frame = load m 0 len;
      })
        ∷ []
unfolding sr_send_packet ether_addrs_match_interface
sr_send_packet-written if_list m len i f found source long =
    let enough : ltb len 14 ≡ false = ground (arith, long) in
    let matches : same_mac (load m 6 6) f.addr ≡ true =
      ap (λ l. same_mac l f.addr) source ∙ same_mac_refl f.addr in
    rw (enough, found, matches, sr_send_packet, ether_addrs_match_interface) refl

module _ (b : Bytes) (dhost shost : List ℕ) where
  module _ (six : length dhost ≡ 6) (six' : length shost ≡ 6) where
    put_eth-source : load (put_eth b dhost shost) 6 6 ≡ shost
    unfolding put_eth
    put_eth-source =
        load-stored (store b 0 dhost) (put_eth b dhost shost) 6 6 shost (sym six') (λ q _ hi.
          store-Apart (store (store b 0 dhost) 6 shost) 12 ip_type q (inl (omega (arith, hi))))

    put_eth-dest : load (put_eth b dhost shost) 0 6 ≡ dhost
    unfolding put_eth
    put_eth-dest = load-stored b (put_eth b dhost shost) 0 6 dhost (sym six) (λ q _ hi.
        store-Apart (store (store b 0 dhost) 6 shost) 12 ip_type q (inl (omega (arith, hi)))
        ∙ store-Apart (store b 0 dhost) 6 shost q (inl (omega (arith, hi))))

    put_eth-type : load (put_eth b dhost shost) 12 2 ≡ ip_type
    unfolding put_eth
    put_eth-type =
        load-stored (store (store b 0 dhost) 6 shost) (put_eth b dhost shost) 12 2 ip_type refl
          (λ q _ _. refl)

    put_eth-rest : (n : ℕ) → load (put_eth b dhost shost) 14 n ≡ load b 14 n
    unfolding put_eth
    put_eth-rest n = load-same (put_eth b dhost shost) b 14 n (λ q lo _.
        store-Apart (store (store b 0 dhost) 6 shost) 12 ip_type q (inr lo)
        ∙ store-Apart (store b 0 dhost) 6 shost q (inr (omega (arith, lo, six')))
        ∙ store-Apart b 0 dhost q (inr (omega (arith, lo, six))))

    -- A frame with its header put before a packet.
    put_eth-frame :
        (len : ℕ)
        → 14 ≤ len
        → load (put_eth b dhost shost) 0 len ≡ dhost ++ (shost ++ (ip_type ++ load b 14 (len - 14)))
    put_eth-frame len long =
        let m = put_eth b dhost shost in
        let whole : len ≡ 6 + (6 + (2 + (len - 14))) = omega (arith, long) in
        ap (load m 0) whole
        ∙ load-append m 0 6 (6 + (2 + (len - 14)))
        ∙ ap (λ l. l ++ load m 6 (6 + (2 + (len - 14)))) put_eth-dest
        ∙ ap (λ l. dhost ++ l)
            (load-append m 6 6 (2 + (len - 14))
              ∙ ap (λ l. l ++ load m 12 (2 + (len - 14))) put_eth-source
              ∙ ap (λ l. shost ++ l)
                  (load-append m 12 2 (len - 14)
                    ∙ ap (λ l. l ++ load m 14 (len - 14)) put_eth-type
                    ∙ ap (λ l. ip_type ++ l) (put_eth-rest (len - 14))))

out_interface-way :
    (ps : PacketState) (i : String) (nhop : ℕ)
    → way_out ps ≡ some (i, nhop)
    → out_interface ps ≡ some i
unfolding way_out out_interface
out_interface-way ps i nhop e = elim (Option-cases ps.dyn_entry) [
  | inr (d, is) ↦ let found = rw is at e in rw is (ground (arith, found))
  | inl no_dyn ↦ elim (Option-cases ps.rt_entry) [
    | inr (r, is) ↦ let found = rw (no_dyn, is) at e in rw (no_dyn, is) (ground (arith, found))
    | inl no_rt ↦ let lost = rw (no_dyn, no_rt) at e in absurd (ground (arith, lost))
  ]
]

-- A forwarded packet of at least 14 bytes, whose way leads out of an interface that exists to a next
-- hop that has an address in the ARP cache; both hardware addresses have six bytes. create_eth_hdr
-- finishes its header, and the frame is then written to the simulator for that interface, from its
-- address to the one of the next hop, as IP, with the packet behind the header unchanged.
pub create_eth_hdr-send_response :
    (sr : Instance) (now : ℕ) (ps : PacketState) (eth_rec : EthernetHdr) (i : String) (nhop : ℕ)
    (sif : SrIf) (mac : List ℕ)
    → ps.forward ≡ true
    → way_out ps ≡ some (i, nhop)
    → sr_get_interface sr.if_list i ≡ some sif
    → (search_cache sr.arp_cache now nhop).1 ≡ some mac
    → length mac ≡ 6
    → length sif.addr ≡ 6
    → 14 ≤ ps.res_len
    → (sr' : Instance) × (ps' : PacketState) × (create_eth_hdr sr now ps eth_rec
        ≡ done (sr', ps', [], true))
      × (send_response sr' ps'
          ≡ wire (record {
            m_len = htonl (ps.res_len + 24);
            m_type = htonl 4;
            m_interface_name = i;
            frame = mac ++ (sif.addr ++ (ip_type ++ load ps.buffer 14 (ps.res_len - 14)));
          })
            ∷ [])
unfolding create_eth_hdr create_forward_hdr send_response
create_eth_hdr-send_response sr now ps eth_rec i nhop sif mac forwards way found hit six six' long =
    let b = put_eth ps.buffer mac sif.addr in
    let chosen : create_eth_hdr sr now ps eth_rec ≡ create_forward_hdr sr now ps eth_rec sif nhop =
      simp (forwards, way, found, create_eth_hdr) refl in
    let finished : create_forward_hdr sr now ps eth_rec sif nhop
        ≡ done (
          record sr { arp_cache = (search_cache sr.arp_cache now nhop).0 },
          record ps { buffer = b },
          [],
          true,
        ) =
      rw (hit, create_forward_hdr) refl in
    let out = out_interface-way ps i nhop way in
    (
      record sr { arp_cache = (search_cache sr.arp_cache now nhop).0 },
      record ps { buffer = b },
      chosen ∙ finished,
      rw (out, send_response)
            (sr_send_packet-written sr.if_list b ps.res_len i sif found
              (put_eth-source ps.buffer mac sif.addr six six') long)
          ∙ ap
              (λ l.
                wire (record {
                  m_len = htonl (ps.res_len + 24);
                  m_type = htonl 4;
                  m_interface_name = i;
                  frame = l;
                })
                ∷ [])
              (put_eth-frame ps.buffer mac sif.addr six six' ps.res_len long),
    )
