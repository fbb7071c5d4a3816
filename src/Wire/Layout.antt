-- ===== src/Wire/Layout.antt =====
-- Where the headers of sr_protocol.h and pwospf_protocol.h have their fields in memory.
use pwospf.Base.{ℕ, zero, suc, ◌+◌, ◌*◌, ◌/◌, ◌%◌, ◌^◌, List, [], ◌∷◌, ◌++◌}
use pwospf.Wire.{EthernetHdr, ArpHdr, OspfHdr, HelloHdr, LsuHdr, LsuAdv}
use pwospf.Wire.Bytes.{Bytes, bytes16, bytes32, get16, get32, load}

-- struct ip on a little-endian host: the first of the two bit-fields is the low half of its byte.
pub record IpHdr : Type 0 where
  pub ip_v : ℕ
  pub ip_hl : ℕ
  pub ip_tos : ℕ
  pub ip_len : ℕ
  pub ip_id : ℕ
  pub ip_off : ℕ
  pub ip_ttl : ℕ
  pub ip_p : ℕ
  pub ip_sum : ℕ
  pub ip_src : ℕ
  pub ip_dst : ℕ

-- The fields of `*(struct ip *)`, as they stand in memory.
unfoldable pub read_ip : Bytes → ℕ → IpHdr
read_ip m p = record {
  ip_v = m p % 16;
  ip_hl = m p / 16;
  ip_tos = m (p + 1);
  ip_len = get16 m (p + 2);
  ip_id = get16 m (p + 4);
  ip_off = get16 m (p + 6);
  ip_ttl = m (p + 8);
  ip_p = m (p + 9);
  ip_sum = get16 m (p + 10);
  ip_src = get32 m (p + 12);
  ip_dst = get32 m (p + 16);
}

-- struct sr_ethernet_hdr.
unfoldable pub read_eth : Bytes → ℕ → EthernetHdr
read_eth m p = record {
  ether_dhost = load m p 6;
  ether_shost = load m (p + 6) 6;
  ether_type = get16 m (p + 12);
}

-- struct sr_arphdr.
unfoldable pub read_arp : Bytes → ℕ → ArpHdr
read_arp m p = record {
  ar_hrd = get16 m p;
  ar_pro = get16 m (p + 2);
  ar_hln = m (p + 4);
  ar_pln = m (p + 5);
  ar_op = get16 m (p + 6);
  ar_sha = load m (p + 8) 6;
  ar_sip = get32 m (p + 14);
  ar_tha = load m (p + 18) 6;
  ar_tip = get32 m (p + 24);
}

unfoldable pub eth_bytes : EthernetHdr → List ℕ
eth_bytes e = e.ether_dhost ++ e.ether_shost ++ bytes16 e.ether_type

unfoldable pub arp_bytes : ArpHdr → List ℕ
arp_bytes a =
    bytes16 a.ar_hrd
    ++ bytes16 a.ar_pro
    ++ a.ar_hln % 256 ∷ a.ar_pln % 256 ∷ bytes16 a.ar_op
    ++ a.ar_sha
    ++ bytes32 a.ar_sip
    ++ a.ar_tha
    ++ bytes32 a.ar_tip

-- struct ospfv2_hdr.
unfoldable pub read_ospf : Bytes → ℕ → OspfHdr
read_ospf m p = record {
  version = m p;
  type = m (p + 1);
  len = get16 m (p + 2);
  rid = get32 m (p + 4);
  aid = get32 m (p + 8);
  csum = get16 m (p + 12);
  autype = get16 m (p + 14);
  audata = get32 m (p + 16) + get32 m (p + 20) * 2 ^ 32;
}

-- struct ospfv2_hello_hdr.
unfoldable pub read_hello : Bytes → ℕ → HelloHdr
read_hello m p = record { nmask = get32 m p; helloint = get16 m (p + 4); padding = get16 m (p + 6) }

-- struct ospfv2_lsu_hdr.
unfoldable pub read_lsu : Bytes → ℕ → LsuHdr
read_lsu m p = record {
  seq = get16 m p;
  unused = m (p + 2);
  ttl = m (p + 3);
  num_adv = get32 m (p + 4);
}

-- struct ospfv2_lsu_adv, and the advertisements in a row.
unfoldable pub read_adv : Bytes → ℕ → LsuAdv
read_adv m p = record { subnet = get32 m p; mask = get32 m (p + 4); rid = get32 m (p + 8) }

unfoldable pub read_all_advs : Bytes → ℕ → ℕ → List LsuAdv
unfolding read_adv
read_all_advs m p zero = []
read_all_advs m p (suc n) = read_adv m p ∷ read_all_advs m (p + 12) n

unfoldable pub advs_bytes : List LsuAdv → List ℕ
advs_bytes [] = []
advs_bytes (a ∷ advs) = bytes32 a.subnet ++ bytes32 a.mask ++ bytes32 a.rid ++ advs_bytes advs
