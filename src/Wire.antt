-- ===== src/Wire.antt =====
-- Byte order and the headers of sr_protocol.h and pwospf_protocol.h, and the checksum of
-- sr_router.c. The host is little-endian, as the build sets it.
pub mod Bytes
pub mod Layout
pub mod Sums
pub mod Ranges
pub mod Cksum
use pwospf.Base.{ℕ, ◌+◌, ◌*◌, ◌/◌, ◌%◌, ◌^◌, ◌<◌, ◌≡◌, List, arith}

-- Swaps the bytes of a 16-bit word. ntohs is the same function.
unfoldable pub htons : ℕ → ℕ
htons x = x % 256 * 256 + x / 256 % 256

-- Swaps the bytes of a 32-bit word. ntohl is the same function.
unfoldable pub htonl : ℕ → ℕ
htonl x = x % 256 * 2 ^ 24 + x / 256 % 256 * 2 ^ 16 + x / 2 ^ 16 % 256 * 256 + x / 2 ^ 24 % 256

pub htons-htons : (x : ℕ) → x < 2 ^ 16 → htons (htons x) ≡ x
unfolding htons
htons-htons x h = omega arith

pub htonl-htonl : (x : ℕ) → x < 2 ^ 32 → htonl (htonl x) ≡ x
unfolding htonl
htonl-htonl x h = omega arith

abbrev pub ethertype_ip : ℕ
ethertype_ip = 0x0800

abbrev pub ethertype_arp : ℕ
ethertype_arp = 0x0806

-- struct sr_ethernet_hdr; addresses are lists of six bytes.
pub record EthernetHdr : Type 0 where
  pub ether_dhost : List ℕ
  pub ether_shost : List ℕ
  pub ether_type : ℕ

-- struct sr_arphdr, each field as it stands in memory.
pub record ArpHdr : Type 0 where
  pub ar_hrd : ℕ
  pub ar_pro : ℕ
  pub ar_hln : ℕ
  pub ar_pln : ℕ
  pub ar_op : ℕ
  pub ar_sha : List ℕ
  pub ar_sip : ℕ
  pub ar_tha : List ℕ
  pub ar_tip : ℕ

-- struct ospfv2_hdr.
pub record OspfHdr : Type 0 where
  pub version : ℕ
  pub type : ℕ
  pub len : ℕ
  pub rid : ℕ
  pub aid : ℕ
  pub csum : ℕ
  pub autype : ℕ
  pub audata : ℕ

-- struct ospfv2_hello_hdr.
pub record HelloHdr : Type 0 where
  pub nmask : ℕ
  pub helloint : ℕ
  pub padding : ℕ

-- struct ospfv2_lsu_hdr.
pub record LsuHdr : Type 0 where
  pub seq : ℕ
  pub unused : ℕ
  pub ttl : ℕ
  pub num_adv : ℕ

-- struct ospfv2_lsu_adv.
pub record LsuAdv : Type 0 where
  pub subnet : ℕ
  pub mask : ℕ
  pub rid : ℕ
