-- ===== src/Arp.antt =====
-- The ARP cache of arp.c, and the handling of ARP packets.
pub mod Cache
pub mod Expiry
pub mod Reply
pub mod Queue
use pwospf.Base.{
  ℕ, zero, suc, ◌+◌, ◌*◌, Bool, true, false, ◌&&◌, List, [], ◌∷◌, ◌++◌, Option, none, some, ltb,
  ◌==◌, if◌then◌else◌, String, Outcome, done, aborted, out_of_fuel, ◌>>=◌,
}
use pwospf.Wire.{EthernetHdr, ArpHdr, htons, ethertype_arp}
use pwospf.Routing.{SrIf, sr_get_interface}

abbrev pub arp_timeout : ℕ
arp_timeout = 15

-- struct arp_cache_entry.
pub record ArpCacheEntry : Type 0 where
  pub ip_add : ℕ
  pub mac : List ℕ
  pub timenotvalid : ℕ

-- Each of the three branches of the source unlinks the walker and goes on behind it.
pub check_cache_invalid : ℕ → List ArpCacheEntry → List ArpCacheEntry
check_cache_invalid now [] = []
check_cache_invalid now (e ∷ es) =
    let rest = check_cache_invalid now es in if ltb e.timenotvalid now then rest else e ∷ rest

pub find_mac : List ArpCacheEntry → ℕ → Option (List ℕ)
find_mac [] ip = none
find_mac (e ∷ es) ip = if ip == e.ip_add then some e.mac else find_mac es ip

-- The cache that is left, and the address found.
unfoldable pub search_cache : List ArpCacheEntry → ℕ → ℕ → List ArpCacheEntry × Option (List ℕ)
unfolding check_cache_invalid find_mac
search_cache cache now ip = let left = check_cache_invalid now cache in (left, find_mac left ip)

-- `assert(ip)` fails for the address 0.
pub add_cache_entry : List ArpCacheEntry → ℕ → ℕ → List ℕ → Outcome (List ArpCacheEntry)
unfolding search_cache
add_cache_entry cache now ip mac =
    let (left, found) = search_cache cache now ip in
    elim found [
      | some _ ↦ done left
      | none ↦
          if ip == 0
          then aborted
          else done
              (left ++ record { ip_add = ip; mac = mac; timenotvalid = now + arp_timeout } ∷ [])
    ]

pub got_reply : List ArpCacheEntry → ℕ → ArpHdr → Outcome (List ArpCacheEntry × Option (List ℕ))
got_reply cache now arp =
    add_cache_entry cache now arp.ar_sip arp.ar_sha >>= λ c. done (search_cache c now arp.ar_sip)

-- The reply that construct_reply puts into the response, without its length.
pub construct_reply : ArpHdr → List ℕ → EthernetHdr → EthernetHdr × ArpHdr
construct_reply arp_hdr mac eth = (
  record { ether_dhost = eth.ether_shost; ether_shost = mac; ether_type = htons ethertype_arp },
  record {
    ar_hrd = arp_hdr.ar_hrd;
    ar_pro = arp_hdr.ar_pro;
    ar_hln = 6;
    ar_pln = arp_hdr.ar_pln;
    ar_op = htons 2;
    ar_sha = mac;
    ar_sip = arp_hdr.ar_tip;
    ar_tha = arp_hdr.ar_sha;
    ar_tip = arp_hdr.ar_sip;
  },
)

-- A missing interface is a failed `assert`.
pub got_request : List SrIf → String → ArpHdr → EthernetHdr → Outcome (EthernetHdr × ArpHdr)
unfolding construct_reply
got_request if_list interface arp_hdr eth = elim (sr_get_interface if_list interface) [
  | none ↦ aborted
  | some iface ↦ done (construct_reply arp_hdr iface.addr eth)
]

abbrev broadcast : List ℕ
broadcast = 0xff ∷ 0xff ∷ 0xff ∷ 0xff ∷ 0xff ∷ 0xff ∷ []

-- A missing interface is a null pointer that is read.
pub construct_request : List SrIf → String → ℕ → Outcome (EthernetHdr × ArpHdr)
construct_request if_list interface ip_addr = elim (sr_get_interface if_list interface) [
  | none ↦ aborted
  | some iface ↦ done (
    record { ether_dhost = broadcast; ether_shost = iface.addr; ether_type = htons ethertype_arp },
    record {
      ar_hrd = htons 1;
      ar_pro = htons 0x0800;
      ar_hln = 6;
      ar_pln = 4;
      ar_op = htons 1;
      ar_sha = iface.addr;
      ar_sip = iface.ip;
      ar_tha = 0 ∷ 0 ∷ 0 ∷ 0 ∷ 0 ∷ 0 ∷ [];
      ar_tip = ip_addr;
    },
  )
]

-- What handle_ARP does: the cache afterwards, with a reply to send, or with the address returned.
pub data Handled : Type 0 where
  answers : EthernetHdr → ArpHdr → Handled
  learns : List ArpCacheEntry → Option (List ℕ) → Handled
  ignores : Handled

-- `len` is the length behind the Ethernet header; an ARP header has 28 bytes.
pub handle_arp :
    List SrIf → String → List ArpCacheEntry → ℕ → ℕ → ArpHdr → EthernetHdr → Outcome Handled
unfolding got_request got_reply
handle_arp if_list interface cache now len arp eth =
    if ltb len 28
    then done ignores
    else (if htons arp.ar_op == 1
        then (got_request if_list interface arp eth >>= λ (e, a). done (answers e a))
        else (if htons arp.ar_op == 2
            then (got_reply cache now arp >>= λ (c, m). done (learns c m))
            else done ignores))
