-- ===== src/Tests/ArpCases.antt =====
-- The theorems on ARP at concrete inputs.
use pwospf.Base.{
  ℕ, ◌≡◌, ◌≢◌, ◌↔◌, inl, inr, ap, List, [], ◌∷◌, ◌++◌, map, none, some, In, arith, done,
}
use pwospf.Wire.{EthernetHdr, ArpHdr}
use pwospf.Arp.{ArpCacheEntry, search_cache, add_cache_entry, got_reply}
use pwospf.Arp.Expiry.{known, learn, add_cache_entry-learn}
use pwospf.Arp.Cache.{Holds, IsDistinct, search_cache_lem}
use pwospf.Arp.Reply.{got_reply_lem}
use pwospf.Arp.Queue.{Arpq, request, host_unreachable, arp_req_init}
use pwospf.Arp.Queue.Delivery.{times, delivered, arp_req_init-answered, arp_req_init-unanswered}

abbrev pub mac : List ℕ
mac = 1 ∷ 2 ∷ 3 ∷ 4 ∷ 5 ∷ 6 ∷ []

abbrev pub cache : List ArpCacheEntry
cache =
    record { ip_add = 10; mac = mac; timenotvalid = 90 }
    ∷ record { ip_add = 11; mac = mac; timenotvalid = 120 }
    ∷ []

cache-IsDistinct : IsDistinct cache
cache-IsDistinct = (
  λ x i. elim i [
    | inl same ↦ λ e. absurd (ground (arith, e, ap (λ (y : ArpCacheEntry). y.ip_add) same))
    | inr none_left ↦ absurd none_left
  ],
  ((λ x i. absurd i), tt),
)

abbrev pub reply : ArpHdr
reply = record {
  ar_hrd = 256;
  ar_pro = 8;
  ar_hln = 6;
  ar_pln = 4;
  ar_op = 512;
  ar_sha = mac;
  ar_sip = 12;
  ar_tha = mac;
  ar_tip = 13;
}

search_cache_lem_example :
    ((m : List ℕ)
      → (search_cache cache 100 11).1 ≡ some m
      → (e : ArpCacheEntry) × Holds cache 100 e × (e.ip_add ≡ 11) × (e.mac ≡ m))
    × (((search_cache cache 100 11).1 ≡ none)
        ↔ ((e : ArpCacheEntry) → Holds cache 100 e → e.ip_add ≢ 11))
    × ((e : ArpCacheEntry) → In e (search_cache cache 100 11).0 ↔ Holds cache 100 e)
search_cache_lem_example = search_cache_lem cache 100 11

got_reply_lem_example :
    (c : List ArpCacheEntry) × (m : List ℕ) × (got_reply cache 100 reply ≡ done (c, some m))
    × IsDistinct c
    × (((e : ArpCacheEntry) → Holds cache 100 e → e.ip_add ≢ 12) → m ≡ mac)
got_reply_lem_example = got_reply_lem cache 100 reply cache-IsDistinct (λ e. omega (arith, e))

add_cache_entry-learn_example :
    (known (search_cache cache 100 12).0 110 12 ≡ known cache 110 12)
    × ((c : List ArpCacheEntry) × (add_cache_entry cache 100 12 mac ≡ done c)
        × (known c 110 12 ≡ learn (known cache) 100 12 mac 110 12))
add_cache_entry-learn_example =
    add_cache_entry-learn cache 100 12 mac 110 12 (λ e. omega (arith, e)) (omega arith)

abbrev pub header : EthernetHdr
header = record { ether_dhost = mac; ether_shost = mac; ether_type = 8 }

abbrev pub pending : Arpq
pending = record {
  ip = 12;
  num_requests = some 0;
  arp_request = (header, reply);
  pac_buf =
      record { packet = 1 ∷ []; old_eth = header }
      ∷ record { packet = 2 ∷ []; old_eth = header }
      ∷ [];
  lsu_buf = (3 ∷ []) ∷ [];
  iface_name = "eth0";
}

arp_req_init-answered_example : arp_req_init pending (none ∷ some mac ∷ []) ≡ (
  record pending { num_requests = none; pac_buf = []; lsu_buf = [] },
  times 2 (request (header, reply) "eth0") ++ delivered pending mac,
)
arp_req_init-answered_example = arp_req_init-answered pending mac 1 [] (omega arith)

arp_req_init-unanswered_example : arp_req_init pending (none ∷ none ∷ none ∷ none ∷ []) ≡ (
  record pending { num_requests = none; pac_buf = []; lsu_buf = [] },
  times 5 (request (header, reply) "eth0") ++ map host_unreachable pending.pac_buf,
)
arp_req_init-unanswered_example = arp_req_init-unanswered pending []
