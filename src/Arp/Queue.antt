-- ===== src/Arp/Queue.antt =====
-- The pending ARP requests of arpq.c, with the buffers of buffer.c and lsu_buf.c.
pub mod Delivery
pub mod Ends
use pwospf.Base.{
  ℕ, zero, suc, ◌+◌, Bool, true, false, List, [], ◌∷◌, ◌++◌, map, Option, none, some, ltb, ◌==◌,
  if◌then◌else◌, length, String, Outcome, done, aborted, out_of_fuel, ◌>>=◌,
}
use pwospf.Wire.{EthernetHdr, ArpHdr}
use pwospf.Routing.{SrIf}
use pwospf.Arp.{construct_request}

-- struct packet_buffer without its link: the bytes of the packet, and the header it came with.
pub record Packet : Type 0 where
  pub packet : List ℕ
  pub old_eth : EthernetHdr

-- struct arpq without its link and its thread. -1 in `num_requests` is `none`: no thread runs. An
-- entry of the LSU buffer is the bytes of the packet.
pub record Arpq : Type 0 where
  pub ip : ℕ
  pub num_requests : Option ℕ
  pub arp_request : EthernetHdr × ArpHdr
  pub pac_buf : List Packet
  pub lsu_buf : List (List ℕ)
  pub iface_name : String

-- What comes to be buffered: `type` 1 is a link state update, any other a packet with its header.
pub data Parcel : Type 0 where
  lsu : List ℕ → Parcel
  pack : Packet → Parcel

-- add_to_pack_buff adds at the end.
pub add_to_pack_buff : List Packet → Packet → List Packet
add_to_pack_buff [] p = p ∷ []
add_to_pack_buff (x ∷ buff) p = x ∷ add_to_pack_buff buff p

-- add_to_lsu_buff adds at the front.
pub add_to_lsu_buff : List (List ℕ) → List ℕ → List (List ℕ)
add_to_lsu_buff buff p = p ∷ buff

pub buffer : Arpq → Parcel → Arpq
unfolding add_to_pack_buff add_to_lsu_buff
buffer e (lsu p) = record e { lsu_buf = add_to_lsu_buff e.lsu_buf p }
buffer e (pack p) = record e { pac_buf = add_to_pack_buff e.pac_buf p }

unfoldable pub get_entry : List Arpq → ℕ → Option Arpq
get_entry [] next_hop = none
get_entry (e ∷ es) next_hop = if e.ip == next_hop then some e else get_entry es next_hop

-- The entry that get_entry points to is replaced by its image.
pub on_entry : List Arpq → ℕ → (Arpq → Arpq) → List Arpq
on_entry [] next_hop f = []
on_entry (e ∷ es) next_hop f = if e.ip == next_hop then f e ∷ es else e ∷ on_entry es next_hop f

-- The new entry, which goes to the end of the queue.
pub create_entry : List SrIf → ℕ → String → Outcome Arpq
create_entry if_list next_hop iface = construct_request if_list iface next_hop >>= λ request.
    done (record {
      ip = next_hop;
      num_requests = some 0;
      arp_request = request;
      pac_buf = [];
      lsu_buf = [];
      iface_name = iface;
    })

-- The queue afterwards, and whether a thread is started for the address.
pub get_mac_address : List SrIf → List Arpq → ℕ → Parcel → String → Outcome (List Arpq × Bool)
unfolding buffer get_entry on_entry create_entry
get_mac_address if_list pending next_hop parcel iface = elim (get_entry pending next_hop) [
  | some e ↦ elim e.num_requests [
    | some _ ↦ done (on_entry pending next_hop (λ x. buffer x parcel), false)
    | none ↦
        done (
          on_entry pending next_hop (λ x. record (buffer x parcel) { num_requests = some 0 }),
          true,
        )
  ]
  | none ↦ create_entry if_list next_hop iface >>= λ e. done (pending ++ buffer e parcel ∷ [], true)
]

-- What the thread of an entry puts on the wire: a request, a packet or an update with the address
-- found as its destination, or an ICMP host unreachable for a packet.
pub data Sent : Type 0 where
  request : EthernetHdr × ArpHdr → String → Sent
  frame : List ℕ → List ℕ → String → Sent
  host_unreachable : Packet → Sent

-- send_all_packs, send_all_lsus and send_all_icmps. A frame is the new destination with the bytes.
pub send_all_packs : List Packet → List ℕ → String → List Sent
send_all_packs [] mac iface = []
send_all_packs (p ∷ buff) mac iface = frame mac p.packet iface ∷ send_all_packs buff mac iface

pub send_all_lsus : List (List ℕ) → List ℕ → String → List Sent
send_all_lsus [] mac iface = []
send_all_lsus (p ∷ buff) mac iface = frame mac p iface ∷ send_all_lsus buff mac iface

pub send_all_icmps : List Packet → List Sent
send_all_icmps [] = []
send_all_icmps (p ∷ buff) = host_unreachable p ∷ send_all_icmps buff

-- The end of the thread.
pub close : Arpq → Arpq
close e = record e { num_requests = none; pac_buf = []; lsu_buf = [] }

-- One more request, `entry->num_requests++`. Only the thread itself lowers the count, at its end.
pub count_request : Option ℕ → Option ℕ
count_request none = some 0
count_request (some n) = some (n + 1)

-- The loop of arp_req_init with `rounds` rounds to go, against what search_cache will answer in
-- them, in turn; a missing answer is none. Nothing is buffered meanwhile.
pub arp_rounds : ℕ → Arpq → List (Option (List ℕ)) → Arpq × List Sent
unfolding send_all_packs send_all_lsus send_all_icmps close count_request
arp_rounds zero e answers = (close e, send_all_icmps e.pac_buf)
arp_rounds (suc rounds) e (some mac ∷ answers) =
    (close e, send_all_packs e.pac_buf mac e.iface_name ++ send_all_lsus e.lsu_buf mac e.iface_name)
arp_rounds (suc rounds) e (none ∷ answers) =
    let (e', sent) =
      arp_rounds rounds (record e { num_requests = count_request e.num_requests }) answers in
    (e', request e.arp_request e.iface_name ∷ sent)
arp_rounds (suc rounds) e [] =
    let (e', sent) =
      arp_rounds rounds (record e { num_requests = count_request e.num_requests }) [] in
    (e', request e.arp_request e.iface_name ∷ sent)

abbrev pub max_arp_requests : ℕ
max_arp_requests = 5

-- The thread sends the first request before its loop, which counts from 1.
pub arp_req_init : Arpq → List (Option (List ℕ)) → Arpq × List Sent
unfolding arp_rounds
arp_req_init e answers =
    let (e', sent) = arp_rounds 4 e answers in (e', request e.arp_request e.iface_name ∷ sent)
