-- ===== src/Arp/Queue/Delivery.antt =====
-- arp_req_init of arpq.c: what becomes of the buffered packets.
use pwospf.Base.{
  ℕ, zero, suc, ◌+◌, ◌<◌, ◌≡◌, refl, ap, List, [], ◌∷◌, ◌++◌, map, Option, none, some, arith,
}
use pwospf.Arp.Queue.{
  Packet, Arpq, Sent, request, frame, host_unreachable, send_all_packs, send_all_lsus,
  send_all_icmps, close, count_request, arp_rounds, arp_req_init,
}

abbrev pub times : {A : Type 0} → ℕ → A → List A
times zero a = []
times (suc n) a = a ∷ times n a

-- The frames that an answer makes of the buffers.
abbrev pub delivered : Arpq → List ℕ → List Sent
delivered e mac =
    map (λ (p : Packet). frame mac p.packet e.iface_name) e.pac_buf
    ++ map (λ l. frame mac l e.iface_name) e.lsu_buf

packs-map :
    (ps : List Packet) (mac : List ℕ) (iface : _)
    → send_all_packs ps mac iface ≡ map (λ (p : Packet). frame mac p.packet iface) ps
unfolding send_all_packs
packs-map [] mac iface = refl
packs-map (p ∷ ps) mac iface = ap (λ l. frame mac p.packet iface ∷ l) (packs-map ps mac iface)

lsus-map :
    (ls : List (List ℕ)) (mac : List ℕ) (iface : _)
    → send_all_lsus ls mac iface ≡ map (λ l. frame mac l iface) ls
unfolding send_all_lsus
lsus-map [] mac iface = refl
lsus-map (l ∷ ls) mac iface = ap (λ k. frame mac l iface ∷ k) (lsus-map ls mac iface)

icmps-map : (ps : List Packet) → send_all_icmps ps ≡ map host_unreachable ps
unfolding send_all_icmps
icmps-map [] = refl
icmps-map (p ∷ ps) = ap (λ l. host_unreachable p ∷ l) (icmps-map ps)

rounds-answered :
    (rounds k : ℕ) (e : Arpq) (mac : List ℕ) (later : List (Option (List ℕ)))
    → k < rounds
    → arp_rounds rounds e (times k none ++ some mac ∷ later)
      ≡ (close e, times k (request e.arp_request e.iface_name) ++ delivered e mac)
unfolding arp_rounds close
rounds-answered zero k e mac later h = absurd (omega arith)
rounds-answered (suc rounds) zero e mac later h =
    rw (packs-map e.pac_buf mac e.iface_name, lsus-map e.lsu_buf mac e.iface_name) refl
rounds-answered (suc rounds) (suc k) e mac later h =
    rw
      (rounds-answered rounds k (record e { num_requests = count_request e.num_requests }) mac later
        (omega (arith, h)))
      refl

-- If the cache has the address in the round k + 1 for the first time, where k < 4, then the thread
-- sends k + 1 requests, then each buffered packet once in the order of its buffer, and each buffered
-- link state update once, to that address. No ICMP message is sent, and the entry is left idle with
-- empty buffers.
pub arp_req_init-answered :
    (e : Arpq) (mac : List ℕ) (k : ℕ) (later : List (Option (List ℕ)))
    → k < 4
    → arp_req_init e (times k none ++ some mac ∷ later) ≡ (
      record e { num_requests = none; pac_buf = []; lsu_buf = [] },
      times (k + 1) (request e.arp_request e.iface_name) ++ delivered e mac,
    )
unfolding arp_req_init close
arp_req_init-answered e mac k later h =
    let count : k + 1 ≡ suc k = omega arith in rw (count, rounds-answered 4 k e mac later h) refl

-- Without an answer in four rounds the thread sends five requests, then one host unreachable for
-- each buffered packet in the order of the buffer, and drops the buffered link state updates. The
-- entry is left idle with empty buffers.
pub arp_req_init-unanswered :
    (e : Arpq) (later : List (Option (List ℕ)))
    → arp_req_init e (times 4 none ++ later) ≡ (
      record e { num_requests = none; pac_buf = []; lsu_buf = [] },
      times 5 (request e.arp_request e.iface_name) ++ map host_unreachable e.pac_buf,
    )
unfolding arp_req_init arp_rounds close
arp_req_init-unanswered e later = rw (icmps-map e.pac_buf) refl
