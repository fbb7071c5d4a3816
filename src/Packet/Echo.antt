-- ===== src/Packet/Echo.antt =====
-- The answer to an ICMP echo request to the router.
use pwospf.Base.{
  ℕ, ◌+◌, ◌-◌, ◌*◌, ◌%◌, ◌^◌, ◌<◌, ◌≤◌, ◌≡◌, refl, sym, ap, subst, ◌∙◌, inl, inr, true, false, List,
  [], ◌∷◌, some, ltb, All, arith, done,
}
use pwospf.Wire.Bytes.{Bytes, load, store, length-load, store-Apart, load-same}
use pwospf.Wire.Layout.{read_ip}
use pwospf.Wire.Cksum.{cksum}
use pwospf.Wire.Sums.{AreBytes, write_cksum, write_cksum-verifies}
use pwospf.Wire.Ranges.{Byte, load-Byte, store-Byte, store-AreBytes, load-stored, load-join}
use pwospf.Firewall.{is_external}
use pwospf.Routing.{SrIf}
use pwospf.Packet.{max_pac_length, Instance, PacketState, leave_hdr_room, minus32}
use pwospf.Packet.Icmp.{handle_icmp, icmp_response, create_icmp_hdr, copy_echo_data, sum_message}
use pwospf.Packet.Ip.{own, find_destination, answer, to_router, handle_ip}
use pwospf.Packet.Reply.{Answers, answer_hdr-Answers}

-- The eight bytes of a fresh header of an echo reply.
abbrev blank : List ℕ
blank = 0 ∷ 0 ∷ 0 ∷ 0 ∷ 0 ∷ 0 ∷ 0 ∷ 0 ∷ []

-- The message at `r` in a response answers the request at `p` in the packet, with `size` bytes from
-- the identifier on.
pub record Echoes (m : Bytes) (p : ℕ) (b : Bytes) (r size : ℕ) : Type 0 where
  pub kind : load b r 2 ≡ 0 ∷ 0 ∷ []
  pub body : load b (r + 4) size ≡ load m (p + 4) size
  pub verifies : cksum (b (r + (4 + size))) (load b r (4 + size)) ≡ some 0

-- The message before its sum is taken.
abbrev unsummed : PacketState → ℕ → Bytes
unsummed ps n =
    store
      (store (store ps.buffer ps.response blank) (ps.response + 4)
        (load ps.memory (ps.packet + 4) 4))
      (ps.response + 8) (load ps.memory (ps.packet + 8) n)

icmp_response-echo :
    (ps : PacketState) (ip_hdr k : ℕ) (b : Bytes)
    → ps.len ≡ 8 + 2 * k
    → ps.res_len ≡ 34
    → 42 + 2 * k ≤ max_pac_length
    → write_cksum (unsummed ps (2 * k)) ps.response (2 * 1 + (2 + 2 * (k + 2))) 2 ≡ done b
    → icmp_response ps ip_hdr 0 0
      ≡ done (record ps {
        buffer = b;
        response = ps.response + 8;
        packet = ps.packet + 8;
        len = 2 * k;
        res_len = 42 + 2 * k;
      })
unfolding icmp_response create_icmp_hdr copy_echo_data sum_message
icmp_response-echo ps ip_hdr k b size room few ran =
    let left : minus32 ps.len 8 ≡ 2 * k = omega (arith, size, few) in
    let all : ps.res_len + 8 + 2 * k - 34 ≡ 2 * 1 + (2 + 2 * (k + 2)) = omega (arith, room, few) in
    let total : ps.res_len + 8 + 2 * k ≡ 42 + 2 * k = omega (arith, room) in
    let fits : ltb max_pac_length (ps.res_len + 8 + 2 * k) ≡ false = ground (arith, room, few) in
    rw (left, fits, all, ran, total) refl

blank-kind : (m : Bytes) (r : ℕ) → load (store m r blank) r 2 ≡ 0 ∷ 0 ∷ []
unfolding load store
blank-kind m r = ground arith

unsummed-Echoes :
    (ps : PacketState) (k : ℕ)
    → AreBytes ps.memory ps.packet (8 + 2 * k)
    → 42 + 2 * k ≤ max_pac_length
    → (b : Bytes) × (write_cksum (unsummed ps (2 * k)) ps.response (2 * 1 + (2 + 2 * (k + 2))) 2
        ≡ done b)
      × Echoes ps.memory ps.packet b ps.response (4 + 2 * k)
      × ((q : ℕ) → q < ps.response → b q ≡ ps.buffer q)
unsummed-Echoes ps k bytes few =
    let m = ps.memory in
    let r = ps.response in
    let ids = load m (ps.packet + 4) 4 in
    let rest = load m (ps.packet + 8) (2 * k) in
    let ids_size = length-load m (ps.packet + 4) 4 in
    let rest_size = length-load m (ps.packet + 8) (2 * k) in
    let b1 = store ps.buffer r blank in
    let b2 = store b1 (r + 4) ids in
    let b3 = store b2 (r + 8) rest in
    let whole : 2 * 1 + (2 + 2 * (k + 2)) ≡ 4 + (4 + 2 * k) = omega arith in
    let there : r + 4 + 4 ≡ r + 8 = omega arith in
    let here : ps.packet + 8 ≡ ps.packet + 4 + 4 = omega arith in
    let zero_byte : Byte 0 = omega arith in
    let ids_bytes =
      load-Byte m (ps.packet + 4) 4 (λ q lo hi. bytes q (omega (arith, lo)) (omega (arith, hi))) in
    let rest_bytes =
      load-Byte m (ps.packet + 8) (2 * k)
        (λ q lo hi. bytes q (omega (arith, lo)) (omega (arith, hi))) in
    let blank_bytes : All Byte blank = (
      zero_byte,
      (zero_byte, (zero_byte, (zero_byte, (zero_byte, (zero_byte, (zero_byte, (zero_byte, tt))))))),
    ) in
    let s1 : AreBytes b1 r 8 = λ q lo hi. store-Byte ps.buffer r blank q blank_bytes lo hi in
    let s2 : AreBytes b2 r 8 =
      store-AreBytes b1 (r + 4) ids r 8 ids_bytes (λ q lo hi _. s1 q lo hi) in
    let s3 : AreBytes b3 r (2 * 1 + (2 + 2 * (k + 2))) =
      store-AreBytes b2 (r + 8) rest r (2 * 1 + (2 + 2 * (k + 2))) rest_bytes
        (λ q lo hi apart. s2 q lo (ground (arith, hi, apart, rest_size))) in
    let (b, e, verifies, _, same) = write_cksum-verifies b3 r 1 (k + 2) s3 (omega (arith, few)) in
    (
      b,
      e,
      record {
        kind =
            load-same b b1 r 2 (λ q lo hi.
              same q (inl (omega (arith, hi)))
              ∙ store-Apart b2 (r + 8) rest q (inl (omega (arith, hi)))
              ∙ store-Apart b1 (r + 4) ids q (inl (omega (arith, hi))))
            ∙ blank-kind ps.buffer r;
        body =
            load-join b m (r + 4) (ps.packet + 4) 4 (2 * k)
              (load-stored b1 b (r + 4) 4 ids (sym ids_size) (λ q lo hi.
                same q (inr (omega (arith, lo)))
                ∙ store-Apart b2 (r + 8) rest q (inl (omega (arith, hi)))))
              (ap (λ p. load b p (2 * k)) there
                ∙ load-stored b2 b (r + 8) (2 * k) rest (sym rest_size)
                    (λ q lo hi. same q (inr (omega (arith, lo))))
                ∙ ap (λ p. load m p (2 * k)) here);
        verifies = subst (λ n. cksum (b (r + n)) (load b r n) ≡ some 0) whole verifies;
      },
      λ q before.
          same q (inl (omega (arith, before)))
          ∙ store-Apart b2 (r + 8) rest q (inl (omega (arith, before)))
          ∙ store-Apart b1 (r + 4) ids q (inl (omega (arith, before)))
          ∙ store-Apart ps.buffer r blank q (inl before),
    )

-- What is written before the message does not change it.
Echoes-kept :
    (m : Bytes) (p : ℕ) (b b' : Bytes) (r size : ℕ)
    → ((q : ℕ) → r ≤ q → b' q ≡ b q)
    → Echoes m p b r size
    → Echoes m p b' r size
Echoes-kept m p b b' r size same e = record {
  kind = load-same b' b r 2 (λ q lo _. same q lo) ∙ e.kind;
  body = load-same b' b (r + 4) size (λ q lo _. same q (omega (arith, lo))) ∙ e.body;
  verifies =
      ap (λ x. cksum x (load b' r (4 + size))) (same (r + (4 + size)) (omega arith))
      ∙ ap (cksum (b (r + (4 + size)))) (load-same b' b r (4 + size) (λ q lo _. same q lo))
      ∙ e.verifies;
}

-- An ICMP echo request of an even length, in a frame of at most 10000 bytes, to an address of the router, that comes in on an interface
-- that is not external, whose header is of bytes and passes the test of its length. handle_ip
-- answers it, in a response as long as the frame: with an IP header that has the addresses
-- exchanged and a checksum that verifies, and with an echo reply behind it that has the identifier,
-- the sequence number and all the data of the request, and a checksum that verifies.
pub handle_ip-Echoes :
    (sr : Instance) (now raw : ℕ) (ps : PacketState) (iface : SrIf) (k : ℕ)
    → is_external sr.firewall ps.interface ≡ false
    → find_destination sr.if_list (read_ip ps.memory ps.packet).ip_dst ≡ own iface
    → (read_ip ps.memory ps.packet).ip_hl * 4 ≤ 20
    → (read_ip ps.memory ps.packet).ip_p ≡ 1
    → ps.memory (ps.packet + 20) ≡ 8
    → ps.len ≡ 28 + 2 * k
    → 42 + 2 * k ≤ max_pac_length
    → ps.res_len ≡ 14
    → AreBytes ps.memory ps.packet (28 + 2 * k)
    → (ps' : PacketState) × (handle_ip sr now raw ps ≡ done (sr, ps', [], true))
      × (ps'.ok_to_send ≡ true)
      × (ps'.res_len ≡ 14 + ps.len)
      × Answers ps.memory ps.packet ps'.buffer ps.response (ps.len % 2 ^ 16)
      × Echoes ps.memory (ps.packet + 20) ps'.buffer (ps.response + 20) (4 + 2 * k)
unfolding handle_ip to_router answer handle_icmp leave_hdr_room
handle_ip-Echoes sr now raw ps iface k inside mine plain icmp request size few room bytes =
    let long : ltb ps.len 20 ≡ false = ground (arith, size) in
    let no_options : ltb 20 ((read_ip ps.memory ps.packet).ip_hl * 4) ≡ false =
      ground (arith, plain) in
    let moved = leave_hdr_room (record ps { ok_to_send = false }) 20 in
    let left : minus32 ps.len 20 ≡ 8 + 2 * k = omega (arith, size, few) in
    let enough : ltb (minus32 ps.len 20) 8 ≡ false = ground (arith, left) in
    let (b, ran, echoes, before) =
      unsummed-Echoes moved k (λ q lo hi. bytes q (omega (arith, lo)) (omega (arith, hi))) few in
    let filled : PacketState = record moved {
      buffer = b;
      response = moved.response + 8;
      packet = moved.packet + 8;
      len = 2 * k;
      res_len = 42 + 2 * k;
    } in
    let filled_by = icmp_response-echo moved ps.packet k b left (omega (arith, room)) few ran in
    let (c, ran', answers, rest) =
      answer_hdr-Answers filled ps.response ps.packet (λ q lo hi. bytes q lo (omega (arith, hi))) in
    let whole : (42 + 2 * k + (2 ^ 32 - 14)) % 2 ^ 16 ≡ ps.len % 2 ^ 16 =
      omega (arith, size, few) in
    (
      record filled { buffer = c; ok_to_send = true },
      rw
          (
            long, no_options, mine, inside, icmp, enough, request, filled_by, ran', handle_ip,
            to_router, answer, handle_icmp,
          )
          refl,
      refl,
      omega (arith, size),
      subst (λ n. Answers ps.memory ps.packet c ps.response n) whole answers,
      Echoes-kept ps.memory (ps.packet + 20) b c (ps.response + 20) (4 + 2 * k)
          (λ q lo. rest q (inr lo)) echoes,
    )
