-- ===== src/Packet/Reply.antt =====
-- The IP header of an answer of the router: the end of handle_ip.
use pwospf.Base.{
  ℕ, ◌+◌, ◌-◌, ◌%◌, ◌^◌, ◌<◌, ◌≤◌, ◌≡◌, refl, sym, ◌∙◌, inl, inr, [], ◌∷◌, some, arith, done,
}
use pwospf.Wire.{htons}
use pwospf.Wire.Bytes.{Bytes, Apart, bytes16, load, store, length-load, store-Apart}
use pwospf.Wire.Cksum.{cksum}
use pwospf.Wire.Sums.{AreBytes, write_cksum-verifies}
use pwospf.Wire.Ranges.{load-Byte, store-Byte, store-AreBytes, load-stored}
use pwospf.Packet.{PacketState}
use pwospf.Packet.Ip.{answer_hdr, init_ttl, ipproto_icmp}

-- The length of a response behind its Ethernet header, as 16 bits.
abbrev pub ip_size : PacketState → ℕ
ip_size ps = (ps.res_len + (2 ^ 32 - 14)) % 2 ^ 16

-- The header at `iph` answers the one at `ip_hdr` in `m`, for a datagram of `size` bytes: the
-- addresses are exchanged, the time to live is 255, the protocol is ICMP, and the checksum verifies.
pub record Answers (m : Bytes) (ip_hdr : ℕ) (b : Bytes) (iph size : ℕ) : Type 0 where
  pub verifies : cksum (b (iph + 20)) (load b iph 20) ≡ some 0
  pub sized : load b (iph + 2) 2 ≡ bytes16 (htons size)
  pub lives : load b (iph + 8) 2 ≡ init_ttl ∷ ipproto_icmp ∷ []
  pub from : load b (iph + 12) 4 ≡ load m (ip_hdr + 16) 4
  pub to : load b (iph + 16) 4 ≡ load m (ip_hdr + 12) 4

pub answer_hdr-Answers :
    (ps : PacketState) (iph ip_hdr : ℕ)
    → AreBytes ps.memory ip_hdr 20
    → (b : Bytes) × (answer_hdr ps iph ip_hdr ≡ done b)
      × Answers ps.memory ip_hdr b iph (ip_size ps)
      × ((q : ℕ) → Apart q iph 20 → b q ≡ ps.buffer q)
unfolding answer_hdr
answer_hdr-Answers ps iph ip_hdr bytes =
    let m = ps.memory in
    let header = load m ip_hdr 20 in
    let src = load m (ip_hdr + 16) 4 in
    let dst = load m (ip_hdr + 12) 4 in
    let header_size = length-load m ip_hdr 20 in
    let src_size = length-load m (ip_hdr + 16) 4 in
    let dst_size = length-load m (ip_hdr + 12) 4 in
    let part : (k : ℕ) → k + 4 ≤ 20 → AreBytes m (ip_hdr + k) 4 =
      λ k short q lo hi. bytes q (omega (arith, lo)) (omega (arith, hi, short)) in
    let src_bytes = load-Byte m (ip_hdr + 16) 4 (part 16 (omega arith)) in
    let dst_bytes = load-Byte m (ip_hdr + 12) 4 (part 12 (omega arith)) in
    let c1 = store ps.buffer iph header in
    let c2 = store c1 (iph + 2) (bytes16 (htons (ip_size ps))) in
    let c3 = store c2 (iph + 8) (init_ttl ∷ ipproto_icmp ∷ []) in
    let c4 = store c3 (iph + 12) src in
    let c5 = store c4 (iph + 16) dst in
    let b1 : AreBytes c1 iph 20 = λ q lo hi.
      store-Byte ps.buffer iph header q (load-Byte m ip_hdr 20 bytes) lo
        (omega (arith, hi, header_size)) in
    let b2 : AreBytes c2 iph 20 =
      store-AreBytes c1 (iph + 2) (bytes16 (htons (ip_size ps))) iph 20
        (omega arith, (omega arith, tt)) (λ q lo hi _. b1 q lo hi) in
    let b3 : AreBytes c3 iph 20 =
      store-AreBytes c2 (iph + 8) (init_ttl ∷ ipproto_icmp ∷ []) iph 20
        (omega arith, (omega arith, tt)) (λ q lo hi _. b2 q lo hi) in
    let b4 : AreBytes c4 iph 20 =
      store-AreBytes c3 (iph + 12) src iph 20 src_bytes (λ q lo hi _. b3 q lo hi) in
    let b5 : AreBytes c5 iph 20 =
      store-AreBytes c4 (iph + 16) dst iph 20 dst_bytes (λ q lo hi _. b4 q lo hi) in
    let (b, e, verifies, _, same) = write_cksum-verifies c5 iph 5 4 b5 (omega arith) in
    let upto : (q : ℕ) → q < iph + 10 → b q ≡ c3 q = λ q hi.
      same q (inl hi)
      ∙ store-Apart c4 (iph + 16) dst q (inl (omega (arith, hi)))
      ∙ store-Apart c3 (iph + 12) src q (inl (omega (arith, hi))) in
    let tail : (q : ℕ) → iph + 12 ≤ q → b q ≡ c5 q = λ q lo. same q (inr (omega (arith, lo))) in
    (
      b,
      e,
      record {
        verifies = verifies;
        sized = load-stored c1 b (iph + 2) 2 (bytes16 (htons (ip_size ps))) refl (λ q lo hi.
            upto q (omega (arith, hi))
            ∙ store-Apart c2 (iph + 8) (init_ttl ∷ ipproto_icmp ∷ []) q (inl (omega (arith, hi))));
        lives =
            load-stored c2 b (iph + 8) 2 (init_ttl ∷ ipproto_icmp ∷ []) refl
              (λ q lo hi. upto q (omega (arith, hi)));
        from =
            load-stored c3 b (iph + 12) 4 src (sym src_size)
              (λ q lo hi. tail q lo ∙ store-Apart c4 (iph + 16) dst q (inl (omega (arith, hi))));
        to =
            load-stored c4 b (iph + 16) 4 dst (sym dst_size) (λ q lo _. tail q (omega (arith, lo)));
      },
      λ q apart.
          same q (ground (arith, apart))
          ∙ store-Apart c4 (iph + 16) dst q (ground (arith, apart, dst_size))
          ∙ store-Apart c3 (iph + 12) src q (ground (arith, apart, src_size))
          ∙ store-Apart c2 (iph + 8) (init_ttl ∷ ipproto_icmp ∷ []) q (ground (arith, apart))
          ∙ store-Apart c1 (iph + 2) (bytes16 (htons (ip_size ps))) q (ground (arith, apart))
          ∙ store-Apart ps.buffer iph header q (ground (arith, apart, header_size)),
    )
