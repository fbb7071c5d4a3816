-- ===== src/Packet/Relay.antt =====
-- The forwarding of a packet: update_ip_hdr and the last step of handle_ip.
use pwospf.Base.{
  ◌%◌, ◌^◌, ℕ, ◌+◌, ◌%◌, ◌<◌, ◌≤◌, ◌≡◌, refl, sym, ap, ◌∙◌, inl, inr, true, false, Bool-cases, [],
  ◌∷◌, some, ltb, ◌==◌, arith, done,
}
use pwospf.Wire.Bytes.{Bytes, Apart, load, store, length-load, store-Apart, load-store}
use pwospf.Wire.Cksum.{cksum}
use pwospf.Wire.Sums.{AreBytes, write_cksum-verifies}
use pwospf.Packet.{max_pac_length, Instance, PacketState}
use pwospf.Packet.Ip.{update_ip_hdr, send_on}

store-one : (m : Bytes) (p b : ℕ) → store m p (b ∷ []) p ≡ b
unfolding store
store-one m p b = ground arith

-- update_ip_hdr on a header of bytes returns, and lowers the time to live by one, modulo 256. The
-- checksum of the header is 0 then, its bytes are bytes, and no byte but that one and the two of the
-- checksum changes, in the header or outside of it.
pub update_ip_hdr_lem :
    (m : Bytes) (p : ℕ)
    → AreBytes m p 20
    → (m' : Bytes) × (update_ip_hdr m p ≡ done m')
      × (m' (p + 8) ≡ (m (p + 8) + 255) % 256)
      × (cksum (m' (p + 20)) (load m' p 20) ≡ some 0)
      × AreBytes m' p 20
      × ((q : ℕ) → Apart q (p + 8) 1 → Apart q (p + 10) 2 → m' q ≡ m q)
unfolding update_ip_hdr
update_ip_hdr_lem m p bytes =
    let lowered = store m (p + 8) ((m (p + 8) + 255) % 256 ∷ []) in
    let other : (q : ℕ) → Apart q (p + 8) 1 → lowered q ≡ m q =
      store-Apart m (p + 8) ((m (p + 8) + 255) % 256 ∷ []) in
    let here : lowered (p + 8) ≡ (m (p + 8) + 255) % 256 =
      store-one m (p + 8) ((m (p + 8) + 255) % 256) in
    let lowered_bytes : AreBytes lowered p 20 = λ q lo hi. elim (Bool-cases (q == p + 8)) [
      | inl at ↦ let place : q ≡ p + 8 = ground (arith, at) in rw (place, here) (omega arith)
      | inr not_at ↦ rw (other q (ground (arith, not_at))) (bytes q lo hi)
    ] in
    let (m', e, verifies, m'_bytes, same) =
      write_cksum-verifies lowered p 5 4 lowered_bytes (omega arith) in
    (
      m',
      e,
      same (p + 8) (inl (omega arith)) ∙ here,
      verifies,
      m'_bytes,
      λ q a b. same q b ∙ other q a,
    )

-- A packet of bytes whose time to live is not 0, and which fits into the 10000 bytes of the response
-- with the 20 bytes that are copied beyond its length, is forwarded: the response gets, from the place of
-- its IP header on, the packet with the time to live lowered by one and a checksum that verifies, and
-- no byte before that changes. Its length is the one of the packet with what was reserved, in 32 bits.
pub send_on-copies :
    (sr : Instance) (ps : PacketState) (ip_hdr iph : ℕ)
    → AreBytes ps.memory ip_hdr 20
    → 1 ≤ ps.memory (ip_hdr + 8)
    → iph + (ps.len + 20) ≤ max_pac_length
    → (m : Bytes) × (b : Bytes) × (send_on sr ps ip_hdr iph
        ≡ done (
          sr,
          record ps {
            memory = m;
            buffer = b;
            forward = true;
            res_len = (ps.res_len + ps.len) % 2 ^ 32;
          },
          [],
          true,
        ))
      × (load b iph (ps.len + 20) ≡ load m ip_hdr (ps.len + 20))
      × ((q : ℕ) → q < iph → b q ≡ ps.buffer q)
      × (m (ip_hdr + 8) + 1 ≡ ps.memory (ip_hdr + 8))
      × (cksum (m (ip_hdr + 20)) (load m ip_hdr 20) ≡ some 0)
      × ((q : ℕ) → Apart q (ip_hdr + 8) 1 → Apart q (ip_hdr + 10) 2 → m q ≡ ps.memory q)
unfolding send_on
send_on-copies sr ps ip_hdr iph bytes alive room =
    let (m, e, ttl, verifies, _, same) = update_ip_hdr_lem ps.memory ip_hdr bytes in
    let copy = load m ip_hdr (ps.len + 20) in
    let lasts : ltb (ps.memory (ip_hdr + 8)) 1 ≡ false = ground (arith, alive) in
    let fits : ltb max_pac_length (iph + (ps.len + 20)) ≡ false = ground (arith, room) in
    let byte : ps.memory (ip_hdr + 8) < 256 = bytes (ip_hdr + 8) (omega arith) (omega arith) in
    let size = length-load m ip_hdr (ps.len + 20) in
    (
      m,
      store ps.buffer iph copy,
      rw (lasts, fits, e, send_on) refl,
      ap (load (store ps.buffer iph copy) iph) (sym size) ∙ load-store ps.buffer iph copy,
      λ q before. store-Apart ps.buffer iph copy q (inl before),
      omega (arith, ttl, byte, alive),
      verifies,
      same,
    )
