-- ===== src/Packet/Advertised.antt =====
-- The advertisements of a link state update, in the bytes that send_lsu writes and handle_lsu reads.
use pwospf.Base.{
  ℕ, ◌+◌, ◌*◌, ◌%◌, ◌^◌, ◌<◌, ◌≤◌, ◌≡◌, refl, ap, ◌∙◌, inr, List, [], ◌∷◌, ◌++◌, All, length, ◌==◌,
  false, arith, done,
}
use pwospf.Wire.{LsuHdr, LsuAdv}
use pwospf.Wire.Bytes.{Bytes, bytes16, bytes32, get32, store, store-Apart}
use pwospf.Wire.Layout.{read_adv, read_all_advs, advs_bytes}
use pwospf.Wire.Sums.{write_cksum-total}
use pwospf.Topology.{Subsys}
use pwospf.Routing.{SrRt}
use pwospf.Pwospf.Updates.{generate_adv, build_lsu}
use pwospf.Packet.Announce.{ospf_head, ip_head, lsu_frame}

-- The fields are words of 32 bits.
abbrev pub IsWide : LsuAdv → Type 0
IsWide a = (a.subnet < 2 ^ 32) × (a.mask < 2 ^ 32) × (a.rid < 2 ^ 32)

-- A written word is read where it was written.
get32-store :
    (m : Bytes) (p x : ℕ) (rest : List ℕ) → x < 2 ^ 32 → get32 (store m p (bytes32 x ++ rest)) p ≡ x
unfolding store
get32-store m p x rest small = ground (arith, small)

store-skip :
    (m : Bytes) (p x : ℕ) (rest : List ℕ) (q : ℕ)
    → p + 4 ≤ q
    → store m p (bytes32 x ++ rest) q ≡ store m (p + 4) rest q
unfolding store
store-skip m p x rest q behind =
    let n0 : (q == p) ≡ false = ground (arith, behind) in
    let n1 : (q == p + 1) ≡ false = ground (arith, behind) in
    let n2 : (q == p + 1 + 1) ≡ false = ground (arith, behind) in
    let n3 : (q == p + 1 + 1 + 1) ≡ false = ground (arith, behind) in
    let start : p + 1 + 1 + 1 + 1 ≡ p + 4 = omega arith in rw (n0, n1, n2, n3, start) refl

get32-same : (m m' : Bytes) (p : ℕ) → ((q : ℕ) → p ≤ q → m q ≡ m' q) → get32 m p ≡ get32 m' p
get32-same m m' p same =
    rw
      (
        same p (omega arith),
        same (p + 1) (omega arith),
        same (p + 2) (omega arith),
        same (p + 3) (omega arith),
      )
      refl

-- The advertisements that are written are read, whatever the bytes before them become.
read_all_advs-store :
    (m m' : Bytes) (p : ℕ) (advs : List LsuAdv)
    → All IsWide advs
    → ((q : ℕ) → p ≤ q → m' q ≡ store m p (advs_bytes advs) q)
    → read_all_advs m' p (length advs) ≡ advs
unfolding read_all_advs advs_bytes read_adv
read_all_advs-store m m' p [] wide same = refl
read_all_advs-store m m' p (a ∷ advs) (w, wide) same =
    let rest = advs_bytes advs in
    let r2 = bytes32 a.rid ++ rest in
    let r1 = bytes32 a.mask ++ r2 in
    let at4 : (q : ℕ) → p + 4 ≤ q → m' q ≡ store m (p + 4) r1 q =
      λ q lo. same q (omega (arith, lo)) ∙ store-skip m p a.subnet r1 q lo in
    let at8 : (q : ℕ) → p + 8 ≤ q → m' q ≡ store m (p + 8) r2 q = λ q lo.
      at4 q (omega (arith, lo))
      ∙ store-skip m (p + 4) a.mask r2 q (omega (arith, lo))
      ∙ ap (λ x. store m x r2 q) (omega arith) in
    let at12 : (q : ℕ) → p + 12 ≤ q → m' q ≡ store m (p + 12) rest q = λ q lo.
      at8 q (omega (arith, lo))
      ∙ store-skip m (p + 8) a.rid rest q (omega (arith, lo))
      ∙ ap (λ x. store m x rest q) (omega arith) in
    let subnet : get32 m' p ≡ a.subnet =
      get32-same m' (store m p (bytes32 a.subnet ++ r1)) p same ∙ get32-store m p a.subnet r1 w.0 in
    let mask : get32 m' (p + 4) ≡ a.mask =
      get32-same m' (store m (p + 4) r1) (p + 4) at4 ∙ get32-store m (p + 4) a.mask r2 w.1 in
    let rid : get32 m' (p + 8) ≡ a.rid =
      get32-same m' (store m (p + 8) r2) (p + 8) at8 ∙ get32-store m (p + 8) a.rid rest w.2 in
    let head : read_adv m' p ≡ a = λ i. record { subnet = subnet i; mask = mask i; rid = rid i } in
    ap (λ x. x ∷ read_all_advs m' (p + 12) (length advs)) head
    ∙ ap (λ l. a ∷ l) (read_all_advs-store m m' (p + 12) advs wide at12)

-- The frame that send_lsu builds always gets built, and behind its headers, at the offset where
-- handle_lsu reads, stand in order exactly the advertisements that were generated, where their fields
-- are words of 32 bits.
pub lsu_frame-generate_adv :
    (raw : Bytes) (s : Subsys) (table : List SrRt)
    → All IsWide (generate_adv s table)
    → (m : Bytes) × (lsu_frame raw s table ≡ done m)
      × (read_all_advs m 66 (length (generate_adv s table)) ≡ generate_adv s table)
unfolding lsu_frame build_lsu ospf_head ip_head
lsu_frame-generate_adv raw s table wide =
    let head : LsuHdr = (build_lsu (raw 60) s table).1 in
    let n = length (s.heap s.this_router).subnets + length table in
    let ospf_len = (24 + 8 + n * 12) % 2 ^ 16 in
    let body = store raw 66 (advs_bytes (generate_adv s table)) in
    let b1 = store body 58 (bytes16 head.seq) in
    let lsu = store b1 61 (head.ttl ∷ bytes32 head.num_adv) in
    let ospf = store lsu 34 (ospf_head s 4 ospf_len) in
    let (summed, e, same) = write_cksum-total ospf 34 16 12 (omega arith) in
    let head_bytes = ip_head ((20 + ospf_len) % 2 ^ 16) in
    (
      store summed 14 head_bytes,
      rw e refl,
      read_all_advs-store raw (store summed 14 head_bytes) 66 (generate_adv s table) wide (λ q lo.
          store-Apart summed 14 head_bytes q (inr (omega (arith, lo)))
          ∙ same q (inr (omega (arith, lo)))
          ∙ store-Apart lsu 34 (ospf_head s 4 ospf_len) q (inr (omega (arith, lo)))
          ∙ store-Apart b1 61 (head.ttl ∷ bytes32 head.num_adv) q (inr (omega (arith, lo)))
          ∙ store-Apart body 58 (bytes16 head.seq) q (inr (omega (arith, lo)))),
    )
