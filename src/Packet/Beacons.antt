-- ===== src/Packet/Beacons.antt =====
-- send_HELLO: a broadcast on every interface.
use pwospf.Base.{
  ℕ, ◌+◌, ◌≡◌, refl, sym, ap, ◌∙◌, inl, List, [], ◌∷◌, ◌++◌, some, length, arith, done, All,
}
use pwospf.Wire.{htons, htonl, ethertype_ip}
use pwospf.Wire.Bytes.{
  Bytes, bytes16, bytes32, load, store, length-load, load-append, store-Apart, load-same,
}
use pwospf.Wire.Sums.{write_cksum-total}
use pwospf.Wire.Ranges.{load-stored}
use pwospf.Topology.{PwospfIf, Subsys}
use pwospf.Pwospf.{default_helloint}
use pwospf.Routing.{SrIf, sr_get_interface}
use pwospf.Packet.{Instance, Output, wire, thread}
use pwospf.Packet.Leave.{sr_send_packet-written}
use pwospf.Packet.Announce.{
  hello_frame, hello_for, hello_loop, hello_from, send_hello, ip_head, ospf_head,
}

abbrev pub everyone : List ℕ
everyone = 0xff ∷ 0xff ∷ 0xff ∷ 0xff ∷ 0xff ∷ 0xff ∷ []

-- One message for each of the interfaces, in their order, with 66 bytes from the interface to all.
abbrev pub Beacons : List PwospfIf → List Output → Type 0
Beacons [] [] = Unit
Beacons (i ∷ ifs) (wire v ∷ out) =
    (v.m_interface_name ≡ i.name)
    × (length v.frame ≡ 66)
    × ((rest : List ℕ) × (v.frame ≡ everyone ++ (i.mac ++ rest)))
    × Beacons ifs out
Beacons [] (x ∷ out) = ⊥
Beacons (i ∷ ifs) [] = ⊥
Beacons (i ∷ ifs) (thread n ∷ out) = ⊥

-- The router has an interface of the same name and address, of six bytes.
abbrev pub IsBacked : List SrIf → PwospfIf → Type 0
IsBacked if_list i =
    (f : SrIf) × (sr_get_interface if_list i.name ≡ some f) × (f.addr ≡ i.mac) × (length i.mac ≡ 6)

hello_for-total :
    (m : Bytes) (i : PwospfIf)
    → length i.mac ≡ 6
    → (m' : Bytes) × (hello_for m i ≡ done m') × (load m' 0 6 ≡ load m 0 6) × (load m' 6 6 ≡ i.mac)
unfolding hello_for
hello_for-total m i six =
    let masked = store m 58 (bytes32 (htonl i.mask)) in
    let (ospf, e1, same1) = write_cksum-total masked 34 16 12 (omega arith) in
    let addressed = store ospf 26 (bytes32 i.address) in
    let (ip, e2, same2) = write_cksum-total addressed 14 20 10 (omega arith) in
    (
      store ip 6 i.mac,
      rw (e1, e2) refl,
      load-same (store ip 6 i.mac) m 0 6 (λ q _ hi.
          store-Apart ip 6 i.mac q (inl (omega (arith, hi)))
          ∙ same2 q (inl (omega (arith, hi)))
          ∙ store-Apart ospf 26 (bytes32 i.address) q (inl (omega (arith, hi)))
          ∙ same1 q (inl (omega (arith, hi)))
          ∙ store-Apart m 58 (bytes32 (htonl i.mask)) q (inl (omega (arith, hi)))),
      load-stored ip (store ip 6 i.mac) 6 6 i.mac (sym six) (λ q _ _. refl),
    )

hello_frame-everyone : (raw : Bytes) (s : Subsys) → load (hello_frame raw s) 0 6 ≡ everyone
unfolding hello_frame
hello_frame-everyone raw s =
    let type = bytes16 (htons ethertype_ip) in
    let group = bytes32 (htonl 0xe0000005) in
    let interval = bytes16 (htons default_helloint) ++ 0 ∷ 0 ∷ [] in
    let m1 = store raw 0 everyone in
    let m2 = store m1 12 type in
    let m3 = store m2 14 (ip_head 52) in
    let m4 = store m3 30 group in
    let m5 = store m4 62 interval in
    load-stored raw (hello_frame raw s) 0 6 everyone refl (λ q _ hi.
      store-Apart m5 34 (ospf_head s 1 32) q (inl (omega (arith, hi)))
      ∙ store-Apart m4 62 interval q (inl (omega (arith, hi)))
      ∙ store-Apart m3 30 group q (inl (omega (arith, hi)))
      ∙ store-Apart m2 14 (ip_head 52) q (inl (omega (arith, hi)))
      ∙ store-Apart m1 12 type q (inl (omega (arith, hi))))

hello_loop-Beacons :
    (if_list : List SrIf) (m : Bytes) (ifs : List PwospfIf)
    → load m 0 6 ≡ everyone
    → All (IsBacked if_list) ifs
    → (out : List Output) × (hello_loop if_list m ifs ≡ done out) × Beacons ifs out
unfolding hello_loop
hello_loop-Beacons if_list m [] all backed = ([], refl, tt)
hello_loop-Beacons if_list m (i ∷ ifs) all ((f, found, same, six), backed) =
    let (m', e, dest, source) = hello_for-total m i six in
    let (out, ran, beacons) = hello_loop-Beacons if_list m' ifs (dest ∙ all) backed in
    let sent =
      sr_send_packet-written if_list m' 66 i.name f found (source ∙ sym same) (omega arith) in
    let bytes : load m' 0 66 ≡ everyone ++ (i.mac ++ load m' 12 54) =
      load-append m' 0 6 60
      ∙ ap (λ l. l ++ load m' 6 60) (dest ∙ all)
      ∙ ap (λ l. everyone ++ l) (load-append m' 6 6 54 ∙ ap (λ l. l ++ load m' 12 54) source) in
    (
      wire (record {
        m_len = htonl (66 + 24);
        m_type = htonl 4;
        m_interface_name = i.name;
        frame = load m' 0 66;
      })
          ∷ out,
      rw (e, ran) (ap (λ l. done (l ++ out)) sent),
      (refl, length-load m' 0 66, (load m' 12 54, bytes), beacons),
    )

-- Where PWOSPF has an interface, and the router has each interface of PWOSPF by its name and its
-- address of six bytes, send_HELLO writes exactly one frame for each of them, in their order: 66
-- bytes from the address of the interface to all.
pub send_hello-Beacons :
    (sr : Instance) (raw : Bytes) (i : PwospfIf) (ifs : List PwospfIf)
    → sr.ospf_subsys.interfaces ≡ i ∷ ifs
    → All (IsBacked sr.if_list) (i ∷ ifs)
    → (out : List Output) × (send_hello sr raw ≡ done out) × Beacons (i ∷ ifs) out
unfolding send_hello hello_from
send_hello-Beacons sr raw i ifs e backed = rw e (
    hello_loop-Beacons sr.if_list (hello_frame raw sr.ospf_subsys) (i ∷ ifs)
      (hello_frame-everyone raw sr.ospf_subsys) backed)
