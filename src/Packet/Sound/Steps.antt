-- ===== src/Packet/Sound/Steps.antt =====
-- icmp.c, forward_lsu and handle_pwospf on a packet, against the invariants.
use pwospf.Base.{
  ℕ, ◌+◌, ◌-◌, ◌%◌, ◌^◌, ◌≡◌, refl, List, [], ◌∷◌, some, if-all, ltb, ◌==◌, if◌then◌else◌, ◌&&◌,
  Bool-cases, inl, inr, arith, Outcome, done, Settles, Settles-bind, Any,
}
use pwospf.Wire.{htons}
use pwospf.Wire.Bytes.{Bytes, get16, get32, store}
use pwospf.Wire.Layout.{read_ospf, read_hello, read_lsu}
use pwospf.Wire.Sums.{write_cksum}
use pwospf.Topology.WellFormed.{Shrinks, Shrinks-IsWellFormed}
use pwospf.Pwospf.Hello.{HelloPacket, handle_hello}
use pwospf.Pwospf.Hello.Greeting.{handle_hello-Settles}
use pwospf.Pwospf.Updates.{Dispatch, handle_pwospf, handle_lsu}
use pwospf.Pwospf.Updates.Acceptance.{Recorded, handle_lsu-once}
use pwospf.Pwospf.Updates.Messages.{handle_pwospf-some}
use pwospf.Packet.{max_pac_length, Instance, PacketState, Output}
use pwospf.Packet.Icmp.{
  icmp_response, handle_icmp, sum_message, icmpt_echoreply, icmpt_destun, icmpt_timeex,
  icmpt_echorequest,
}
use pwospf.Packet.Ospf.{forward_frame, flood_copies, receive_lsu, receive_pwospf, advs_within}
use pwospf.Packet.Sound.{IsSound, Good, write_cksum-Settles}
use pwospf.Packet.Sound.Floods.{Good3, flood_copies-Settles}

sum_message-Settles : (ps : PacketState) (p : ℕ) → Settles (sum_message ps p) Any
unfolding sum_message
sum_message-Settles ps p = elim (Bool-cases (ltb max_pac_length ps.res_len)) [
  | inl long ↦ rw (long, sum_message) (tt {0})
  | inr fits ↦
      rw (fits, sum_message)
        (Settles-bind Any Any (write_cksum ps.buffer p (ps.res_len - 34) 2) _
          (write_cksum-Settles ps.buffer p (ps.res_len - 34) 2 (ground (arith, fits))) (λ b _. tt))
]

pub icmp_response-Settles :
    (ps : PacketState) (ip_hdr type code : ℕ) → Settles (icmp_response ps ip_hdr type code) Any
unfolding icmp_response
icmp_response-Settles ps ip_hdr type code =
    let ends : Outcome PacketState → Type 0 = λ x. Settles x Any in
    if-all ends (type == icmpt_echoreply) (sum_message-Settles _ ps.response) (
      if-all ends (type == icmpt_destun) (sum_message-Settles _ ps.response)
        (if-all ends (type == icmpt_timeex) (sum_message-Settles _ ps.response) (tt {0})))

pub handle_icmp-Settles : (ps : PacketState) (ip_hdr : ℕ) → Settles (handle_icmp ps ip_hdr) Any
unfolding handle_icmp
handle_icmp-Settles ps ip_hdr =
    let ends : Outcome PacketState → Type 0 = λ x. Settles x Any in
    if-all ends (ltb ps.len 8) (tt {0}) (
      if-all ends (ps.memory ps.packet == icmpt_echorequest)
        (icmp_response-Settles ps ip_hdr icmpt_echoreply icmpt_echoreply)
        (icmp_response-Settles ps ip_hdr icmpt_destun 3))

abbrev frame_size : Bytes → ℕ → ℕ
frame_size m packet = (14 + 20 + htons (get16 m (packet + 34 + 2))) % 2 ^ 16

forward_frame-Settles :
    (sr : Instance) (now : ℕ) (ps : PacketState) (packet ip_hdr : ℕ)
    → IsSound sr
    → Settles (forward_frame sr now ps packet ip_hdr) (Good3 sr)
unfolding forward_frame
forward_frame-Settles sr now ps packet ip_hdr w =
    Settles-bind Any (Good3 sr)
      (if ltb (ps.memory (ip_hdr + 8)) 1 then icmp_response ps ip_hdr icmpt_timeex 0 else done ps) _
      (if-all {A = Outcome PacketState} (λ x. Settles x Any) (ltb (ps.memory (ip_hdr + 8)) 1)
        (icmp_response-Settles ps ip_hdr icmpt_timeex 0) (tt {0}))
      (λ answered _.
        Settles-bind Any (Good3 sr) (write_cksum _ (packet + 34) 16 12) _
          (write_cksum-Settles _ (packet + 34) 16 12 (omega arith))
          (λ m _.
            if-all {A = Outcome (Instance × PacketState × List Output)} (λ x. Settles x (Good3 sr))
              (ltb 0 (m (packet + 58 + 3)) && ltb 0 (m (ip_hdr + 8)))
              (Settles-bind (Good3 {X = Bytes} sr) (Good3 {X = PacketState} sr)
                (flood_copies sr now m packet sr.ospf_subsys.interfaces (get32 m (ip_hdr + 12))
                  (frame_size m packet))
                (λ (sr', m', out). done (sr', record answered { memory = m' }, out))
                (flood_copies-Settles sr now m packet sr.ospf_subsys.interfaces
                  (get32 m (ip_hdr + 12)) (frame_size m packet) w)
                (λ x g. g))
              (w, refl, tt)))

receive_lsu-Settles :
    (sr : Instance) (now raw : ℕ) (ps : PacketState) (ip_hdr : ℕ)
    → IsSound sr
    → Settles (receive_lsu sr now raw ps ip_hdr) (Good3 sr)
unfolding receive_lsu
receive_lsu-Settles sr now raw ps ip_hdr w =
    let h = read_ospf ps.memory (ip_hdr + 20) in
    let l = read_lsu ps.memory (ip_hdr + 20 + 24) in
    let body = advs_within ps (ip_hdr + 20 + 32) in
    Settles-bind (Recorded h l) (Good3 sr) (handle_lsu sr.ospf_subsys now raw h l body) _
      (handle_lsu-once sr.ospf_subsys now raw h l body w.formed)
      (λ (s, fresh) (formed, _).
        let sr' : Instance = record sr { ospf_subsys = s } in
        let w' : IsSound sr' = record { sized = w.sized; formed = formed } in
        if-all {A = Outcome (Instance × PacketState × List Output)} (λ x. Settles x (Good3 sr))
          fresh
          (forward_frame-Settles sr' now (record ps { packet = ip_hdr - 14 }) (ip_hdr - 14) ip_hdr
            w')
          (w', refl, tt))

pub receive_pwospf-Settles :
    (sr : Instance) (now raw : ℕ) (ps : PacketState) (ip_hdr : ℕ)
    → IsSound sr
    → Settles (receive_pwospf sr now raw ps ip_hdr) (Good3 sr)
unfolding receive_pwospf
receive_pwospf-Settles sr now raw ps ip_hdr w =
    let (d, e) = handle_pwospf-some sr.ospf_subsys (read_ospf ps.memory (ps.packet + 20)) in by d e
  where
    quiet : Good sr.if_list sr []
    quiet = (w, refl, tt)

    by :
        (d : Dispatch)
        → handle_pwospf sr.ospf_subsys (read_ospf ps.memory (ps.packet + 20)) ≡ some d
        → Settles (receive_pwospf sr now raw ps ip_hdr) (Good3 sr)
    by Dispatch.invalid_version e = rw (e, receive_pwospf) quiet
    by Dispatch.wrong_checksum e = rw (e, receive_pwospf) quiet
    by Dispatch.wrong_area e = rw (e, receive_pwospf) quiet
    by Dispatch.wrong_autype e = rw (e, receive_pwospf) quiet
    by Dispatch.invalid_type e = rw (e, receive_pwospf) quiet
    by Dispatch.lsu e =
        rw (e, receive_pwospf)
          (receive_lsu-Settles sr now raw
            (record ps {
              packet = ps.packet + 20;
              memory = store ps.memory (ps.packet + 20 + 12) (0 ∷ 0 ∷ []);
            })
            ip_hdr w)
    by Dispatch.hello e =
        let p : HelloPacket = record {
          ip_src = get32 ps.memory (ip_hdr + 12);
          rid = (read_ospf ps.memory (ps.packet + 20)).rid;
          hello = read_hello ps.memory (ps.packet + 20 + 24);
        } in
        rw (e, receive_pwospf)
          (Settles-bind (Shrinks sr.ospf_subsys) (Good3 sr)
            (handle_hello sr.ospf_subsys now ps.interface ps.len p) _
            (handle_hello-Settles sr.ospf_subsys now ps.interface ps.len p)
            (λ s c. (
              record { sized = w.sized; formed = Shrinks-IsWellFormed sr.ospf_subsys s c w.formed },
              refl,
              tt,
            )))
