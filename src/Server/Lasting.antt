-- ===== src/Server/Lasting.antt =====
-- The commands of the simulator, against the invariants of the firewall and of the topology.
use pwospf.Base.{
  ℕ, zero, suc, ◌+◌, ◌-◌, ◌/◌, Bool, ◌&&◌, not, inl, inr, List, [], Option, none, some, if-all, ltb,
  ◌==◌, Option-cases, Outcome, done, Settles, Settles-bind, Any, All, String,
}
use pwospf.Wire.{htonl}
use pwospf.Wire.Bytes.{Bytes, get32}
use pwospf.Topology.WellFormed.{IsWellFormed}
use pwospf.Routing.{SrIf, sr_get_interface}
use pwospf.Pwospf.{pwospf_init}
use pwospf.Pwospf.Start.{pwospf_init-Settles}
use pwospf.Vns.{sr_arp_req_not_for_us}
use pwospf.Packet.{Instance, Output, minus32}
use pwospf.Packet.Frame.{sr_handlepacket}
use pwospf.Packet.Sound.{IsSound, Sourced}
use pwospf.Packet.Sound.Floods.{Good2}
use pwospf.Packet.Sound.Frames.{sr_handlepacket-IsSound}
use pwospf.Server.{
  Environment, Result, goes_on, asserted, handle_entry, handle_entries, sr_handle_hwinfo,
  take_hwinfo, take_packet, sr_verify_routing_table, sr_read_from_server_expect,
}

asserted-Settles : {A : Type 0} (x : Option A) → Settles (asserted x) Any
unfolding asserted
asserted-Settles none = tt
asserted-Settles (some a) = tt

sr_arp_req_not_for_us-Settles :
    (ifs : List SrIf) (m : Bytes) (p len : ℕ) (interface : String)
    → Settles (sr_arp_req_not_for_us ifs m p len interface) Any
unfolding sr_arp_req_not_for_us
sr_arp_req_not_for_us-Settles ifs m p len interface =
    if-all {A = Outcome Bool} (λ x. Settles x Any) (ltb len 42) (tt {0})
      (elim (Option-cases (sr_get_interface ifs interface)) [
        | inl e ↦ rw e tt
        | inr (i, e) ↦ rw e tt
      ])

module _ (env : Environment) where
  handle_entries-Settles :
      (ifs : List SrIf) (m : Bytes) (p n : ℕ) → Settles (handle_entries env ifs m p n) Any
  unfolding handle_entries handle_entry
  handle_entries-Settles ifs m p zero = tt
  handle_entries-Settles ifs m p (suc n) =
      let ends : Outcome (List SrIf) → Type 0 = λ x. Settles x Any in
      Settles-bind Any Any (handle_entry env ifs m p) (λ x. handle_entries env x m (p + 36) n)
        (if-all ends (htonl (get32 m p) == 1) (tt {0}) (
          if-all ends (htonl (get32 m p) == 64) (asserted-Settles _)
            (if-all ends (htonl (get32 m p) == 32) (asserted-Settles _) (tt {0}))))
        (λ x _. handle_entries-Settles x m (p + 36) n)

module _ (env : Environment) (sr : Instance) (now : ℕ) where
  abbrev Kept3 : Instance × List Output × Result → Type 0
  Kept3 (sr', out, r) = IsSound sr' × All (Sourced sr.if_list) out

  take_hwinfo-IsSound :
      (buf : Bytes) → IsSound sr → Settles (take_hwinfo env sr now buf) (λ (sr', r). IsSound sr')
  unfolding take_hwinfo sr_handle_hwinfo
  take_hwinfo-IsSound buf w =
      Settles-bind Any (λ (x : Instance × Result). IsSound x.0)
        (sr_handle_hwinfo env sr.if_list buf) _
        (handle_entries-Settles env sr.if_list buf 8 ((htonl (get32 buf 0) - 8) / 36))
        (λ ifs _.
          if-all {A = Outcome (Instance × Result)} (λ x. Settles x (λ y. IsSound y.0))
            (not (sr_verify_routing_table ifs sr.routing_table == 0))
            (record { sized = w.sized; formed = w.formed })
            (Settles-bind IsWellFormed (λ (x : Instance × Result). IsSound x.0)
              (pwospf_init ifs now env.area_id env.raw_router) _
              (pwospf_init-Settles ifs now env.area_id env.raw_router)
              (λ s f. record { sized = w.sized; formed = f })))

  take_packet-IsSound :
      (buf : Bytes) (len : ℕ) → IsSound sr → Settles (take_packet env sr now buf len) Kept3
  unfolding take_packet
  take_packet-IsSound buf len w =
      let interface = env.name_at buf 8 in
      let size = minus32 (len + 14) 38 in
      let frame : Bytes = λ q. buf (24 + q) in
      if-all {A = Outcome (Instance × List Output × Result)} (λ x. Settles x Kept3) (ltb len 24)
        (tt {0})
        (Settles-bind Any Kept3 (sr_arp_req_not_for_us sr.if_list buf 24 size interface) _
          (sr_arp_req_not_for_us-Settles sr.if_list buf 24 size interface)
          (λ foreign _.
            if-all {A = Outcome (Instance × List Output × Result)} (λ x. Settles x Kept3) foreign
              (w, tt)
              (Settles-bind (Good2 sr) Kept3
                (sr_handlepacket sr now env.raw_number env.raw_bytes frame size interface)
                (λ (sr', out). done (sr', out, goes_on))
                (sr_handlepacket-IsSound sr now env.raw_number env.raw_bytes frame size interface w)
                (λ x g. (g.0, g.2)))))

  -- With the flow table within its limit and a well-formed topology, no command of the simulator runs
  -- forever once it has been read: it ends with both kept, unless an assertion fails or memory is
  -- read or written that is not there. That holds of the hardware information too, which starts PWOSPF anew. Each
  -- message that is written carries a frame of at least 14 bytes, says how long it is, and names an
  -- interface that exists and has the source address of the frame.
  pub sr_read_from_server_expect-IsSound :
      (expected_cmd : ℕ) (buf : Bytes) (len : ℕ)
      → IsSound sr
      → Settles
          (sr_read_from_server_expect env sr now expected_cmd buf len)
          (λ (sr', out, r). IsSound sr' × All (Sourced sr.if_list) out)
  unfolding sr_read_from_server_expect
  sr_read_from_server_expect-IsSound expected_cmd buf len w =
      let command = htonl (get32 buf 4) in
      let ends : Outcome (Instance × List Output × Result) → Type 0 = λ x. Settles x Kept3 in
      if-all ends (ltb 10000 len) (w, tt)
        (if-all ends (ltb len 8) (tt {0}) (
          if-all ends
            (not (expected_cmd == 0) && not (command == expected_cmd) && not (command == 2)) (w, tt)
            (if-all ends (command == 4) (take_packet-IsSound buf len w) (
              if-all ends (command == 2) (w, tt)
                (if-all ends (command == 16)
                  (Settles-bind (λ (x : Instance × Result). IsSound x.0) Kept3
                    (take_hwinfo env sr now buf) (λ (sr', r). done (sr', [], r))
                    (take_hwinfo-IsSound buf w) (λ x g. (g, tt)))
                  (if-all ends (command == 32) (w, tt)
                    (if-all ends (command == 128) (w, tt)
                      (if-all ends (command == 512) (w, tt) (w, tt)))))))))
