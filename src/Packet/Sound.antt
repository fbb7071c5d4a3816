-- ===== src/Packet/Sound.antt =====
-- The invariants that the packet path keeps, and the messages that it writes.
pub mod Floods
pub mod Steps
pub mod Announcing
pub mod Gates
pub mod Frames
pub mod Handling
pub mod Sending
use pwospf.Base.{
  ℕ, ◌+◌, ◌-◌, ◌≤◌, ◌≡◌, refl, sym, ap, ◌∙◌, subst, Bool, true, false, ◌&&◌, ◌||◌, inl, inr, List,
  [], ◌∷◌, ◌++◌, Option, none, some, All, if-all, ltb, leb, ◌==◌, if◌then◌else◌, length, arith,
  Bool-cases, Option-cases, String, Outcome, done, ◌>>=◌, Settles, Settles-bind, Settles-map, Any,
}
use pwospf.Wire.{htonl}
use pwospf.Wire.Bytes.{Bytes, load, length-load, load-append}
use pwospf.Wire.Cksum.{max_cksum_length}
use pwospf.Wire.Sums.{write_cksum, write_cksum-total}
use pwospf.Firewall.{Firewall}
use pwospf.Firewall.Flow.{IsSized}
use pwospf.Topology.{Subsys}
use pwospf.Topology.WellFormed.{IsWellFormed}
use pwospf.Routing.{SrIf, sr_get_interface, same_mac}
use pwospf.Vns.{VnsPacket, sr_send_packet, ether_addrs_match_interface}
use pwospf.Packet.{Instance, Output, wire, thread, written}

-- The flow table is within its limit, and the topology is well-formed.
pub record IsSound (sr : Instance) : Type 0 where
  pub sized : IsSized sr.firewall
  pub formed : IsWellFormed sr.ospf_subsys

-- A message to the simulator carries a frame of at least 14 bytes, says how long it is, and names an
-- interface that exists and has the source address of the frame.
pub record IsSourced (if_list : List SrIf) (v : VnsPacket) : Type 0 where
  pub iface : SrIf
  pub dhost : List ℕ
  pub shost : List ℕ
  pub rest : List ℕ
  pub exists : sr_get_interface if_list v.m_interface_name ≡ some iface
  pub bytes : v.frame ≡ dhost ++ (shost ++ rest)
  pub six : length dhost ≡ 6
  pub source : same_mac shost iface.addr ≡ true
  pub long : 14 ≤ length v.frame
  pub told : v.m_len ≡ htonl (length v.frame + 24)

abbrev pub Sourced : List SrIf → Output → Type 0
Sourced if_list (wire v) = IsSourced if_list v
Sourced if_list (thread next_hop) = Unit

-- What a step may leave: the invariants, the same interfaces, and such messages.
abbrev pub Good : List SrIf → Instance → List Output → Type 0
Good if_list sr out = IsSound sr × (sr.if_list ≡ if_list) × All (Sourced if_list) out

pub All-append :
    {A : Type 0} (P : A → Type 0) (xs ys : List A) → All P xs → All P ys → All P (xs ++ ys)
All-append P [] ys a b = b
All-append P (x ∷ xs) ys (p, a) b = (p, All-append P xs ys a b)

sent :
    (if_list : List SrIf) (buf : Bytes) (p len : ℕ) (name : String) (i : SrIf)
    → sr_get_interface if_list name ≡ some i
    → same_mac (load buf (p + 6) 6) i.addr ≡ true
    → 14 ≤ len
    → IsSourced if_list (record {
      m_len = htonl (len + 24);
      m_type = htonl 4;
      m_interface_name = name;
      frame = load buf p len;
    })
sent if_list buf p len name i found same long =
    let count = length-load buf p len in
    let whole : 6 + (6 + (len - 12)) ≡ len = omega (arith, long) in
    record {
      iface = i;
      dhost = load buf p 6;
      shost = load buf (p + 6) 6;
      rest = load buf (p + 6 + 6) (len - 12);
      exists = found;
      bytes =
          ap (load buf p) (sym whole)
          ∙ load-append buf p 6 (6 + (len - 12))
          ∙ ap (λ l. load buf p 6 ++ l) (load-append buf (p + 6) 6 (len - 12));
      six = length-load buf p 6;
      source = same;
      long = omega (arith, long, count);
      told = ap (λ n. htonl (n + 24)) (sym count);
    }

pub written-Sourced :
    (if_list : List SrIf) (buf : Bytes) (p len : ℕ) (name : String)
    → All (Sourced if_list) (written (sr_send_packet if_list buf p len name))
unfolding sr_send_packet ether_addrs_match_interface
written-Sourced if_list buf p len name = elim (Bool-cases (ltb len 14)) [
  | inl short ↦ rw (short, sr_send_packet) tt
  | inr long ↦ elim (Option-cases (sr_get_interface if_list name)) [
    | inl e ↦ rw (long, e, sr_send_packet, ether_addrs_match_interface) tt
    | inr (i, e) ↦ elim (Bool-cases (same_mac (load buf (p + 6) 6) i.addr)) [
      | inl same ↦
          rw (long, e, same, sr_send_packet, ether_addrs_match_interface)
            (sent if_list buf p len name i e same (ground (arith, long)), tt)
      | inr differs ↦ rw (long, e, differs, sr_send_packet, ether_addrs_match_interface) tt
    ]
  ]
]

pub write_cksum-Settles :
    (m : Bytes) (p len field : ℕ) → len ≤ max_cksum_length → Settles (write_cksum m p len field) Any
write_cksum-Settles m p len field short =
    let (m', e, _) = write_cksum-total m p len field short in rw e tt
