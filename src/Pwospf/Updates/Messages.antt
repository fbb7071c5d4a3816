-- ===== src/Pwospf/Updates/Messages.antt =====
-- What handle_pwospf takes, and how the messages that this router builds are read.
use pwospf.Base.{ℕ, ◌≡◌, ◌↔◌, refl, sym, ap, ◌∙◌, some, arith, not, ◌==◌, if-all, Option}
use pwospf.Wire.{htonl, htons, OspfHdr, LsuAdv}
use pwospf.Wire.Cksum.{cksum-total}
use pwospf.Routing.{SrRt}
use pwospf.Topology.{Route, Subsys}
use pwospf.Pwospf.Updates.{
  Dispatch, lsu, dispatch_type, header_bytes, header_csum, handle_pwospf, outgoing_header,
}

header_csum-some : (h : OspfHdr) → (c : ℕ) × (header_csum h ≡ some c)
unfolding header_csum
header_csum-some h =
    let (c, e, _) = cksum-total 0 (header_bytes h) (omega arith) in
    (htons c, rw (e, header_csum) refl)

-- The checksum of a header is not among the bytes that are summed.
header_csum-csum : (h : OspfHdr) (c : ℕ) → header_csum (record h { csum = c }) ≡ header_csum h
unfolding header_csum header_bytes
header_csum-csum h c = refl

pub handle_pwospf-some : (s : Subsys) (h : OspfHdr) → (d : Dispatch) × (handle_pwospf s h ≡ some d)
unfolding handle_pwospf
handle_pwospf-some s h =
    let (c, e) = header_csum-some h in
    if-all {A = Option Dispatch} (λ x. (d : Dispatch) × (x ≡ some d)) (not (h.version == 2))
      (Dispatch.invalid_version, refl) (rw e (_, refl))

handle_pwospf-takes :
    (t : Subsys) (h : OspfHdr) (type : ℕ)
    → h.version ≡ 2
    → header_csum h ≡ some h.csum
    → h.aid ≡ htonl t.area_id
    → h.autype ≡ t.autype
    → h.type ≡ type
    → handle_pwospf t h ≡ some (dispatch_type type)
unfolding handle_pwospf
handle_pwospf-takes t h type v c a u k = rw c (ground (arith, v, a, u, ap dispatch_type k))

-- The header that a router gives a message is taken by every router of its area that uses no
-- authentication, and goes to the handler of its type.
pub handle_pwospf-outgoing_header :
    (s t : Subsys) (type len : ℕ)
    → t.area_id ≡ s.area_id
    → t.autype ≡ 0
    → (h : OspfHdr) × (outgoing_header s type len ≡ some h)
      × (handle_pwospf t h ≡ some (dispatch_type type))
unfolding handle_pwospf outgoing_header
handle_pwospf-outgoing_header s t type len area none_used =
    let blank : OspfHdr = record {
      version = 2;
      type = type;
      len = htons len;
      rid = (s.heap s.this_router).rid;
      aid = htonl s.area_id;
      csum = 0;
      autype = 0;
      audata = 0;
    } in
    let (c, e) = header_csum-some blank in
    (
      record blank { csum = c },
      rw (e, outgoing_header) refl,
      handle_pwospf-takes t (record blank { csum = c }) type refl (header_csum-csum blank c ∙ e)
          (ap htonl (sym area)) (sym none_used) refl,
    )

-- A packet goes to the handler of link state updates exactly if its version is 2, its checksum is
-- the one that is computed, its area and its authentication type are this router's, and its type
-- is 4.
pub handle_pwospf-lsu_iff :
    (s : Subsys) (h : OspfHdr)
    → (handle_pwospf s h ≡ some lsu) ↔ (
        (h.version ≡ 2)
        × (header_csum h ≡ some h.csum)
        × (h.aid ≡ htonl s.area_id)
        × (h.autype ≡ s.autype)
        × (h.type ≡ 4))
unfolding handle_pwospf dispatch_type
handle_pwospf-lsu_iff s h = let (c, e) = header_csum-some h in rw e (ground arith)

-- The routes that a receiver makes of an advertisement.
abbrev pub received : ℕ → LsuAdv → Route
received raw a = record { prefix = a.subnet; mask = a.mask; next_hop = raw; r_id = a.rid }

-- A route without its next hop, as a receiver has it of another router, and a static one.
abbrev pub seen : ℕ → Route → Route
seen raw r = record r { next_hop = raw }

abbrev pub seen_static : ℕ → SrRt → Route
seen_static raw e = record { prefix = e.dest; mask = e.mask; next_hop = raw; r_id = 0 }
