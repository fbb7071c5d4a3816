-- ===== src/Pwospf/Updates.antt =====
-- handle_pwospf of sr_pwospf.c and the link state updates of lsu.c.
pub mod Acceptance
pub mod Messages
use pwospf.Base.{
  ℕ, zero, suc, ◌+◌, ◌-◌, ◌*◌, ◌/◌, ◌%◌, ◌^◌, Bool, true, false, ◌&&◌, ◌||◌, not, List, [], ◌∷◌,
  ◌++◌, map, Option, none, some, ltb, leb, ◌==◌, if◌then◌else◌, length, String, Outcome, done,
  aborted, out_of_fuel, ◌>>=◌,
}
use pwospf.Wire.{htonl, htons, OspfHdr, LsuHdr, LsuAdv}
use pwospf.Wire.Bytes.{bytes16, bytes32}
use pwospf.Wire.Cksum.{cksum}
use pwospf.Routing.{SrRt}
use pwospf.Topology.{Route, Router, Neighbor, PwospfIf, Subsys, get_sequence, set_sequence}
use pwospf.Topology.Learn.{add_to_top}

-- The first 16 bytes of the header, with 0 for its checksum.
pub header_bytes : OspfHdr → List ℕ
header_bytes h =
    h.version ∷ h.type ∷ bytes16 h.len
    ++ bytes32 h.rid
    ++ bytes32 h.aid
    ++ bytes16 0
    ++ bytes16 h.autype

-- The checksum of a header, as it stands in memory.
pub header_csum : OspfHdr → Option ℕ
unfolding header_bytes
header_csum h = elim (cksum 0 (header_bytes h)) [ none ↦ none | some c ↦ some (htons c) ]

-- What handle_pwospf makes of a packet: the message that it prints, or the handler that it calls.
pub data Dispatch : Type 0 where
  invalid_version wrong_checksum wrong_area wrong_autype invalid_type : Dispatch
  hello lsu : Dispatch

pub dispatch_type : ℕ → Dispatch
dispatch_type t = if t == 1 then hello else if t == 4 then lsu else invalid_type

pub handle_pwospf : Subsys → OspfHdr → Option Dispatch
unfolding dispatch_type
handle_pwospf s h = if not (h.version == 2) then some invalid_version else (elim (header_csum h) [
  | none ↦ none
  | some csum_cal ↦ some (
      if not (csum_cal == h.csum)
      then wrong_checksum
      else (if not (h.aid == htonl s.area_id)
          then wrong_area
          else (if not (h.autype == s.autype) then wrong_autype else dispatch_type h.type)))
])

-- The header that send_HELLO and send_lsu give a packet of a type and a length.
pub outgoing_header : Subsys → ℕ → ℕ → Option OspfHdr
unfolding header_csum
outgoing_header s type len =
    let h : OspfHdr = record {
      version = 2;
      type = type;
      len = htons len;
      rid = (s.heap s.this_router).rid;
      aid = htonl s.area_id;
      csum = 0;
      autype = 0;
      audata = 0;
    } in
    elim (header_csum h) [ none ↦ none | some c ↦ some (record h { csum = c }) ]

-- The loop that reads the advertisements behind the header. The count is the packet's own; reading
-- on where the packet has no more is a fault. `raw` is what malloc leaves in `next_hop`.
pub read_advs : ℕ → ℕ → List LsuAdv → Outcome (List Route)
read_advs raw zero body = done []
read_advs raw (suc n) [] = aborted
read_advs raw (suc n) (a ∷ body) = read_advs raw n body >>= λ rs.
    done (record { prefix = a.subnet; mask = a.mask; next_hop = raw; r_id = a.rid } ∷ rs)

-- handle_lsu, up to the call of forward_lsu. `false`: the packet was dropped.
pub handle_lsu : Subsys → ℕ → ℕ → OspfHdr → LsuHdr → List LsuAdv → Outcome (Subsys × Bool)
unfolding read_advs
handle_lsu s now raw pwospf lsu_head body =
    if pwospf.rid == (s.heap s.this_router).rid
    then done (s, false)
    else (if get_sequence s pwospf.rid == lsu_head.seq
        then done (s, false)
        else (read_advs raw (htonl lsu_head.num_adv) body >>= λ advs.
            add_to_top s now pwospf.rid advs >>= λ t.
            done (set_sequence t pwospf.rid lsu_head.seq, true)))

-- The neighbors of an interface, but for the one that the update came from.
other_neighbors : List Neighbor → String → ℕ → List (String × ℕ)
other_neighbors [] name prev_src = []
other_neighbors (n ∷ ns) name prev_src =
    if not (n.ip_address == prev_src)
    then (name, n.ip_address) ∷ other_neighbors ns name prev_src
    else other_neighbors ns name prev_src

flood : List PwospfIf → ℕ → List (String × ℕ)
unfolding other_neighbors
flood [] prev_src = []
flood (i ∷ ifs) prev_src = other_neighbors i.neighbors i.name prev_src ++ flood ifs prev_src

-- forward_lsu: the interfaces and addresses that the update goes out to. Both fields are bytes,
-- lowered before they are tested.
pub forward_lsu : Subsys → ℕ → ℕ → ℕ → List (String × ℕ)
unfolding flood
forward_lsu s ip_ttl lsu_ttl prev_src =
    if ltb 0 ((lsu_ttl + 255) % 256) && ltb 0 ((ip_ttl + 255) % 256)
    then flood s.interfaces prev_src
    else []

subnet_adv : Route → LsuAdv
subnet_adv r = record { subnet = r.prefix; mask = r.mask; rid = r.r_id }

static_adv : SrRt → LsuAdv
static_adv e = record { subnet = e.dest; mask = e.mask; rid = 0 }

unfoldable pub generate_adv : Subsys → List SrRt → List LsuAdv
unfolding subnet_adv static_adv
generate_adv s routing_table =
    map subnet_adv (s.heap s.this_router).subnets ++ map static_adv routing_table

-- The update that send_lsu builds: the next state, the header, and the advertisements. `raw` is what
-- malloc leaves in the field that is not set.
unfoldable pub build_lsu : ℕ → Subsys → List SrRt → Subsys × LsuHdr × List LsuAdv
unfolding generate_adv
build_lsu raw s routing_table =
    let seq = (s.last_seq_sent + 1) % 2 ^ 16 in
    (
      record s { last_seq_sent = seq },
      record {
        seq = htons seq;
        unused = raw;
        ttl = 255;
        num_adv = htonl (length (s.heap s.this_router).subnets + length routing_table);
      },
      generate_adv s routing_table,
    )
