-- ===== src/Pwospf.antt =====
-- The protocol side of the subsystem: its start (sr_pwospf.c), HELLO packets (hello.c), and link
-- state updates (lsu.c).
pub mod Hello
pub mod Start
pub mod Updates
use pwospf.Base.{
  ℕ, zero, suc, ◌+◌, ◌*◌, ◌%◌, ◌^◌, Bool, true, false, ◌&&◌, not, List, [], ◌∷◌, ◌++◌, map, Option,
  none, some, ltb, ◌==◌, if◌then◌else◌, length, String, Outcome, done, aborted, out_of_fuel, ◌>>=◌,
  bit_and, bit_or,
}
use pwospf.Wire.{htonl}
use pwospf.Routing.{SrIf, sr_get_interface}
use pwospf.Topology.{Route, Router, FtableEntry, PwospfIf, Subsys, update}
use pwospf.Topology.Edit.{add_new_router}

abbrev pub if_mask : ℕ
if_mask = 0xfffffffe

abbrev pub def_nbr_buf : ℕ
def_nbr_buf = 5

abbrev pub default_helloint : ℕ
default_helloint = 5

abbrev pub top_initialization : ℕ
top_initialization = 90

-- Both halves of create_pwospf_ifaces do this for one interface.
create_iface : SrIf → PwospfIf
create_iface i = record {
  address = i.ip;
  mask = htonl if_mask;
  name = i.name;
  mac = i.addr;
  helloint = default_helloint;
  neighbors = [];
  nbr_buf_size = def_nbr_buf;
  nbr_bytes = def_nbr_buf * 8;
}

pub create_pwospf_ifaces : List SrIf → List PwospfIf
unfolding create_iface
create_pwospf_ifaces [] = []
create_pwospf_ifaces (i ∷ ifs) = create_iface i ∷ create_pwospf_ifaces ifs

-- The subnet of an interface: the far end of a two-address net is the next hop.
iface_route : PwospfIf → Route
iface_route i = record {
  prefix = bit_and i.address i.mask;
  mask = i.mask;
  next_hop =
      if bit_and i.address i.mask == i.address
      then htonl (bit_or (htonl i.address) 1)
      else bit_and i.address i.mask;
  r_id = 0;
}

iface_entry : PwospfIf → FtableEntry
unfolding iface_route
iface_entry i =
    let r = iface_route i in
    record {
      prefix = r.prefix;
      mask = r.mask;
      next_hop = r.next_hop;
      interface = i.name;
      num_hops = 0;
    }

-- The subsystem before this router is added; the memory of routers is empty.
blank : List PwospfIf → ℕ → ℕ → Router → Subsys
blank ifs now area_id nothing = record {
  heap = λ p. nothing;
  next_address = 0;
  network = [];
  fwrd_table = [];
  interfaces = ifs;
  this_router = 0;
  last_seq_sent = 0;
  area_id = area_id;
  autype = 0;
  init_time = now + top_initialization;
  overrun = false;
}

-- The state that pwospf_init makes where `eth0` is the interface of that name.
pub started : List SrIf → ℕ → ℕ → Router → SrIf → Subsys
unfolding create_pwospf_ifaces iface_route iface_entry blank
started if_list now area_id nothing eth0 =
    let ifs = create_pwospf_ifaces if_list in
    let (s, p) = add_new_router (blank ifs now area_id nothing) now eth0.ip in
    let r = s.heap p in
    record (update s p (record r { subnets = map iface_route ifs })) {
      this_router = p;
      fwrd_table = map iface_entry ifs;
      overrun = ltb r.subnet_bytes (8 * length ifs);
    }

-- pwospf_init, up to the start of the thread. `area_id` is what read_config read; memory that no
-- router has yet holds `nothing`. Without an interface eth0 a null pointer is read. The array of
-- subnets is filled with no test of its size; a write past its end is `aborted`.
pub pwospf_init : List SrIf → ℕ → ℕ → Router → Outcome Subsys
unfolding started
pwospf_init if_list now area_id nothing = elim (sr_get_interface if_list "eth0") [
  | none ↦ aborted
  | some eth0 ↦
      let s = started if_list now area_id nothing eth0 in if s.overrun then aborted else done s
]
