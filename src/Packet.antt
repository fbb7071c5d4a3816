-- ===== src/Packet.antt =====
-- The state of the packet path: struct sr_instance and struct packet_state of sr_router.h.
pub mod Icmp
pub mod Link
pub mod Ospf
pub mod Ip
pub mod Announce
pub mod Beacons
pub mod Unreachable
pub mod Pending
pub mod Advertised
pub mod Sound
pub mod Relay
pub mod Guard
pub mod Reply
pub mod Echo
pub mod Leave
pub mod Frame
use pwospf.Base.{ℕ, ◌+◌, ◌-◌, ◌%◌, ◌^◌, Bool, List, [], ◌∷◌, Option, none, some, String}
use pwospf.Wire.Bytes.{Bytes}
use pwospf.Firewall.{Firewall}
use pwospf.Topology.{Subsys, FtableEntry}
use pwospf.Routing.{SrIf, SrRt}
use pwospf.Arp.{ArpCacheEntry}
use pwospf.Arp.Queue.{Arpq}
use pwospf.Vns.{VnsPacket}

-- struct sr_instance, without the connection and the log. The cache and the queue are those of its
-- struct arp_subsys.
pub record Instance : Type 0 where
  pub if_list : List SrIf
  pub routing_table : List SrRt
  pub firewall : Firewall
  pub ospf_subsys : Subsys
  pub arp_cache : List ArpCacheEntry
  pub arpq : List Arpq

-- struct packet_state. The packet lies in one memory, and the response in another; both pointers
-- are addresses there, counted from the start of the frame. `sr` is passed beside it.
pub record PacketState : Type 0 where
  pub memory : Bytes
  pub packet : ℕ
  pub len : ℕ
  pub interface : String
  pub buffer : Bytes
  pub response : ℕ
  pub res_len : ℕ
  pub rt_entry : Option SrRt
  pub dyn_entry : Option FtableEntry
  pub forward : Bool
  pub ok_to_send : Bool

-- What leaves the router: a message to the simulator, or a thread that asks for an address.
pub data Output : Type 0 where
  wire : VnsPacket → Output
  thread : ℕ → Output

-- The memory of a response has MAX_PAC_LENGTH bytes.
abbrev pub max_pac_length : ℕ
max_pac_length = 10000

-- sr_send_packet wrote its message, or returned -1.
abbrev pub written : Option VnsPacket → List Output
written none = []
written (some v) = wire v ∷ []

-- The difference of two unsigned numbers of 32 bits.
abbrev pub minus32 : ℕ → ℕ → ℕ
minus32 a b = (a + (2 ^ 32 - b)) % 2 ^ 32

unfoldable pub leave_hdr_room : PacketState → ℕ → PacketState
leave_hdr_room ps hdr_size = record ps {
  packet = ps.packet + hdr_size;
  len = minus32 ps.len hdr_size;
  response = ps.response + hdr_size;
  res_len = ps.res_len + hdr_size;
}
