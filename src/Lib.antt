-- ===== src/Lib.antt =====
-- PWOSPF router: what its C code does, as functions, and what follows about them.
--
-- The program is an IP router with the PWOSPF routing protocol, ARP and a stateful firewall. A thread
-- reads packets from a simulator and hands them to the handlers; other threads send HELLO messages
-- and link state updates, and repeat ARP requests. The parts and their files:
--
--   Firewall           fw.c, fw.h: rule table, flow table, interface lists
--   Topology           top_info.c, sr_pwospf.h: struct pwospf_subsys as the record Subsys, and lookups
--     ShortestPath     dijkstra, get_smallest_unknown, find_next_hop
--     Forwarding       update_ftable and its lookups
--     Edit, Learn      the removals and additions; check_top_invalid; add_to_existing_router and add_to_top
--     WellFormed       the invariant of the topology (no source of its own)
--   Pwospf             sr_pwospf.c: pwospf_init; Pwospf.Hello: hello.c; Pwospf.Updates: handle_pwospf, lsu.c
--   Routing            sr_if.c, sr_rt.c, get_if_from_mac of buffer.c, the table lookups of sr_router.c
--   Arp                arp.c; Arp.Queue: arpq.c, buffer.c, lsu_buf.c
--   Wire               the headers of sr_protocol.h and pwospf_protocol.h; Wire.Bytes: memory;
--                      Wire.Layout: the fields in memory; Wire.Cksum: cksum of sr_router.c
--   Vns                sr_vns_comm.c: sr_send_packet and the test on ARP requests
--   Packet             struct sr_instance and struct packet_state of sr_router.h
--     Ip, Link, Frame  sr_router.c: handle_ip; create_eth_hdr; sr_handlepacket
--     Icmp             icmp.c
--     Ospf             handle_pwospf, handle_lsu and forward_lsu on the bytes of a packet
--     Announce         send_HELLO of hello.c, send_lsu of lsu.c
--     Unreachable      send_icmp of buffer.c
--     Pending          what the thread of arp_req_init writes
--     Sound, Guard, Relay, Reply, Echo, Leave, Beacons, Advertised
--                      what is proved of these (no source of their own)
--   Server             sr_vns_comm.c: the commands of the simulator; sr_verify_routing_table of sr_main.c
--     Stream           the loops that read a command from the socket
--     Config           init_rules_table (fw.c), sr_load_rt (sr_rt.c), read_config (sr_pwospf.c), sr_init
--   Threads            the steps of all threads, in any order
--   Base, Tests        shared names and lemmas; the theorems at concrete inputs
--
-- sr_read_from_server_expect hands a packet to sr_handlepacket, which calls handle_ip or handle_arp.
-- handle_ip asks the firewall, looks up the way in the two tables, and leaves a response, which
-- create_eth_hdr finishes or buffers. handle_pwospf hands the advertisements of an update to
-- add_to_top, which edits the topology and then calls dijkstra and update_ftable; handle_HELLO and
-- check_top_invalid edit it too. The table that update_ftable makes is what get_dyn_routing_if
-- searches. Names are those of the C functions; a helper without one is a loop body or a branch, as
-- its comment says.
--
-- How the code is modelled. Words are native numbers in the order of the C variable that has them;
-- the host is little-endian, and wrap-around is written out where the code can reach it. Memory is a
-- function from addresses to bytes, one for the packet and one for the response, counted from the
-- start of the frame; what malloc left is a parameter. The advertisements of an update are read only
-- as far as the packet has them. An array of a subsystem is the list of its used entries, with its
-- capacity and the bytes that malloc or realloc gave; a linked list is a list. A pointer to a router
-- is an address in a heap, so that routers are shared as in the code; other pointers are positions.
-- An array that realloc leaves with too few bytes, and a write past its end, show in the field
-- `overrun` of the subsystem or in a test, and the call ends there as `aborted`; so does one that
-- writes past the 10000 bytes of a response. `time(NULL)` is read once for each call. malloc and
-- writes to the simulator succeed. A failed `assert`, a null pointer that is read, and a read past
-- the end of the advertisements or of a command are the outcome `aborted`, too. The calls that
-- handle a packet are taken to be atomic; the steps in Threads are what a thread does while it holds
-- the locks, in more orders than the code allows, since a thread there keeps no state of its own.
-- Names of interfaces have fewer than 16 characters.
--
-- What is not under src is a parameter: inet_aton and sscanf of the readers of files, which take any
-- value; and the record Environment of the commands, with C strings as names, files, the socket and
-- SHA-1.
--
-- Fuel. A loop that is not structural takes fuel: the purge of the flow table the square of its length
-- plus one, since each of its restarts shortens the table; the search of dijkstra the number of
-- routers, since each round makes one more known; find_next_hop the label of the destination;
-- the clean-up the number of subnets; the expiry of neighbors their number; cksum two rounds. Its
-- other loop has a counter of 16 bits, which does not end on 65535 bytes or more: no result.
--
-- Not modelled: sr_dumper.c, sr_log_packet, sr_connect_to_server, and main with its options (input and
-- output); sha1.c (a third party's); the print functions.
pub mod Base
pub mod Firewall
pub mod Topology
pub mod Routing
pub mod Arp
pub mod Pwospf
pub mod Wire
pub mod Vns
pub mod Packet
pub mod Server
pub mod Threads
pub mod Tests
