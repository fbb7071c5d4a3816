-- ===== src/Packet/Pending.antt =====
-- What the thread of a pending ARP request writes: the calls of sr_send_packet and send_icmp in
-- arp_req_init (arpq.c), send_all_packs and send_all_icmps (buffer.c) and send_all_lsus (lsu_buf.c).
use pwospf.Base.{◌%◌, ◌^◌, List, [], ◌∷◌, ◌++◌, length, Outcome, done, ◌>>=◌}
use pwospf.Wire.Bytes.{Bytes, store}
use pwospf.Wire.Layout.{eth_bytes, arp_bytes}
use pwospf.Routing.{SrIf}
use pwospf.Arp.Queue.{Sent, request, frame, host_unreachable}
use pwospf.Vns.{sr_send_packet}
use pwospf.Packet.{Output, written}
use pwospf.Packet.Unreachable.{send_icmp}

-- A packet lies in its own memory, before the bytes `raw`. Its length is kept in 16 bits.
unfoldable pub write_sent : List SrIf → Bytes → Sent → Outcome (List Output)
write_sent if_list raw (request (e, a) iface) =
    done (written (sr_send_packet if_list (store raw 0 (eth_bytes e ++ arp_bytes a)) 0 42 iface))
write_sent if_list raw (frame mac p iface) =
    done
      (written (sr_send_packet if_list (store (store raw 0 p) 0 mac) 0 (length p % 2 ^ 16) iface))
write_sent if_list raw (host_unreachable p) =
    send_icmp if_list raw (store raw 0 p.packet) (length p.packet % 2 ^ 16) p.old_eth

unfoldable pub write_all : List SrIf → Bytes → List Sent → Outcome (List Output)
unfolding write_sent
write_all if_list raw [] = done []
write_all if_list raw (x ∷ xs) =
    write_sent if_list raw x >>= λ out. write_all if_list raw xs >>= λ more. done (out ++ more)
