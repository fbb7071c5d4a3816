-- ===== src/Packet/Icmp.antt =====
-- icmp.c: the messages that answer a packet.
use pwospf.Base.{ℕ, ◌+◌, ◌-◌, ◌%◌, [], ◌∷◌, ltb, ◌==◌, if◌then◌else◌, Outcome, done, aborted, ◌>>=◌}
use pwospf.Wire.Bytes.{load, store}
use pwospf.Wire.Sums.{write_cksum}
use pwospf.Packet.{max_pac_length, PacketState, minus32}

abbrev pub icmpt_echoreply : ℕ
icmpt_echoreply = 0

abbrev pub icmpt_destun : ℕ
icmpt_destun = 3

abbrev pub icmpt_echorequest : ℕ
icmpt_echorequest = 8

abbrev pub icmpt_timeex : ℕ
icmpt_timeex = 11

abbrev pub icmp_data_res : ℕ
icmp_data_res = 8

-- The eight bytes of struct icmp_hdr with sum and options 0, put where the response points.
unfoldable pub create_icmp_hdr : PacketState → ℕ → ℕ → PacketState
create_icmp_hdr ps type code = record ps {
  buffer = store ps.buffer ps.response (type % 256 ∷ code % 256 ∷ 0 ∷ 0 ∷ 0 ∷ 0 ∷ 0 ∷ 0 ∷ []);
  res_len = ps.res_len + 8;
  response = ps.response + 8;
}

unfoldable pub copy_echo_data : PacketState → PacketState
copy_echo_data ps =
    let len = minus32 ps.len 8 in
    record ps {
      len = len;
      packet = ps.packet + 8;
      res_len = ps.res_len + len;
      buffer = store ps.buffer ps.response (load ps.memory (ps.packet + 8) len);
    }

-- The header at `ip_hdr`, and at most eight bytes of what the packet points to.
unfoldable pub create_icmp_data : PacketState → ℕ → PacketState
create_icmp_data ps ip_hdr =
    let size = (if ltb ps.len icmp_data_res then ps.len else icmp_data_res) in
    let header = store ps.buffer ps.response (load ps.memory ip_hdr 20) in
    record ps {
      buffer = store header (ps.response + 20) (load ps.memory ps.packet size);
      res_len = ps.res_len + 20 + size;
      response = ps.response + 20 + size;
    }

-- The last statements of each case: the sum of the message at `res_head`. Its length is an int, and no
-- byte is summed if that is negative. A message that does not fit has been written past the end of the
-- response.
unfoldable pub sum_message : PacketState → ℕ → Outcome PacketState
sum_message ps res_head =
    if ltb max_pac_length ps.res_len
    then aborted
    else (write_cksum ps.buffer res_head (ps.res_len - 34) 2 >>= λ b.
        done (record ps { buffer = b }))

-- The three cases that construct a message; the others only print.
unfoldable pub icmp_response : PacketState → ℕ → ℕ → ℕ → Outcome PacketState
unfolding create_icmp_hdr copy_echo_data create_icmp_data sum_message
icmp_response ps ip_hdr type code =
    let orig = ps.packet in
    let headed = create_icmp_hdr ps type code in
    if type == icmpt_echoreply
    then sum_message
        (copy_echo_data (record headed {
          buffer = store headed.buffer (ps.response + 4) (load ps.memory (orig + 4) 4);
        }))
        ps.response
    else (if type == icmpt_destun
        then sum_message (create_icmp_data headed ip_hdr) ps.response
        else (if type == icmpt_timeex
            then sum_message (create_icmp_data headed ip_hdr) ps.response
            else done ps))

-- A message shorter than its header is not answered here.
unfoldable pub handle_icmp : PacketState → ℕ → Outcome PacketState
unfolding icmp_response
handle_icmp ps ip_hdr =
    if ltb ps.len 8
    then done ps
    else (if ps.memory ps.packet == icmpt_echorequest
        then icmp_response ps ip_hdr icmpt_echoreply icmpt_echoreply
        else icmp_response ps ip_hdr icmpt_destun 3)
