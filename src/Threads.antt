-- ===== src/Threads.antt =====
-- The threads of the router and what they do to its state: the reader of the simulator's commands
-- (sr_main.c, sr_vns_comm.c), pwospf_run_thread (sr_pwospf.c), and the threads of arp_req_init
-- (arpq.c). A step is what a thread does while it holds the locks; steps of different threads come
-- in any order.
pub mod Invariant
use pwospf.Base.{ℕ, List, [], ◌∷◌, ◌++◌, Option, some, ◌≡◌, Outcome, done}
use pwospf.Wire.Bytes.{Bytes}
use pwospf.Topology.{Subsys}
use pwospf.Topology.Edit.{check_top_invalid}
use pwospf.Arp.{search_cache}
use pwospf.Arp.Queue.{
  Arpq, get_entry, on_entry, close, count_request, request, send_all_packs, send_all_lsus,
  send_all_icmps,
}
use pwospf.Packet.{Instance, Output}
use pwospf.Packet.Announce.{send_hello, send_lsu}
use pwospf.Packet.Pending.{write_all}
use pwospf.Server.{Environment, Result, sr_read_from_server_expect}

-- From a state to the next, with what the step writes. A call that is `aborted` is no step: an
-- assertion fails there, or memory is read or written that is not there, and C defines nothing
-- after that.
pub data Step (env : Environment) : Instance → List Output → Instance → Type 0 where
  -- A command of the simulator, by the thread of main.
  command :
      (sr sr' : Instance) (now expected_cmd : ℕ) (buf : Bytes) (len : ℕ) (out : List Output)
      (r : Result)
      → sr_read_from_server_expect env sr now expected_cmd buf len ≡ done (sr', out, r)
      → Step env sr out sr'
  -- The statements of the loop of pwospf_run_thread.
  hello :
      (sr : Instance) (raw : Bytes) (out : List Output)
      → send_hello sr raw ≡ done out
      → Step env sr out sr
  expiry :
      (sr : Instance) (now : ℕ) (s : Subsys)
      → check_top_invalid sr.ospf_subsys now ≡ done s
      → Step env sr [] (record sr { ospf_subsys = s })
  announcement :
      (sr sr' : Instance) (now : ℕ) (raw : Bytes) (out : List Output)
      → send_lsu sr now raw ≡ done (sr', out)
      → Step env sr out sr'
  -- A thread of arp_req_init for an entry sends the first request.
  first :
      (sr : Instance) (ip : ℕ) (e : Arpq) (raw : Bytes) (out : List Output)
      → get_entry sr.arpq ip ≡ some e
      → write_all sr.if_list raw (request e.arp_request e.iface_name ∷ []) ≡ done out
      → Step env sr out sr
  -- It looks into the cache.
  look :
      (sr : Instance) (now ip : ℕ)
      → Step env sr [] (record sr { arp_cache = (search_cache sr.arp_cache now ip).0 })
  -- It has found nothing, and sends one more request.
  again :
      (sr : Instance) (ip : ℕ) (e : Arpq) (raw : Bytes) (out : List Output)
      → get_entry sr.arpq ip ≡ some e
      → write_all sr.if_list raw (request e.arp_request e.iface_name ∷ []) ≡ done out
      → Step env sr out (record sr {
        arpq = on_entry sr.arpq ip (λ x. record x { num_requests = count_request x.num_requests });
      })
  -- It has found an address, which is any here, and sends what is buffered.
  release :
      (sr : Instance) (ip : ℕ) (e : Arpq) (mac : List ℕ) (raw : Bytes) (out : List Output)
      → get_entry sr.arpq ip ≡ some e
      → write_all sr.if_list raw
          (send_all_packs e.pac_buf mac e.iface_name ++ send_all_lsus e.lsu_buf mac e.iface_name)
        ≡ done out
      → Step env sr out sr
  -- Then it ends. What has been buffered since is lost.
  end : (sr : Instance) (ip : ℕ) → Step env sr [] (record sr { arpq = on_entry sr.arpq ip close })
  -- After the last request it gives up and ends.
  abandon :
      (sr : Instance) (ip : ℕ) (e : Arpq) (raw : Bytes) (out : List Output)
      → get_entry sr.arpq ip ≡ some e
      → write_all sr.if_list raw (send_all_icmps e.pac_buf) ≡ done out
      → Step env sr out (record sr { arpq = on_entry sr.arpq ip close })

-- The states that the threads can come to.
pub data Reach (env : Environment) : Instance → Instance → Type 0 where
  here : (sr : Instance) → Reach env sr sr
  after :
      (sr sr' sr2 : Instance) (out : List Output)
      → Reach env sr sr'
      → Step env sr' out sr2
      → Reach env sr sr2
