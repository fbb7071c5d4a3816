-- ===== src/Tests/ServerCases.antt =====
-- The theorems on the readers of files and on the threads at concrete inputs.
use text.Mathlib.Text.{◌==◌ as str_eq}
use pwospf.Base.{
  arith, All, ℕ, ◌≡◌, refl, List, [], ◌∷◌, Option, none, some, done, String, true, if◌then◌else◌,
}
use pwospf.Firewall.{Firewall}
use pwospf.Topology.{Subsys}
use pwospf.Pwospf.{pwospf_init}
use pwospf.Pwospf.Start.{pwospf_init-IsWellFormed}
use pwospf.Packet.{Instance, Output}
use pwospf.Packet.Pending.{write_sent, write_all}
use pwospf.Packet.Sound.{IsSound, Sourced}
use pwospf.Server.{Environment}
use pwospf.Server.Config.{RuleLine, RouteLine, rule_of, add_rules, init_rules_table, sr_init}
use pwospf.Threads.{here, after, look, again}
use pwospf.Threads.Invariant.{Reach-IsSound}
use pwospf.Arp.{search_cache}
use pwospf.Arp.Queue.{Sent, get_entry, on_entry, count_request}
use pwospf.Tests.ArpCases.{cache, pending}
use pwospf.Tests.ProtocolCases.{eth0, eth0_found}
use pwospf.Tests.TopologyCases.{router}

-- Two texts are addresses.
abbrev inet_aton : String → Option ℕ
inet_aton text =
    if str_eq text "10.0.0.0" then some 10 else (if str_eq text "0.0.0.0" then some 0 else none)

abbrev unset : RouteLine
unset = record { dest = ""; gw = ""; mask = ""; iface = "" }

abbrev scan_route : RouteLine → String → RouteLine
scan_route vars line =
    if str_eq line "10.0.0.0 0.0.0.0 0.0.0.0 eth0"
    then record { dest = "10.0.0.0"; gw = "0.0.0.0"; mask = "0.0.0.0"; iface = "eth0" }
    else record vars { dest = line }

abbrev route_file : List String
route_file = "10.0.0.0 0.0.0.0 0.0.0.0 eth0" ∷ "nonsense" ∷ []

abbrev no_rule : RuleLine
no_rule = record { source_ip_in = ""; dest_ip_in = ""; ip_protocol = 0; src_port = 0; dst_port = 0 }

abbrev scan_rule : RuleLine → String → RuleLine
scan_rule vars line = record {
  source_ip_in = "10.0.0.0";
  dest_ip_in = "0.0.0.0";
  ip_protocol = 6;
  src_port = 80;
  dst_port = 0;
}

abbrev if_file : List (String × String)
if_file = ("eth0", "I") ∷ []

-- The firewall that the two files give.
configured :
    (fw : Firewall) × (sr_init inet_aton scan_rule no_rule (some ("a rule" ∷ [])) (some if_file)
      ≡ done fw)
unfolding sr_init init_rules_table add_rules rule_of
configured = (_, refl)

started : (s : Subsys) × (pwospf_init (eth0 ∷ []) 0 0 (router 0 []) ≡ done s)
started =
    let x = pwospf_init-IsWellFormed (eth0 ∷ []) 0 0 (router 0 []) eth0 eth0_found (omega arith) in
    (x.0, x.1)

abbrev booted : Instance
booted = record {
  if_list = eth0 ∷ [];
  routing_table = [];
  firewall = configured.0;
  ospf_subsys = started.0;
  arp_cache = cache;
  arpq = pending ∷ [];
}

abbrev surroundings : Environment
surroundings = record {
  name_at = λ m p. "eth0";
  raw_if = eth0;
  raw_router = router 0 [];
  raw_number = 0;
  raw_bytes = λ q. 0;
  area_id = 0;
  write_file = λ name bytes. true;
  user = [];
  auth_key = none;
  sha1 = λ bytes. none;
  send = λ bytes. true;
}

-- A thread looks for an address; the one of the pending entry is to send a request.
abbrev searched : Instance
searched = record booted { arp_cache = (search_cache cache 100 11).0 }

abbrev counted : Instance
counted = record searched {
  arpq = on_entry (pending ∷ []) 12 (λ e. record e { num_requests = count_request e.num_requests });
}

pending_found : get_entry (pending ∷ []) 12 ≡ some pending
unfolding get_entry
pending_found = refl

sent :
    (out : List Output) × (write_all
        (eth0 ∷ [])
        (λ q. 0)
        (Sent.request pending.arp_request pending.iface_name ∷ [])
      ≡ done out)
unfolding write_all write_sent
sent = (_, refl)

Reach-IsSound_example : IsSound searched × IsSound counted × All (Sourced (eth0 ∷ [])) sent.0
Reach-IsSound_example =
    Reach-IsSound surroundings inet_aton scan_rule no_rule (some ("a rule" ∷ [])) (some if_file)
      (eth0 ∷ []) 0 0 (router 0 []) booted searched counted sent.0 configured.1 started.1
      (after booted booted searched [] (here booted) (look booted 100 11))
      (again searched 12 pending (λ q. 0) sent.0 pending_found sent.1)
