-- ===== src/Tests/ProtocolCases.antt =====
-- The theorems on the messages of PWOSPF and its start at concrete inputs.
use pwospf.Base.{
  All, map, ◌≤◌, ◌≡◌, ◌↔◌, refl, List, [], ◌∷◌, false, some, In, arith, done, Settles,
}
use pwospf.Wire.{OspfHdr, LsuHdr, LsuAdv}
use pwospf.Routing.{SrIf, sr_get_interface}
use pwospf.Topology.{Neighbor, Subsys}
use pwospf.Topology.WellFormed.{IsWellFormed}
use pwospf.Pwospf.{pwospf_init}
use pwospf.Pwospf.Start.{watched, near, near_entry, pwospf_init-IsWellFormed}
use pwospf.Pwospf.Hello.{HelloPacket, expire_neighbors, handle_hello}
use pwospf.Pwospf.Hello.Silence.{expire_neighbors-live}
use pwospf.Pwospf.Hello.Greeting.{HasRoom, handle_hello-IsWellFormed}
use pwospf.Pwospf.Updates.{handle_lsu}
use pwospf.Pwospf.Updates.Acceptance.{Recorded, handle_lsu-once}
use pwospf.Tests.TopologyCases.{router, pair, pair-IsWellFormed, alive, wired, wired-IsWellFormed}

abbrev pub update_header : OspfHdr
update_header = record {
  version = 2;
  type = 4;
  len = 0;
  rid = 8;
  aid = 0;
  csum = 0;
  autype = 0;
  audata = 0;
}

abbrev lsu_header : LsuHdr
lsu_header = record { seq = 3; unused = 0; ttl = 255; num_adv = 16777216 }

abbrev pub advert : LsuAdv
advert = record { subnet = 20; mask = 255; rid = 9 }

handle_lsu-once_example :
    Settles
      (handle_lsu wired 10 0 update_header lsu_header (advert ∷ []))
      (Recorded update_header lsu_header)
handle_lsu-once_example =
    handle_lsu-once wired 10 0 update_header lsu_header (advert ∷ []) wired-IsWellFormed

abbrev silent : Neighbor
silent = record { id = 8; ip_address = 30; timenotvalid = 50 }

expire_neighbors-live_example :
    (t : Subsys) × (left : List Neighbor) × (expire_neighbors 2 pair 100 [] (silent ∷ alive ∷ [])
      ≡ done (t, left))
    × IsWellFormed t
    × ((n : Neighbor) → In n left ↔ (In n (silent ∷ alive ∷ []) × (100 ≤ n.timenotvalid)))
expire_neighbors-live_example =
    expire_neighbors-live pair 100 (silent ∷ alive ∷ []) pair-IsWellFormed

abbrev greeting : HelloPacket
greeting = record {
  ip_src = 30;
  rid = 8;
  hello = record { nmask = 255; helloint = 1280; padding = 0 };
}

wired_room : All HasRoom wired.interfaces
wired_room = (record { fewer = omega arith; fits = omega arith }, tt)

handle_hello-IsWellFormed_example :
    (t : Subsys) × (handle_hello wired 10 "eth0" 40 greeting ≡ done t)
    × IsWellFormed t
    × (t.network ≡ wired.network)
handle_hello-IsWellFormed_example =
    handle_hello-IsWellFormed wired 10 "eth0" 40 greeting wired-IsWellFormed wired_room

abbrev pub eth0 : SrIf
eth0 = record { name = "eth0"; addr = 1 ∷ 2 ∷ 3 ∷ 4 ∷ 5 ∷ 6 ∷ []; ip = 10; speed = 0 }

pub eth0_found : sr_get_interface (eth0 ∷ []) "eth0" ≡ some eth0
unfolding sr_get_interface
eth0_found = refl

pwospf_init-IsWellFormed_example :
    (s : Subsys) × (pwospf_init (eth0 ∷ []) 0 0 (router 0 []) ≡ done s)
    × IsWellFormed s
    × (s.network ≡ s.this_router ∷ [])
    × ((s.heap s.this_router).rid ≡ 10)
    × (s.overrun ≡ false)
    × (s.interfaces ≡ map watched (eth0 ∷ []))
    × ((s.heap s.this_router).subnets ≡ map near (eth0 ∷ []))
    × (s.fwrd_table ≡ map near_entry (eth0 ∷ []))
pwospf_init-IsWellFormed_example =
    pwospf_init-IsWellFormed (eth0 ∷ []) 0 0 (router 0 []) eth0 eth0_found (omega arith)
