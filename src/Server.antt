-- ===== src/Server.antt =====
-- The commands of the network simulator (sr_vns_comm.c, vnscommand.h), the check of the routing table
-- (sr_main.c), and the files that are read at the start (fw.c, sr_rt.c, sr_pwospf.c, sr_router.c).
pub mod Stream
pub mod Config
pub mod Lasting
pub mod Table
use pwospf.Base.{
  ℕ, zero, suc, ◌+◌, ◌-◌, ◌*◌, ◌/◌, ◌%◌, ◌^◌, Bool, true, false, ◌&&◌, ◌||◌, not, List, [], ◌∷◌,
  ◌++◌, Option, none, some, ltb, ◌==◌, if◌then◌else◌, length, String, Outcome, done, aborted, ◌>>=◌,
  is_some,
}
use Prim.Native.String.{◌++◌ as str_append}
use pwospf.Wire.{htonl}
use pwospf.Wire.Bytes.{Bytes, get32, load, bytes32}
use pwospf.Topology.{Router}
use pwospf.Routing.{
  SrIf, SrRt, sr_get_interface, sr_add_interface, sr_set_ether_addr, sr_set_ether_ip,
}
use pwospf.Pwospf.{pwospf_init}
use pwospf.Vns.{sr_arp_req_not_for_us}
use pwospf.Packet.{Instance, Output, minus32}
use pwospf.Packet.Frame.{sr_handlepacket}

-- How many routes name an interface that does not exist.
missing_interfaces : List SrIf → List SrRt → ℕ
missing_interfaces if_list [] = 0
missing_interfaces if_list (rt ∷ table) =
    let rest = missing_interfaces if_list table in
    if is_some (sr_get_interface if_list rt.interface) then rest else suc rest

pub sr_verify_routing_table : List SrIf → List SrRt → ℕ
unfolding missing_interfaces
sr_verify_routing_table [] table = 999
sr_verify_routing_table if_list [] = 999
sr_verify_routing_table if_list table = missing_interfaces if_list table

-- An unset or a missing list is a failed `assert`.
asserted : {A : Type 0} → Option A → Outcome A
asserted none = aborted
asserted (some a) = done a

-- What the commands need from outside of the sources: the C string at an address as a name, the
-- memory that malloc gives to an interface and to routers, the area of the configuration file, the
-- success of writing a file, the user's name, the 64 bytes of the key if they can be read, the
-- five words of a SHA-1 if it can be computed, and the success of sending bytes.
pub record Environment : Type 0 where
  pub name_at : Bytes → ℕ → String
  pub raw_if : SrIf
  pub raw_router : Router
  pub raw_number : ℕ
  pub raw_bytes : Bytes
  pub area_id : ℕ
  pub write_file : String → List ℕ → Bool
  pub user : List ℕ
  pub auth_key : Option (List ℕ)
  pub sha1 : List ℕ → Option (List ℕ)
  pub send : List ℕ → Bool

module _ (env : Environment) where
  -- One entry of the hardware information, a key and a value.
  handle_entry : List SrIf → Bytes → ℕ → Outcome (List SrIf)
  unfolding asserted
  handle_entry if_list buf p =
      let key = htonl (get32 buf p) in
      if key == 1
      then done (sr_add_interface if_list env.raw_if (env.name_at buf (p + 4)))
      else (if key == 64
          then asserted (sr_set_ether_ip if_list (get32 buf (p + 4)))
          else (if key == 32
              then asserted (sr_set_ether_addr if_list (load buf (p + 4) 6))
              else done if_list))

  handle_entries : List SrIf → Bytes → ℕ → ℕ → Outcome (List SrIf)
  unfolding handle_entry
  handle_entries if_list buf p zero = done if_list
  handle_entries if_list buf p (suc n) =
      handle_entry if_list buf p >>= λ ifs. handle_entries ifs buf (p + 36) n

  -- The entries stand behind the length and the type of the message, each with 36 bytes. The length
  -- is at least 8.
  pub sr_handle_hwinfo : List SrIf → Bytes → Outcome (List SrIf)
  unfolding handle_entries
  sr_handle_hwinfo if_list hwinfo =
      handle_entries if_list hwinfo 8 ((htonl (get32 hwinfo 0) - 8) / 36)

module _ (env : Environment) where
  -- The table stands behind the name of the host, which has 32 bytes.
  pub sr_handle_rtable : Bytes → Bool
  sr_handle_rtable rtable =
      env.write_file (str_append "rtable." (env.name_at rtable 8))
        (load rtable 40 (htonl (get32 rtable 0) - 40))

  words_bytes : List ℕ → List ℕ
  words_bytes [] = []
  words_bytes (w ∷ ws) = bytes32 (htonl w) ++ words_bytes ws

  -- The reply: its length, its type, the length of the name, the name and the digest of the salt
  -- with the key.
  auth_reply : List ℕ → List ℕ
  unfolding words_bytes
  auth_reply digest =
      bytes32 (htonl (12 + length env.user + 20))
      ++ bytes32 (htonl 256)
      ++ bytes32 (htonl (length env.user))
      ++ env.user
      ++ words_bytes digest

  pub sr_handle_auth_request : Bytes → Bool
  unfolding auth_reply
  sr_handle_auth_request req = elim env.auth_key [
    | none ↦ false
    | some auth_key ↦ elim (env.sha1 (load req 8 (htonl (get32 req 0) - 8) ++ auth_key)) [
      | none ↦ false
      | some digest ↦ env.send (auth_reply digest)
    ]
  ]

-- The result of a command: 0 for the end, 1 to go on, -1 for an error.
pub data Result : Type 0 where
  closed goes_on failed : Result

-- The interfaces and the topology that the hardware information gives.
take_hwinfo : Environment → Instance → ℕ → Bytes → Outcome (Instance × Result)
unfolding sr_verify_routing_table
take_hwinfo env sr now buf = sr_handle_hwinfo env sr.if_list buf >>= λ ifs.
    let sr' = record sr { if_list = ifs } in
    if not (sr_verify_routing_table ifs sr.routing_table == 0)
    then done (sr', failed)
    else (pwospf_init ifs now env.area_id env.raw_router >>= λ s.
        done (record sr' { ospf_subsys = s }, goes_on))

-- A packet behind its header of 24 bytes, unless it asks for another's address. Of a command that is
-- shorter than the header the length of the packet wraps, and memory is read that is not there.
take_packet : Environment → Instance → ℕ → Bytes → ℕ → Outcome (Instance × List Output × Result)
take_packet env sr now buf len =
    let interface = env.name_at buf 8 in
    let size = minus32 (len + 14) 38 in
    let taken = sr_arp_req_not_for_us sr.if_list buf 24 size interface >>= λ foreign.
    let handled =
      sr_handlepacket sr now env.raw_number env.raw_bytes (λ q. buf (24 + q)) size interface
      >>= λ (sr', out). done (sr', out, goes_on) in
    if foreign then done (sr, [], goes_on) else handled in
    if ltb len 24 then aborted else taken

-- sr_read_from_server_expect on a command of `len` bytes that has been read. A command of fewer than
-- 8 bytes is read from outside of its memory. The expected command 0 is any.
pub sr_read_from_server_expect :
    Environment → Instance → ℕ → ℕ → Bytes → ℕ → Outcome (Instance × List Output × Result)
unfolding take_hwinfo take_packet
sr_read_from_server_expect env sr now expected_cmd buf len =
    let command = htonl (get32 buf 4) in
    let quietly : Bool → Outcome (Instance × List Output × Result) =
      λ ok. done (sr, [], if ok then goes_on else failed) in
    if ltb 10000 len
    then quietly false
    else (if ltb len 8
        then aborted
        else (if not (expected_cmd == 0) && not (command == expected_cmd) && not (command == 2)
            then quietly false
            else (if command == 4
                then take_packet env sr now buf len
                else (if command == 2
                    then done (sr, [], closed)
                    else (if command == 16
                        then (take_hwinfo env sr now buf >>= λ (sr', result).
                            done (sr', [], result))
                        else (if command == 32
                            then quietly (sr_handle_rtable env buf)
                            else (if command == 128
                                then quietly (sr_handle_auth_request env buf)
                                else (if command == 512
                                    then quietly (not (buf 8 == 0))
                                    else quietly true))))))))
