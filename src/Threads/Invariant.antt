-- ===== src/Threads/Invariant.antt =====
-- What every step of every thread keeps.
use pwospf.Base.{ℕ, ◌≡◌, subst, List, Option, String, Outcome, done, Settles, All}
use pwospf.Wire.Bytes.{Bytes}
use pwospf.Arp.{ArpCacheEntry}
use pwospf.Arp.Queue.{Arpq, Sent}
use pwospf.Topology.{Router}
use pwospf.Topology.WellFormed.{IsWellFormed}
use pwospf.Topology.WellFormed.Sweep.{check_top_invalid-Settles, Kept}
use pwospf.Topology.Edit.{check_top_invalid}
use pwospf.Firewall.Flow.{IsSized}
use pwospf.Routing.{SrIf}
use pwospf.Pwospf.{pwospf_init}
use pwospf.Pwospf.Start.{pwospf_init-Settles}
use pwospf.Packet.{Instance, Output}
use pwospf.Packet.Announce.{send_hello, send_lsu}
use pwospf.Packet.Pending.{write_all}
use pwospf.Packet.Sound.{IsSound, Sourced}
use pwospf.Packet.Sound.Sending.{send_hello-Settles, write_all-Settles}
use pwospf.Packet.Sound.Floods.{Good2}
use pwospf.Packet.Sound.Announcing.{send_lsu-Settles}
use pwospf.Server.{Environment, sr_read_from_server_expect}
use pwospf.Server.Lasting.{sr_read_from_server_expect-IsSound}
use pwospf.Server.Config.{RuleLine, sr_init}
use pwospf.Server.Config.Reading.{sr_init-IsSized}
use pwospf.Threads.{
  Step, command, hello, expiry, announcement, first, look, again, release, end, abandon, Reach,
  here, after,
}

-- What a run that settles comes to.
settled : {A : Type 0} (P : A → Type 0) (x : Outcome A) (a : A) → Settles x P → x ≡ done a → P a
settled P x a s e = subst (λ y. Settles y P) e s

-- What the threads of pending requests write.
write_all-All :
    (if_list : List SrIf) (raw : Bytes) (xs : List Sent) (out : List Output)
    → write_all if_list raw xs ≡ done out
    → All (Sourced if_list) out
write_all-All if_list raw xs out e =
    settled (All (Sourced if_list)) (write_all if_list raw xs) out
      (write_all-Settles if_list raw xs) e

-- The cache and the queue have no part in it.
kept :
    (sr : Instance) (cache : List ArpCacheEntry) (q : List Arpq)
    → IsSound sr
    → IsSound (record sr { arp_cache = cache; arpq = q })
kept sr cache q w = record { sized = w.sized; formed = w.formed }

Step-IsSound :
    (env : Environment) (sr sr' : Instance) (out : List Output)
    → IsSound sr
    → Step env sr out sr'
    → IsSound sr' × All (Sourced sr.if_list) out
Step-IsSound env sr sr' out w (command _ _ now expected buf len _ r e) =
    settled _ (sr_read_from_server_expect env sr now expected buf len) (sr', out, r)
      (sr_read_from_server_expect-IsSound env sr now expected buf len w) e
Step-IsSound env sr sr' out w (hello _ raw _ e) =
    (w, settled (All (Sourced sr.if_list)) (send_hello sr raw) out (send_hello-Settles sr raw) e)
Step-IsSound env sr sr' out w (expiry _ now s e) = (
  record {
    sized = w.sized;
    formed =
        (settled (Kept sr.ospf_subsys now) (check_top_invalid sr.ospf_subsys now) s
          (check_top_invalid-Settles sr.ospf_subsys now w.formed) e).0;
  },
  tt,
)
Step-IsSound env sr sr' out w (announcement _ _ now raw _ e) =
    let g = settled (Good2 sr) (send_lsu sr now raw) (sr', out) (send_lsu-Settles sr now raw w) e in
    (g.0, g.2)
Step-IsSound env sr sr' out w (first _ ip x raw _ _ e) = (w, write_all-All sr.if_list raw _ out e)
Step-IsSound env sr sr' out w (look _ now ip) = (kept sr _ sr.arpq w, tt)
Step-IsSound env sr sr' out w (again _ ip x raw _ _ e) =
    (kept sr sr.arp_cache _ w, write_all-All sr.if_list raw _ out e)
Step-IsSound env sr sr' out w (release _ ip x mac raw _ _ e) =
    (w, write_all-All sr.if_list raw _ out e)
Step-IsSound env sr sr' out w (end _ ip) = (kept sr sr.arp_cache _ w, tt)
Step-IsSound env sr sr' out w (abandon _ ip x raw _ _ e) =
    (kept sr sr.arp_cache _ w, write_all-All sr.if_list raw _ out e)

Reach-kept : (env : Environment) (sr sr' : Instance) → IsSound sr → Reach env sr sr' → IsSound sr'
Reach-kept env sr sr' w (here _) = w
Reach-kept env sr sr' w (after _ mid _ out before last) =
    (Step-IsSound env mid sr' out (Reach-kept env sr mid w before) last).0

-- In every state that the threads come to, by steps in any order, from one with the firewall that
-- sr_init left and the topology that pwospf_init left, where no step fails an assertion or reads or
-- writes outside of the memory that it has, the flow table is within the limit of 30
-- entries and is counted, and the topology is well-formed. Each next step, of any thread, keeps that;
-- and each message that it writes carries a frame of at least 14 bytes, says how long it is, and
-- names an interface that exists and has the source address of the frame.
pub Reach-IsSound :
    (env : Environment) (inet_aton : String → Option ℕ) (sscanf : RuleLine → String → RuleLine)
    (vars : RuleLine) (rules : Option (List String)) (ifaces : Option (List (String × String)))
    (ifs : List SrIf) (now area : ℕ) (nothing : Router) (sr sr' sr2 : Instance) (out : List Output)
    → sr_init inet_aton sscanf vars rules ifaces ≡ done sr.firewall
    → pwospf_init ifs now area nothing ≡ done sr.ospf_subsys
    → Reach env sr sr'
    → Step env sr' out sr2
    → IsSound sr' × IsSound sr2 × All (Sourced sr'.if_list) out
Reach-IsSound env inet_aton sscanf vars rules ifaces ifs now area nothing sr sr' sr2 out configured
      started reached next =
    let w : IsSound sr' =
      Reach-kept env sr sr'
        (record {
          sized =
              settled IsSized (sr_init inet_aton sscanf vars rules ifaces) sr.firewall
                (sr_init-IsSized inet_aton sscanf vars rules ifaces) configured;
          formed =
              settled IsWellFormed (pwospf_init ifs now area nothing) sr.ospf_subsys
                (pwospf_init-Settles ifs now area nothing) started;
        })
        reached in
    let (w2, sourced) = Step-IsSound env sr' sr2 out w next in (w, w2, sourced)
