-- ===== src/Pwospf/Hello/Greeting.antt =====
-- handle_HELLO: when it returns, and the topology that is left.
use pwospf.Base.{
  ℕ, ◌≤◌, ◌≡◌, inl, inr, refl, subst, List, [], ◌∷◌, ◌++◌, Bool, true, false, not, ◌&&◌, ◌||◌, ◌==◌,
  if-all, length, arith, Option-cases, Outcome, done, ltb, bit_and, String,
}
use text.Mathlib.Text.{◌==◌ as str_eq}
use pwospf.Wire.{htonl, htons}
use pwospf.Topology.{PwospfIf, Subsys, router_contains_subnet}
use pwospf.Topology.WellFormed.{
  IsWellFormed, Shrinks, Shrinks-refl, Shrinks-trans, Shrinks-IsWellFormed,
}
use pwospf.Topology.WellFormed.Removal.{id-Shrinks}
use pwospf.Pwospf.Hello.{adopt, meet, HelloPacket, handle_hello, walk_interfaces}
use pwospf.Base.{leb, Any, Settles-map, Settles, Settles-bind, All, ◌+◌, ◌*◌, ◌<◌}
use pwospf.Pwospf.Hello.{renew_neighbors}
use pwospf.Pwospf.Hello.Silence.{expire-ends}

-- A change of the interfaces leaves the topology.
plain-Shrinks :
    (s t : Subsys) (ifs : List PwospfIf) → Shrinks s t → Shrinks s (record t { interfaces = ifs })
plain-Shrinks s t ifs c = record {
  network = c.network;
  next_address = c.next_address;
  this_router = c.this_router;
  rids = c.rids;
  subset = c.subset;
  keeps = c.keeps;
}

adopt-Shrinks : (s : Subsys) (src rid nmask : ℕ) → Shrinks s (adopt s src rid nmask)
unfolding adopt
adopt-Shrinks s src rid nmask =
    elim (Option-cases
      (router_contains_subnet (s.heap s.this_router) (bit_and src (htonl nmask)))) [
        | inl e ↦ rw (e, adopt) (Shrinks-refl s)
        | inr ((i, old), e) ↦
            rw (e, adopt)
              (if-all (Shrinks s) (old.r_id == 0 && old.mask == htonl nmask)
                (id-Shrinks s s.this_router i rid) (Shrinks-refl s))
      ]

abbrev Keeps : Subsys → Outcome Subsys → Type 0
Keeps s x = Settles x (Shrinks s)

Keeps-after : (s t : Subsys) (x : Outcome Subsys) → Shrinks s t → Keeps t x → Keeps s x
Keeps-after s t x c k = Settles-map (Shrinks t) (Shrinks s) x k (λ u d. Shrinks-trans s t u c d)

meet-Settles :
    (i : PwospfIf) (now src rid : ℕ) (found : Bool) → Settles (meet i now src rid found) Any
unfolding meet
meet-Settles i now src rid found = ground arith

walk-Keeps :
    (s : Subsys) (now : ℕ) (interface : String) (p : HelloPacket) (passed ifs : List PwospfIf)
    (found : Bool)
    → Keeps s (walk_interfaces s now interface p passed ifs found)
unfolding walk_interfaces
walk-Keeps s now interface p passed [] found = plain-Shrinks s s passed (Shrinks-refl s)
walk-Keeps s now interface p passed (i ∷ ifs) found =
    let (t, ns, ran, c, _, _) =
      expire-ends (length i.neighbors) s now [] i.neighbors (omega arith) in
    let j : PwospfIf = record i { neighbors = ns } in
    let u = adopt t p.ip_src p.rid p.hello.nmask in
    let d : Shrinks s u = Shrinks-trans s t u c (adopt-Shrinks t p.ip_src p.rid p.hello.nmask) in
    rw ran (
      if-all {A = Outcome Subsys} (Keeps s) (str_eq i.name interface)
        (if-all {A = Outcome Subsys} (Keeps s)
          (not (i.mask == htonl p.hello.nmask) || not (i.helloint == htons p.hello.helloint))
          (plain-Shrinks s t (passed ++ j ∷ ifs) c)
          (Settles-bind Any (Shrinks s) (meet j now p.ip_src p.rid found) _
            (meet-Settles j now p.ip_src p.rid found)
            (λ (k, found') _.
              Keeps-after s u _ d (walk-Keeps u now interface p (passed ++ k ∷ []) ifs found'))))
        (Keeps-after s t _ c (walk-Keeps t now interface p (passed ++ j ∷ []) ifs found)))

-- handle_HELLO ends on every packet, unless an interface has an array of neighbors of size 0 or the
-- array is written past its end.
pub handle_hello-Settles :
    (s : Subsys) (now : ℕ) (interface : String) (len : ℕ) (p : HelloPacket)
    → Settles (handle_hello s now interface len p) (Shrinks s)
unfolding handle_hello
handle_hello-Settles s now interface len p =
    if-all {A = Outcome Subsys} (Keeps s) (ltb len 32) (Shrinks-refl s)
      (walk-Keeps s now interface p [] s.interfaces false)

-- The array of neighbors has room for one more.
pub record HasRoom (i : PwospfIf) : Type 0 where
  pub fewer : length i.neighbors < i.nbr_buf_size
  pub fits : 8 * i.nbr_buf_size ≤ i.nbr_bytes

meet-room :
    (i : PwospfIf) (now src rid : ℕ) (found : Bool)
    → HasRoom i
    → (k : PwospfIf) × (found' : Bool) × (meet i now src rid found ≡ done (k, found'))
unfolding meet
meet-room i now src rid found room =
    let free : leb i.nbr_buf_size (length i.neighbors) ≡ false = ground (arith, room.fewer) in
    let some_size : (i.nbr_buf_size == 0) ≡ false = ground (arith, room.fewer) in
    let inside : ltb i.nbr_bytes (8 * length i.neighbors) ≡ false =
      ground (arith, room.fewer, room.fits) in
    let inside_more : ltb i.nbr_bytes (8 * (length i.neighbors + 1)) ≡ false =
      ground (arith, room.fewer, room.fits) in
    rw (free, some_size, inside, inside_more)
      (if-all {A = Outcome (PwospfIf × Bool)}
        (λ x. (k : PwospfIf) × (found' : Bool) × (x ≡ done (k, found')))
        (found || (renew_neighbors i.neighbors src now).1) (_, true, refl) (_, false, refl))

abbrev Returns : Outcome Subsys → Type 0
Returns x = (t : Subsys) × (x ≡ done t)

walk-Returns :
    (s : Subsys) (now : ℕ) (interface : String) (p : HelloPacket) (passed ifs : List PwospfIf)
    (found : Bool)
    → All HasRoom ifs
    → Returns (walk_interfaces s now interface p passed ifs found)
unfolding walk_interfaces
walk-Returns s now interface p passed [] found rooms = (_, refl)
walk-Returns s now interface p passed (i ∷ ifs) found (room, rooms) =
    let (t, ns, ran, _, _, count) =
      expire-ends (length i.neighbors) s now [] i.neighbors (omega arith) in
    let j : PwospfIf = record i { neighbors = ns } in
    let (k, found', met) =
      meet-room j now p.ip_src p.rid found
        (record { fewer = omega (arith, count, room.fewer); fits = room.fits }) in
    let u = adopt t p.ip_src p.rid p.hello.nmask in
    rw (ran, met)
      (if-all {A = Outcome Subsys} Returns (str_eq i.name interface)
        (if-all {A = Outcome Subsys} Returns
          (not (i.mask == htonl p.hello.nmask) || not (i.helloint == htons p.hello.helloint))
          (_, refl) (walk-Returns u now interface p (passed ++ k ∷ []) ifs found' rooms))
        (walk-Returns t now interface p (passed ++ j ∷ []) ifs found rooms))

-- Where the array of neighbors of each interface has room for one more, handle_HELLO returns on every
-- packet; and a well-formed topology stays one, with the same network.
pub handle_hello-IsWellFormed :
    (s : Subsys) (now : ℕ) (interface : String) (len : ℕ) (p : HelloPacket)
    → IsWellFormed s
    → All HasRoom s.interfaces
    → (t : Subsys) × (handle_hello s now interface len p ≡ done t)
      × IsWellFormed t
      × (t.network ≡ s.network)
unfolding handle_hello
handle_hello-IsWellFormed s now interface len p w rooms =
    let (t, ran) =
      if-all {A = Outcome Subsys} Returns (ltb len 32) (s, refl)
        (walk-Returns s now interface p [] s.interfaces false rooms) in
    let c = subst (Keeps s) ran (handle_hello-Settles s now interface len p) in
    (t, ran, Shrinks-IsWellFormed s t c w, c.network)
