-- ===== src/Arp/Expiry.antt =====
-- The ARP cache of arp.c as an implementation of a map from addresses, with expiry.
use pwospf.Base.{
  ℕ, ◌+◌, ◌≤◌, ◌≡◌, ◌≢◌, refl, ap, ◌∙◌, true, false, ◌&&◌, List, [], ◌∷◌, ◌++◌, append-nil, Option,
  none, some, inl, inr, leb, ltb, ◌==◌, if◌then◌else◌, is_some, not, arith, Bool-cases,
  Option-cases, done, ==_iff,
}
use pwospf.Arp.{
  ArpCacheEntry, arp_timeout, check_cache_invalid, find_mac, search_cache, add_cache_entry,
}

-- What is known: the hardware address of an address, at a time.
abbrev pub Known : Type 0
Known = ℕ → ℕ → Option (List ℕ)

-- An address that is not known at `now` becomes known, up to the time-out. One that is known stays
-- as it is.
abbrev pub learn : Known → ℕ → ℕ → List ℕ → Known
learn k now ip mac time x =
    if not (is_some (k now ip)) && (x == ip && leb time (now + arp_timeout))
    then some mac
    else k time x

-- What a cache stands for.
abbrev pub known : List ArpCacheEntry → Known
known cache now ip = (search_cache cache now ip).1

check-later :
    (now time : ℕ) (cache : List ArpCacheEntry)
    → now ≤ time
    → check_cache_invalid time (check_cache_invalid now cache) ≡ check_cache_invalid time cache
unfolding check_cache_invalid
check-later now time [] h = refl
check-later now time (x ∷ es) h = ground (arith, check-later now time es h, h)

check-both :
    (time : ℕ) (xs ys : List ArpCacheEntry)
    → check_cache_invalid time (xs ++ ys)
      ≡ check_cache_invalid time xs ++ check_cache_invalid time ys
unfolding check_cache_invalid
check-both time [] ys = refl
check-both time (x ∷ xs) ys = ground (arith, check-both time xs ys)

-- What is not known does not become known by the passing of time.
forgotten :
    (now time ip : ℕ) (cache : List ArpCacheEntry)
    → now ≤ time
    → find_mac (check_cache_invalid now cache) ip ≡ none
    → find_mac (check_cache_invalid time cache) ip ≡ none
unfolding check_cache_invalid find_mac
forgotten now time ip [] h e = refl
forgotten now time ip (x ∷ es) h e = elim (Bool-cases (ltb x.timenotvalid now)) [
  | inl old ↦
      let older : ltb x.timenotvalid time ≡ true = ground (arith, old, h) in
      rw older (forgotten now time ip es h (rw old at e))
  | inr valid ↦ elim (Bool-cases (ip == x.ip_add)) [
    | inl hit ↦ let lost = rw (valid, hit) at e in absurd (ground (arith, lost))
    | inr miss ↦
        let rest = forgotten now time ip es h (rw (valid, miss) at e) in
        elim (Bool-cases (ltb x.timenotvalid time)) [
          | inl old ↦ rw old rest
          | inr stays ↦ rw (stays, miss) rest
        ]
  ]
]

find_mac-last :
    (xs : List ArpCacheEntry) (e : ArpCacheEntry) (ip : ℕ)
    → find_mac (xs ++ e ∷ []) ip ≡ (elim (find_mac xs ip) [
      | some m ↦ some m
      | none ↦ if ip == e.ip_add then some e.mac else none
    ])
unfolding find_mac
find_mac-last [] e ip = refl
find_mac-last (x ∷ xs) e ip = elim (Bool-cases (ip == x.ip_add)) [
  | inl hit ↦ rw hit refl
  | inr miss ↦ rw miss (find_mac-last xs e ip)
]

-- The cache with a new entry at its end, for the address that was looked for in vain.
appended :
    (cache : List ArpCacheEntry) (now ip : ℕ) (mac : List ℕ) (time x : ℕ)
    → now ≤ time
    → known cache now ip ≡ none
    → known
        (check_cache_invalid now cache
          ++ record { ip_add = ip; mac = mac; timenotvalid = now + arp_timeout } ∷ [])
        time
        x
      ≡ learn (known cache) now ip mac time x
unfolding search_cache check_cache_invalid find_mac
appended cache now ip mac time x later nothing =
    let e : ArpCacheEntry = record { ip_add = ip; mac = mac; timenotvalid = now + arp_timeout } in
    let lists : check_cache_invalid time (check_cache_invalid now cache ++ e ∷ [])
        ≡ check_cache_invalid time cache ++ check_cache_invalid time (e ∷ []) =
      check-both time (check_cache_invalid now cache) (e ∷ [])
      ∙ ap (λ l. l ++ check_cache_invalid time (e ∷ [])) (check-later now time cache later) in
    let lost = forgotten now time ip cache later nothing in
    let same : x ≡ ip → find_mac (check_cache_invalid time cache) x ≡ none =
      λ at. ap (find_mac (check_cache_invalid time cache)) at ∙ lost in
    rw (lists, nothing)
      (elim (Bool-cases (leb time (now + arp_timeout))) [
        | inl in_time ↦
            let valid : ltb (now + arp_timeout) time ≡ false = ground (arith, in_time) in
            rw (valid, in_time)
              (find_mac-last (check_cache_invalid time cache) e x ∙ elim (Bool-cases (x == ip)) [
                | inl at ↦ rw (same ((==_iff x ip).0 at), at) refl
                | inr other ↦ elim (Option-cases (find_mac (check_cache_invalid time cache) x)) [
                  | inl miss ↦ rw (miss, other) refl
                  | inr (m, hit) ↦ rw (hit, other) refl
                ]
              ])
        | inr late ↦
            let old : ltb (now + arp_timeout) time ≡ true = ground (arith, late) in
            rw (old, late, append-nil)
              (elim (Bool-cases (x == ip)) [ inl at ↦ rw at refl | inr other ↦ rw other refl ])
      ])

-- The cache implements a map with expiry. The search leaves what is known of any address at any time
-- from then on; and add_cache_entry, for an address that is not 0, returns a cache in which at any
-- time from then on exactly that is known which was known, and the new address for 15 seconds if
-- it was not known.
pub add_cache_entry-learn :
    (cache : List ArpCacheEntry) (now ip : ℕ) (mac : List ℕ) (time x : ℕ)
    → ip ≢ 0
    → now ≤ time
    → (known (search_cache cache now ip).0 time x ≡ known cache time x)
      × ((c : List ArpCacheEntry) × (add_cache_entry cache now ip mac ≡ done c)
          × (known c time x ≡ learn (known cache) now ip mac time x))
unfolding search_cache add_cache_entry
add_cache_entry-learn cache now ip mac time x address later =
    let keeps : known (check_cache_invalid now cache) time x ≡ known cache time x =
      ap (λ l. find_mac l x) (check-later now time cache later) in
    (
      keeps,
      elim (Option-cases (find_mac (check_cache_invalid now cache) ip)) [
        | inr (m, hit) ↦
            (check_cache_invalid now cache, rw (hit, add_cache_entry) refl, rw hit keeps)
        | inl nothing ↦
            let nonzero : (ip == 0) ≡ false = ground (arith, address) in
            (
              check_cache_invalid now cache
                  ++ record { ip_add = ip; mac = mac; timenotvalid = now + arp_timeout } ∷ [],
              rw (nothing, nonzero, add_cache_entry) refl,
              appended cache now ip mac time x later nothing,
            )
      ],
    )
