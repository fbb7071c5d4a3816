-- ===== src/Arp/Cache.antt =====
-- The ARP cache of arp.c as a map with expiry.
use pwospf.Base.{
  ℕ, ◌≤◌, ◌≡◌, ◌≢◌, ◌↔◌, refl, ap, List, [], ◌∷◌, ◌++◌, none, some, inl, inr, ltb, ◌==◌, In,
  In-append, ◌∙◌, arith, Bool-cases, Option-cases,
}
use pwospf.Arp.{ArpCacheEntry, check_cache_invalid, find_mac, search_cache}

-- An entry of the cache that counts at a time.
abbrev pub Holds : List ArpCacheEntry → ℕ → ArpCacheEntry → Type 0
Holds cache now e = In e cache × (now ≤ e.timenotvalid)

-- No address stands twice.
abbrev pub IsDistinct : List ArpCacheEntry → Type 0
IsDistinct [] = Unit {0}
IsDistinct (e ∷ es) = ((x : ArpCacheEntry) → In x es → e.ip_add ≢ x.ip_add) × IsDistinct es

pub kept-valid :
    (now : ℕ) (cache : List ArpCacheEntry) (e : ArpCacheEntry)
    → In e (check_cache_invalid now cache)
    → Holds cache now e
unfolding check_cache_invalid
kept-valid now [] e i = absurd i
kept-valid now (x ∷ es) e i = elim (Bool-cases (ltb x.timenotvalid now)) [
  | inl old ↦ let (j, t) = kept-valid now es e (rw (old, check_cache_invalid) at i) in (inr j, t)
  | inr valid ↦
      let k : In e (x ∷ check_cache_invalid now es) = rw (valid, check_cache_invalid) at i in
      elim k [
        | inl same ↦ (inl same, ground (arith, ap (λ (y : ArpCacheEntry). y.timenotvalid) same))
        | inr later ↦ let (j, t) = kept-valid now es e later in (inr j, t)
      ]
]

valid-kept :
    (now : ℕ) (cache : List ArpCacheEntry) (e : ArpCacheEntry)
    → Holds cache now e
    → In e (check_cache_invalid now cache)
unfolding check_cache_invalid
valid-kept now [] e h = absurd h.0
valid-kept now (x ∷ es) e (i, t) = elim (Bool-cases (ltb x.timenotvalid now)) [
  | inl old ↦
      rw (old, check_cache_invalid)
        (elim i [
          | inl same ↦ absurd (ground (arith, ap (λ (y : ArpCacheEntry). y.timenotvalid) same))
          | inr j ↦ valid-kept now es e (j, t)
        ])
  | inr valid ↦
      rw (valid, check_cache_invalid)
        (elim i [ inl same ↦ inl same | inr j ↦ inr (valid-kept now es e (j, t)) ])
]

pub find_mac-some :
    (cache : List ArpCacheEntry) (ip : ℕ) (m : List ℕ)
    → find_mac cache ip ≡ some m
    → (e : ArpCacheEntry) × In e cache × (e.ip_add ≡ ip) × (e.mac ≡ m)
unfolding find_mac
find_mac-some [] ip m h = cc
find_mac-some (x ∷ es) ip m h = elim (Bool-cases (ip == x.ip_add)) [
  | inl hit ↦ (x, inl refl, ground arith, ground arith)
  | inr miss ↦
      let (e, i, a, b) = find_mac-some es ip m (rw (miss, find_mac) at h) in (e, inr i, a, b)
]

pub find_mac-none :
    (cache : List ArpCacheEntry) (ip : ℕ) (e : ArpCacheEntry)
    → find_mac cache ip ≡ none
    → In e cache
    → e.ip_add ≢ ip
unfolding find_mac
find_mac-none [] ip e h i = absurd i
find_mac-none (x ∷ es) ip e h i = elim (Bool-cases (ip == x.ip_add)) [
  | inl hit ↦ absurd (ground arith)
  | inr miss ↦ elim i [
    | inl same ↦ λ a. absurd (ground (arith, ap (λ (y : ArpCacheEntry). y.ip_add) same))
    | inr j ↦ find_mac-none es ip e (rw (miss, find_mac) at h) j
  ]
]

-- The search answers with the hardware address of an entry for the address that has not expired,
-- and answers nothing exactly when there is no such entry. Of the cache exactly the entries that
-- have not expired are left.
pub search_cache_lem :
    (cache : List ArpCacheEntry) (now ip : ℕ)
    → ((m : List ℕ)
        → (search_cache cache now ip).1 ≡ some m
        → (e : ArpCacheEntry) × Holds cache now e × (e.ip_add ≡ ip) × (e.mac ≡ m))
      × (((search_cache cache now ip).1 ≡ none)
          ↔ ((e : ArpCacheEntry) → Holds cache now e → e.ip_add ≢ ip))
      × ((e : ArpCacheEntry) → In e (search_cache cache now ip).0 ↔ Holds cache now e)
unfolding search_cache
search_cache_lem cache now ip = (
  λ m h.
      let (e, i, a, b) = find_mac-some (check_cache_invalid now cache) ip m h in
      (e, kept-valid now cache e i, a, b),
  (
    λ h e holds.
        find_mac-none (check_cache_invalid now cache) ip e h (valid-kept now cache e holds),
    λ nothing. elim (Option-cases (find_mac (check_cache_invalid now cache) ip)) [
      | inl h ↦ h
      | inr (m, h) ↦
          let (e, i, a, b) = find_mac-some (check_cache_invalid now cache) ip m h in
          absurd (nothing e (kept-valid now cache e i) a)
    ],
  ),
  λ e. (kept-valid now cache e, valid-kept now cache e),
)

pub IsDistinct-valid :
    (now : ℕ) (cache : List ArpCacheEntry)
    → IsDistinct cache
    → IsDistinct (check_cache_invalid now cache)
unfolding check_cache_invalid
IsDistinct-valid now [] d = tt
IsDistinct-valid now (x ∷ es) d = elim (Bool-cases (ltb x.timenotvalid now)) [
  | inl old ↦ rw (old, check_cache_invalid) (IsDistinct-valid now es d.1)
  | inr valid ↦
      rw (valid, check_cache_invalid)
        (λ y i. d.0 y (kept-valid now es y i).0, IsDistinct-valid now es d.1)
]

pub IsDistinct-append :
    (cache : List ArpCacheEntry) (e : ArpCacheEntry)
    → IsDistinct cache
    → ((x : ArpCacheEntry) → In x cache → x.ip_add ≢ e.ip_add)
    → IsDistinct (cache ++ e ∷ [])
IsDistinct-append [] e d new = (λ x i. absurd i, tt)
IsDistinct-append (x ∷ es) e d new = (
  λ y i. elim (In-append es (e ∷ []) y i) [
    | inl j ↦ d.0 y j
    | inr (inl same) ↦ λ a. new x (inl refl) (a ∙ ap (λ (z : ArpCacheEntry). z.ip_add) same)
    | inr (inr none_left) ↦ absurd none_left
  ],
  IsDistinct-append es e d.1 (λ y i. new y (inr i)),
)

pub find_mac-append :
    (cache : List ArpCacheEntry) (e : ArpCacheEntry)
    → find_mac cache e.ip_add ≡ none
    → find_mac (cache ++ e ∷ []) e.ip_add ≡ some e.mac
unfolding find_mac
find_mac-append [] e h = ground arith
find_mac-append (x ∷ es) e h = ground (arith, find_mac-append es e)

pub check-again :
    (now : ℕ) (cache : List ArpCacheEntry)
    → check_cache_invalid now (check_cache_invalid now cache) ≡ check_cache_invalid now cache
unfolding check_cache_invalid
check-again now [] = refl
check-again now (x ∷ es) = ground (arith, check-again now es)

pub check-append :
    (now : ℕ) (cache : List ArpCacheEntry) (e : ArpCacheEntry)
    → now ≤ e.timenotvalid
    → check_cache_invalid now (cache ++ e ∷ []) ≡ check_cache_invalid now cache ++ e ∷ []
unfolding check_cache_invalid
check-append now [] e h = ground arith
check-append now (x ∷ es) e h = ground (arith, check-append now es e h)
