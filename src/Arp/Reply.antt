-- ===== src/Arp/Reply.antt =====
-- got_Reply of arp.c: what the cache answers afterwards.
use pwospf.Base.{
  ℕ, ◌+◌, ◌≡◌, ◌≢◌, refl, ap, false, List, [], ◌∷◌, ◌++◌, none, some, inl, inr, ◌==◌, ◌∙◌, arith,
  Option-cases, done,
}
use pwospf.Arp.{
  ArpCacheEntry, check_cache_invalid, find_mac, search_cache, add_cache_entry, arp_timeout,
  got_reply,
}
use pwospf.Wire.{ArpHdr}
use pwospf.Arp.Cache.{
  Holds, IsDistinct, kept-valid, find_mac-some, find_mac-none, IsDistinct-valid, IsDistinct-append,
  find_mac-append, check-again, check-append,
}

-- What got_reply leaves where the cache had nothing for the sender.
new-entry :
    (cache : List ArpCacheEntry) (now : ℕ) (arp : ArpHdr)
    → IsDistinct cache
    → find_mac (check_cache_invalid now cache) arp.ar_sip ≡ none
    → let left = check_cache_invalid now cache in
      let e : ArpCacheEntry = record {
        ip_add = arp.ar_sip;
        mac = arp.ar_sha;
        timenotvalid = now + arp_timeout;
      } in
      (search_cache (left ++ e ∷ []) now arp.ar_sip ≡ (left ++ e ∷ [], some arp.ar_sha))
      × IsDistinct (left ++ e ∷ [])
unfolding search_cache
new-entry cache now arp d h =
    let left = check_cache_invalid now cache in
    let e : ArpCacheEntry = record {
      ip_add = arp.ar_sip;
      mac = arp.ar_sha;
      timenotvalid = now + arp_timeout;
    } in
    (
      rw (check-append now left e (omega arith), check-again now cache)
          (rw (find_mac-append left e h)),
      IsDistinct-append left e (IsDistinct-valid now cache d)
          (λ x i. find_mac-none left arp.ar_sip x h i),
    )

not-zero : (n : ℕ) → n ≢ 0 → (n == 0) ≡ false
not-zero n h = ground (arith, h)

got_reply-new :
    (cache : List ArpCacheEntry) (now : ℕ) (arp : ArpHdr)
    → find_mac (check_cache_invalid now cache) arp.ar_sip ≡ none
    → arp.ar_sip ≢ 0
    → let e : ArpCacheEntry = record {
      ip_add = arp.ar_sip;
      mac = arp.ar_sha;
      timenotvalid = now + arp_timeout;
    } in
      got_reply cache now arp
      ≡ done (search_cache (check_cache_invalid now cache ++ e ∷ []) now arp.ar_sip)
unfolding got_reply add_cache_entry search_cache
got_reply-new cache now arp h nonzero =
    rw (h, not-zero arp.ar_sip nonzero, got_reply, add_cache_entry, search_cache) refl

got_reply-known :
    (cache : List ArpCacheEntry) (now : ℕ) (arp : ArpHdr) (m : List ℕ)
    → find_mac (check_cache_invalid now cache) arp.ar_sip ≡ some m
    → got_reply cache now arp ≡ done (check_cache_invalid now cache, some m)
unfolding got_reply add_cache_entry search_cache
got_reply-known cache now arp m h =
    rw (h, check-again now cache, got_reply, add_cache_entry, search_cache) (rw h refl)

-- In a cache where no address stands twice, a reply from an address other than 0 is always answered
-- for afterwards, and no address stands twice then either. The address in the reply is the one that
-- is found, unless the cache had a valid entry for the sender.
pub got_reply_lem :
    (cache : List ArpCacheEntry) (now : ℕ) (arp : ArpHdr)
    → IsDistinct cache
    → arp.ar_sip ≢ 0
    → (c : List ArpCacheEntry) × (m : List ℕ) × (got_reply cache now arp ≡ done (c, some m))
      × IsDistinct c
      × (((e : ArpCacheEntry) → Holds cache now e → e.ip_add ≢ arp.ar_sip) → m ≡ arp.ar_sha)
unfolding got_reply add_cache_entry search_cache
got_reply_lem cache now arp d nonzero =
    let left = check_cache_invalid now cache in
    elim (Option-cases (find_mac left arp.ar_sip)) [
      | inl h ↦
          let (e, d') = new-entry cache now arp d h in
          (_, arp.ar_sha, got_reply-new cache now arp h nonzero ∙ ap (λ p. done p) e, d', λ _. refl)
      | inr (m, h) ↦ (
        left,
        m,
        got_reply-known cache now arp m h,
        IsDistinct-valid now cache d,
        λ nothing.
            let (e, i, a, b) = find_mac-some left arp.ar_sip m h in
            absurd (nothing e (kept-valid now cache e i) a),
      )
    ]
