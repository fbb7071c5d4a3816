-- ===== src/Firewall/Admission.antt =====
-- tell_valid of fw.c: a connection from inside is noted, or refused for want of room.
use pwospf.Base.{
  ℕ, zero, suc, ◌+◌, ◌≤◌, ◌<◌, ◌≡◌, ◌↔◌, ◌⊎◌, refl, ap, sym, ◌∙◌, Bool, true, false, ◌&&◌, List, [],
  ◌∷◌, ◌++◌, none, some, inl, inr, arith, All, length, modify, Bool-cases, Option-cases,
  length-append, length-modify, ltb,
}
use mathlib.Core.Option
use pwospf.Firewall.{
  FtEntry, Firewall, Tuple, max_ft_size, max_ttl_updates, same_tuple, is_current, is_stale,
  flow_position, ft_contains, refresh, check_connection, new_entry, remove_stale_entries,
  tell_valid,
}
use pwospf.Firewall.Purge.{Cut, any_stale, remove_stale_entries_lem}
use pwospf.Firewall.Flow.{IsSized}

length-Cut :
    (now : ℕ) (table kept : List FtEntry)
    → Cut now table kept
    → (length kept ≤ length table) × (length kept ≡ length table → kept ≡ table)
length-Cut now table kept (lost, split, why) =
    let total : length table ≡ length lost + length kept =
      ap length split ∙ length-append lost kept in
    (omega (arith, total), λ e. empty lost split (omega (arith, total)))
  where
    empty : (l : List FtEntry) → table ≡ l ++ kept → length l ≡ 0 → kept ≡ table
    empty [] s z = sym s
    empty (x ∷ l) s z = absurd (omega arith)

any_stale-append :
    (now : ℕ) (front kept : List FtEntry) (last : FtEntry)
    → is_stale last now ≡ true
    → any_stale now ((front ++ last ∷ []) ++ kept) ≡ true
any_stale-append now [] kept last old = ground arith
any_stale-append now (e ∷ front) kept last old =
    ground (arith, any_stale-append now front kept last old)

Cut-cases :
    (now : ℕ) (table kept : List FtEntry)
    → Cut now table kept
    → (kept ≡ table) ⊎ (any_stale now table ≡ true)
Cut-cases now table kept (lost, split, inl nothing) = inl (rw (split, nothing))
Cut-cases now table kept (lost, split, inr (front, last, end, old)) =
    inr (rw (split, end) (any_stale-append now front kept last old))

-- The three ways through tell_valid, by the entry found and the room there is.
data Verdict (fw : Firewall) (k : Tuple) (now : ℕ) : Type 0 where
  renewed :
      (i : ℕ)
      → ft_contains fw k now ≡ some i
      → tell_valid fw k now ≡ some (record fw { flow_table = modify fw.flow_table i refresh }, true)
      → Verdict fw k now
  added :
      (kept : List FtEntry)
      → ft_contains fw k now ≡ none
      → length kept < max_ft_size
      → (fw.ft_size < max_ft_size) ⊎ (any_stale now fw.flow_table ≡ true)
      → tell_valid fw k now
        ≡ some (
          record fw { flow_table = kept ++ new_entry k now ∷ []; ft_size = length kept + 1 },
          true,
        )
      → Verdict fw k now
  refused :
      ft_contains fw k now ≡ none
      → fw.ft_size ≡ max_ft_size
      → any_stale now fw.flow_table ≡ false
      → tell_valid fw k now ≡ some (fw, false)
      → Verdict fw k now

full-Verdict :
    (fw : Firewall) (k : Tuple) (now : ℕ) (kept : List FtEntry)
    → IsSized fw
    → ft_contains fw k now ≡ none
    → ltb fw.ft_size max_ft_size ≡ false
    → remove_stale_entries fw now ≡ some (record fw { flow_table = kept; ft_size = length kept })
    → any_stale now kept ≡ false
    → Cut now fw.flow_table kept
    → Verdict fw k now
unfolding tell_valid
full-Verdict fw k now kept s nowhere full purged fresh cut =
    elim (Bool-cases (ltb (length kept) max_ft_size)) [
      | inl room ↦
          added kept nowhere (ground arith) (ground (arith, Cut-cases now fw.flow_table kept cut))
            (rw (nowhere, full, purged, room, tell_valid))
      | inr packed ↦
          let whole : kept ≡ fw.flow_table =
            (length-Cut now fw.flow_table kept cut).1
              (ground (arith, (length-Cut now fw.flow_table kept cut).0)) in
          refused nowhere (ground arith) (rw whole at fresh)
            (rw (nowhere, full, purged, packed, tell_valid) (ground arith))
    ]

tell_valid-Verdict : (fw : Firewall) (k : Tuple) (now : ℕ) → IsSized fw → Verdict fw k now
unfolding tell_valid
tell_valid-Verdict fw k now s = elim (Option-cases (ft_contains fw k now)) [
  | inr (i, found) ↦ renewed i found (rw (found, tell_valid))
  | inl nowhere ↦ elim (Bool-cases (ltb fw.ft_size max_ft_size)) [
    | inl room ↦
        added fw.flow_table nowhere (ground arith) (inl (ground arith))
          (rw (nowhere, room, tell_valid) (ground arith))
    | inr full ↦
        let (kept, purged, fresh, cut) = remove_stale_entries_lem fw now s.counted in
        full-Verdict fw k now kept s nowhere full purged fresh cut
  ]
]

-- With the counter in step and at most 30 entries, tell_valid returns, and so it is afterwards.
pub tell_valid-IsSized :
    (fw : Firewall) (k : Tuple) (now : ℕ)
    → IsSized fw
    → (g : Firewall) × (b : Bool) × (tell_valid fw k now ≡ some (g, b)) × IsSized g
tell_valid-IsSized fw k now s = elim (tell_valid-Verdict fw k now s) [
  | renewed i found e ↦ (_, true, e, omega (arith, length-modify fw.flow_table i refresh))
  | added kept nowhere room why e ↦
      (_, true, e, omega (arith, length-append kept (new_entry k now ∷ [])))
  | refused nowhere full fresh e ↦ (fw, false, e, s)
]

-- With the counter in step and at most 30 entries, tell_valid returns. It refuses a connection exactly
-- when the flow table has no valid entry of it, is at its limit of 30 entries, and holds no stale
-- entry; and whenever it refuses one, the firewall is left as it was.
pub tell_valid-refuses_iff :
    (fw : Firewall) (k : Tuple) (now : ℕ)
    → IsSized fw
    → (g : Firewall) × (b : Bool) × (tell_valid fw k now ≡ some (g, b))
      × ((b ≡ false) ↔ (
          (ft_contains fw k now ≡ none)
          × (fw.ft_size ≡ max_ft_size)
          × (any_stale now fw.flow_table ≡ false)))
      × ((b ≡ true) ⊎ (g ≡ fw))
tell_valid-refuses_iff fw k now s = elim (tell_valid-Verdict fw k now s) [
  | renewed i found e ↦ (
    _,
    true,
    e,
    (λ refusal. absurd (ground (arith, refusal)), λ (nowhere, _, _). absurd (ground arith)),
    inl refl,
  )
  | added kept nowhere room why e ↦ (
    _,
    true,
    e,
    (λ refusal. absurd (ground (arith, refusal)), λ (_, full, fresh). absurd (ground arith)),
    inl refl,
  )
  | refused nowhere full fresh e ↦
      (fw, false, e, (λ _. (nowhere, full, fresh), λ _. refl), inr refl)
]

position-append :
    (es : List FtEntry) (k : Tuple) (now : ℕ)
    → (i : ℕ) × (flow_position (es ++ new_entry k now ∷ []) k now ≡ some i)
unfolding flow_position
position-append [] k now = (0, ground arith)
position-append (e ∷ es) k now = elim (Bool-cases (same_tuple e.key k && is_current e now)) [
  | inl hit ↦ (0, rw hit)
  | inr miss ↦ let (i, found) = position-append es k now in (suc i, rw (miss, found))
]

position-refresh :
    (es : List FtEntry) (k : Tuple) (now i : ℕ)
    → All (λ e. e.ttl_updates < max_ttl_updates) es
    → flow_position es k now ≡ some i
    → flow_position (modify es i refresh) k now ≡ some i
unfolding flow_position
position-refresh [] k now i young found = cc
position-refresh (e ∷ es) k now zero young found =
    elim (Bool-cases (same_tuple e.key k && is_current e now)) [
      | inl hit ↦ ground arith
      | inr miss ↦ absurd (ground arith)
    ]
position-refresh (e ∷ es) k now (suc i) young found =
    elim (Bool-cases (same_tuple e.key k && is_current e now)) [
      | inl hit ↦ absurd (ground arith)
      | inr miss ↦
          rw miss (ap (Option.map suc) (position-refresh es k now i young.1 (ground arith)))
    ]

-- After tell_valid has accepted a connection, check_connection passes it at the same time, provided
-- that no entry of the flow table had used up its 80 renewals before.
pub tell_valid-check_connection :
    (fw g : Firewall) (k : Tuple) (now : ℕ)
    → IsSized fw
    → All (λ e. e.ttl_updates < max_ttl_updates) fw.flow_table
    → tell_valid fw k now ≡ some (g, true)
    → (check_connection g k now).1 ≡ true
unfolding check_connection ft_contains
tell_valid-check_connection fw g k now s young accepted = elim (tell_valid-Verdict fw k now s) [
  | renewed i found e ↦ ground (arith, position-refresh fw.flow_table k now i young found)
  | added kept nowhere room why e ↦ ground (arith, position-append kept k now)
  | refused nowhere full fresh e ↦ absurd (ground arith)
]
