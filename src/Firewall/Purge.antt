-- ===== src/Firewall/Purge.antt =====
-- remove_stale_entries of fw.c: it ends, and what it leaves of the flow table.
use pwospf.Base.{
  ℕ, zero, suc, ◌+◌, ◌-◌, ◌*◌, ◌≤◌, ◌≡◌, refl, ap, sym, ◌∙◌, Bool, true, false, List, [], ◌∷◌, ◌++◌,
  some, ◌⊎◌, inl, inr, arith, if◌then◌else◌, length, any, Bool-cases,
}
use mathlib.Core.Bool.{false≢true}
use native.Mathlib.Nat.{zero-add}
use pwospf.Firewall.{FtEntry, Firewall, is_stale, tail, purge, purge_fuel, remove_stale_entries}

-- What is left: the entries behind the last stale one.
pub fresh_end : ℕ → List FtEntry → List FtEntry
fresh_end now [] = []
fresh_end now (e ∷ es) = if any (λ x. is_stale x now) (e ∷ es) then fresh_end now es else e ∷ es

abbrev pub any_stale : ℕ → List FtEntry → Bool
any_stale now = any (λ x. is_stale x now)

fresh_end-tail :
    (now : ℕ) (es : List FtEntry)
    → (if any_stale now es then fresh_end now (tail es) else es) ≡ fresh_end now es
unfolding fresh_end
fresh_end-tail now [] = refl
fresh_end-tail now (e ∷ es) = refl

pub purge_lem :
    (fuel now c : ℕ) (t w : List FtEntry)
    → length w ≤ length t
    → length w + length t * length t ≤ fuel
    → let r = (if any_stale now w then fresh_end now (tail t) else t) in
      purge fuel now t (c + length t) w ≡ some (r, c + length r)
unfolding purge
purge_lem fuel now c t [] h f = refl
purge_lem zero now c t (e ∷ es) h f = absurd (omega arith)
purge_lem (suc fuel) now c [] (e ∷ es) h f = absurd (omega arith)
purge_lem (suc fuel) now c (x ∷ t) (e ∷ es) h f = elim (Bool-cases (is_stale e now)) [
  | inl stale ↦
      let size : c + suc (length t) - 1 ≡ c + length t = omega arith in
      rw (stale, size)
        (rw (purge_lem fuel now c t t (omega arith) (omega arith)) (rw (fresh_end-tail now t)))
  | inr fresh ↦ rw fresh (purge_lem fuel now c (x ∷ t) es (omega arith) (omega arith))
]

-- Why a table lost its front: nothing was lost, or the last entry of the lost part was stale.
abbrev pub Cut : ℕ → List FtEntry → List FtEntry → Type 0
Cut now table kept =
    (lost : List FtEntry) × (table ≡ lost ++ kept)
    × ((lost ≡ [])
        ⊎ ((front : List FtEntry) × (last : FtEntry) × (lost ≡ front ++ last ∷ [])
            × (is_stale last now ≡ true)))

fresh_end-fresh : (now : ℕ) (es : List FtEntry) → any_stale now (fresh_end now es) ≡ false
unfolding fresh_end
fresh_end-fresh now [] = refl
fresh_end-fresh now (e ∷ es) = elim (Bool-cases (any_stale now (e ∷ es))) [
  | inl stale ↦ rw stale (fresh_end-fresh now es)
  | inr fresh ↦ rw fresh fresh
]

Cut-cons :
    (now : ℕ) (e : FtEntry) (es kept : List FtEntry)
    → any_stale now (e ∷ es) ≡ true
    → any_stale now kept ≡ false
    → Cut now es kept
    → Cut now (e ∷ es) kept
Cut-cons now e es kept stale fresh (lost, split, inr (front, last, end, old)) =
    (e ∷ lost, ap (λ l. e ∷ l) split, inr (e ∷ front, last, ap (λ l. e ∷ l) end, old))
Cut-cons now e es kept stale fresh (lost, split, inl nothing) = elim (Bool-cases (is_stale e now)) [
  | inl old ↦ (e ∷ lost, ap (λ l. e ∷ l) split, inr ([], e, ap (λ l. e ∷ l) nothing, old))
  | inr current ↦
      let same : es ≡ kept = rw nothing at split in
      let later : any_stale now es ≡ true = rw current at stale in
      absurd (false≢true (sym fresh ∙ sym (ap (any_stale now) same) ∙ later))
]

fresh_end-Cut : (now : ℕ) (es : List FtEntry) → Cut now es (fresh_end now es)
unfolding fresh_end
fresh_end-Cut now [] = ([], refl, inl refl)
fresh_end-Cut now (e ∷ es) = elim (Bool-cases (any_stale now (e ∷ es))) [
  | inl stale ↦
      rw stale
        (Cut-cons now e es (fresh_end now es) stale (fresh_end-fresh now es) (fresh_end-Cut now es))
  | inr fresh ↦ rw fresh ([], refl, inl refl)
]

purge-fresh_end :
    (now : ℕ) (t : List FtEntry)
    → purge (purge_fuel t) now t (length t) t ≡ some (fresh_end now t, length (fresh_end now t))
purge-fresh_end now t =
    rw (zero-add, zero-add, fresh_end-tail) at
      (purge_lem (purge_fuel t) now 0 t t (omega arith) (omega arith))

-- With its counter in step with the table, the purge ends, and it keeps exactly the entries behind
-- the last stale one: what it keeps is all fresh and is a final part of the table, and the entry
-- before that part, if there is one, was stale. The counter is then again the length of the table,
-- and nothing else changes.
pub remove_stale_entries_lem :
    (fw : Firewall) (now : ℕ)
    → fw.ft_size ≡ length fw.flow_table
    → (kept : List FtEntry) × (remove_stale_entries fw now
        ≡ some (record fw { flow_table = kept; ft_size = length kept }))
      × (any (λ e. is_stale e now) kept ≡ false)
      × Cut now fw.flow_table kept
unfolding remove_stale_entries
remove_stale_entries_lem fw now sized = (
  fresh_end now fw.flow_table,
  rw (sized, purge-fresh_end now fw.flow_table),
  fresh_end-fresh now fw.flow_table,
  fresh_end-Cut now fw.flow_table,
)
