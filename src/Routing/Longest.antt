-- ===== src/Routing/Longest.antt =====
-- The lookups of sr_router.c, which entry they choose; and get_if_from_mac of buffer.c.
use pwospf.Base.{
  ℕ, ◌≤◌, ◌<◌, ◌≡◌, ◌⊎◌, refl, ap, sym, true, false, ◌&&◌, List, [], ◌∷◌, ◌++◌, ◌↔◌, subst, Option,
  none, some, inl, inr, leb, ◌==◌, if◌then◌else◌, In, In-middle, arith, Bool-cases, Option-cases,
  bit_and,
}
use pwospf.Topology.{FtableEntry}
use pwospf.Routing.{SrIf, same_mac, scan_macs, get_if_from_mac, scan_dyn, get_dyn_routing_if}

-- The entry matches the address.
abbrev pub Covers : ℕ → FtableEntry → Type 0
Covers ip e = bit_and e.mask ip ≡ e.prefix

-- The entries of the list that match the address have masks up to `m`, or below it.
abbrev pub UpTo : ℕ → ℕ → List FtableEntry → Type 0
UpTo ip m es = (x : FtableEntry) → In x es → Covers ip x → x.mask ≤ m

abbrev pub Below : ℕ → ℕ → List FtableEntry → Type 0
Below ip m es = (x : FtableEntry) → In x es → Covers ip x → x.mask < m

-- `e` is the last of the matching entries with the greatest mask.
abbrev pub LastBest : ℕ → List FtableEntry → FtableEntry → Type 0
LastBest ip es e =
    (front : List FtableEntry) × (back : List FtableEntry) × (es ≡ front ++ e ∷ back)
    × Covers ip e
    × UpTo ip e.mask front
    × Below ip e.mask back

test-true :
    (e : FtableEntry) (ip min : ℕ)
    → (bit_and e.mask ip == e.prefix && leb min e.mask) ≡ true
    → Covers ip e × (min ≤ e.mask)
test-true e ip min h = ground arith

test-false :
    (e : FtableEntry) (ip min : ℕ)
    → (bit_and e.mask ip == e.prefix && leb min e.mask) ≡ false
    → Covers ip e
    → e.mask < min
test-false e ip min h c = ground arith

Below-cons :
    (x : FtableEntry) (es : List FtableEntry) (ip m : ℕ)
    → (Covers ip x → x.mask < m)
    → Below ip m es
    → Below ip m (x ∷ es)
Below-cons x es ip m h b y (inl same) c = rw same (h (subst (Covers ip) same c))
Below-cons x es ip m h b y (inr i) c = b y i c

UpTo-cons :
    (x : FtableEntry) (es : List FtableEntry) (ip m : ℕ)
    → (Covers ip x → x.mask ≤ m)
    → UpTo ip m es
    → UpTo ip m (x ∷ es)
UpTo-cons x es ip m h b y (inl same) c = rw same (h (subst (Covers ip) same c))
UpTo-cons x es ip m h b y (inr i) c = b y i c

scan_dyn-some :
    (es : List FtableEntry) (ip min : ℕ) (r : Option FtableEntry) (e : FtableEntry)
    → scan_dyn es ip min r ≡ some e
    → ((r ≡ some e) × Below ip min es) ⊎ (LastBest ip es e × (min ≤ e.mask))
unfolding scan_dyn
scan_dyn-some [] ip min r e h = inl (h, λ x i. absurd i)
scan_dyn-some (x ∷ es) ip min r e h =
    elim (Bool-cases (bit_and x.mask ip == x.prefix && leb min x.mask)) [
      | inl passes ↦
          let (covers, low) = test-true x ip min passes in
          elim (scan_dyn-some es ip x.mask (some x) e (rw (passes, scan_dyn) at h)) [
            | inl (now, below) ↦
                let same : x ≡ e = ground (arith, now) in
                inr (
                  (
                    [],
                    es,
                    ap (λ y. y ∷ es) same,
                    subst (Covers ip) same covers,
                    (λ y i. absurd i),
                    rw (← same) below,
                  ),
                  rw (← same) low,
                )
            | inr ((front, back, split, c, upto, below), up) ↦ inr (
              (
                x ∷ front,
                back,
                ap (λ l. x ∷ l) split,
                c,
                UpTo-cons x front ip e.mask (λ _. up) upto,
                below,
              ),
              omega arith,
            )
          ]
      | inr fails ↦ elim (scan_dyn-some es ip min r e (rw (fails, scan_dyn) at h)) [
        | inl (now, below) ↦ inl (now, Below-cons x es ip min (test-false x ip min fails) below)
        | inr ((front, back, split, c, upto, below), up) ↦ inr (
          (
            x ∷ front,
            back,
            ap (λ l. x ∷ l) split,
            c,
            UpTo-cons x front ip e.mask (λ d. omega (arith, test-false x ip min fails d)) upto,
            below,
          ),
          up,
        )
      ]
    ]

scan_dyn-none :
    (es : List FtableEntry) (ip min : ℕ) (r : Option FtableEntry)
    → scan_dyn es ip min r ≡ none
    → (r ≡ none) × Below ip min es
unfolding scan_dyn
scan_dyn-none [] ip min r h = (h, λ x i. absurd i)
scan_dyn-none (x ∷ es) ip min r h =
    elim (Bool-cases (bit_and x.mask ip == x.prefix && leb min x.mask)) [
      | inl passes ↦
          let (now, _) = scan_dyn-none es ip x.mask (some x) (rw (passes, scan_dyn) at h) in
          absurd (ground (arith, now))
      | inr fails ↦
          let (now, below) = scan_dyn-none es ip min r (rw (fails, scan_dyn) at h) in
          (now, Below-cons x es ip min (test-false x ip min fails) below)
    ]

-- The dynamic lookup finds nothing exactly when no entry matches the address under its mask. What
-- it finds matches; the matching entries before it have masks that are no greater, as the words
-- that the code compares, and those behind it have smaller ones.
pub get_dyn_routing_if_lem :
    (table : List FtableEntry) (ip : ℕ)
    → ((get_dyn_routing_if table ip ≡ none) ↔ ((x : FtableEntry) → In x table → ¬ Covers ip x))
      × ((e : FtableEntry) → get_dyn_routing_if table ip ≡ some e → LastBest ip table e)
unfolding get_dyn_routing_if
get_dyn_routing_if_lem table ip = (
  (
    λ h x i c. absurd (omega (arith, (scan_dyn-none table ip 0 none h).1 x i c)),
    λ nothing. elim (Option-cases (scan_dyn table ip 0 none)) [
      | inl h ↦ h
      | inr (e, h) ↦ elim (scan_dyn-some table ip 0 none e h) [
        | inl (now, _) ↦ absurd (ground (arith, now))
        | inr ((front, back, split, c, _, _), _) ↦
            absurd (nothing e (subst (In e) (sym split) (In-middle front e back)) c)
      ]
    ],
  ),
  λ e h. elim (scan_dyn-some table ip 0 none e h) [
    | inl (now, _) ↦ absurd (ground (arith, now))
    | inr (best, _) ↦ best
  ],
)

once_missed : (ifs : List SrIf) (mac : List ℕ) → scan_macs ifs mac false ≡ none
unfolding scan_macs
once_missed [] mac = refl
once_missed (i ∷ ifs) mac = ground (arith, once_missed ifs mac)

-- get_if_from_mac finds the first interface of the list or none: whatever stands behind an interface
-- with another address is never found.
pub get_if_from_mac-first :
    (i : SrIf) (ifs : List SrIf) (mac : List ℕ)
    → get_if_from_mac (i ∷ ifs) mac ≡ (if same_mac i.addr mac then some i else none)
unfolding get_if_from_mac
get_if_from_mac-first i ifs mac = ground (arith, once_missed ifs mac)
