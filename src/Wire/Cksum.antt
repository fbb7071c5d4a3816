-- ===== src/Wire/Cksum.antt =====
-- cksum of sr_router.c.
pub mod Odd
use pwospf.Base.{
  ℕ, zero, suc, ◌+◌, ◌-◌, ◌*◌, ◌/◌, ◌%◌, ◌^◌, ◌<◌, ◌≤◌, ◌≡◌, ◌↔◌, ap, ◌∙◌, inl, inr, Bool-cases,
  ◌++◌, List, [], ◌∷◌, true, ltb, ◌==◌, if◌then◌else◌, Option, none, some, length, length-append,
  false, arith, refl,
}

-- The first loop, over the bytes of the buffer: two bytes make a word, in network order, and the
-- sum is of 32 bits. A last odd byte is read with the byte behind the buffer, here `beyond`.
pub sum_words : ℕ → ℕ → List ℕ → ℕ
sum_words beyond sum [] = sum
sum_words beyond sum (a ∷ []) = (sum + (a * 256 + beyond)) % 2 ^ 32
sum_words beyond sum (a ∷ b ∷ rest) = sum_words beyond ((sum + (a * 256 + b)) % 2 ^ 32) rest

-- The second loop, `while(sum >> 16)`. `none`: the fuel ran out.
pub fold_carry : ℕ → ℕ → Option ℕ
fold_carry zero sum = if ltb sum (2 ^ 16) then some sum else none
fold_carry (suc fuel) sum =
    let rest = fold_carry fuel (sum % 2 ^ 16 + sum / 2 ^ 16) in
    if ltb sum (2 ^ 16) then some sum else rest

-- The counter of the first loop has 16 bits and goes in steps of two: for a buffer of 65535 bytes or
-- more it gets back to 0 before it has reached the length, so that the loop never ends, here `none`.
abbrev pub max_cksum_length : ℕ
max_cksum_length = 65534

-- `~sum`, cut to 16 bits. Two rounds of the second loop are enough.
pub cksum : ℕ → List ℕ → Option ℕ
unfolding sum_words fold_carry
cksum beyond buff =
    if ltb max_cksum_length (length buff)
    then none
    else (elim (fold_carry 2 (sum_words beyond 0 buff)) [
      | none ↦ none
      | some sum ↦ some (2 ^ 16 - 1 - sum)
    ])

abbrev once : ℕ → ℕ
once sum = sum % 2 ^ 16 + sum / 2 ^ 16

-- One round keeps the sum modulo 2^16 - 1, and keeps it from becoming 0.
once-mod : (sum : ℕ) → once sum % (2 ^ 16 - 1) ≡ sum % (2 ^ 16 - 1)
once-mod sum = omega arith

once-zero : (sum : ℕ) → (once sum ≡ 0) ↔ (sum ≡ 0)
once-zero sum = (λ h. omega (arith, h), λ h. omega (arith, h))

-- Two rounds end the loop on any 32-bit sum.
fold_carry-ends :
    (sum : ℕ)
    → sum < 2 ^ 32
    → (s : ℕ) × (fold_carry 2 sum ≡ some s)
      × (s < 2 ^ 16)
      × (s % (2 ^ 16 - 1) ≡ sum % (2 ^ 16 - 1))
      × ((s ≡ 0) ↔ (sum ≡ 0))
unfolding fold_carry
fold_carry-ends sum h = elim (Bool-cases (ltb sum (2 ^ 16))) [
  | inl small ↦ (sum, ground arith, ground arith, refl, (λ z. z, λ z. z))
  | inr big ↦ elim (Bool-cases (ltb (once sum) (2 ^ 16))) [
    | inl small ↦ (once sum, rw (big, small) refl, ground arith, once-mod sum, once-zero sum)
    | inr big2 ↦
        let less : once (once sum) < 2 ^ 16 = ground arith in
        let small : ltb (once (once sum)) (2 ^ 16) ≡ true = ground (arith, less) in
        (
          once (once sum),
          rw (big, big2, small) refl,
          less,
          once-mod (once sum) ∙ once-mod sum,
          (
            λ z. (once-zero sum).0 ((once-zero (once sum)).0 z),
            λ z. (once-zero (once sum)).1 ((once-zero sum).1 z),
          ),
        )
  ]
]

-- The words of a buffer in network order, and their sum.
abbrev pub bytes_of : List ℕ → List ℕ
bytes_of [] = []
bytes_of (w ∷ ws) = w / 256 ∷ w % 256 ∷ bytes_of ws

abbrev total : List ℕ → ℕ
total [] = 0
total (w ∷ ws) = w + total ws

abbrev pub Words : List ℕ → Type 0
Words [] = Unit {0}
Words (w ∷ ws) = (w < 2 ^ 16) × Words ws

total-less : (ws : List ℕ) → Words ws → total ws ≤ (2 ^ 16 - 1) * length ws
total-less [] h = omega arith
total-less (w ∷ ws) h = omega (arith, h.0, total-less ws h.1)

sum_words-total :
    (beyond sum : ℕ) (us : List ℕ) (rest : List ℕ)
    → sum + total us < 2 ^ 32
    → sum_words beyond sum (bytes_of us ++ rest) ≡ sum_words beyond (sum + total us) rest
unfolding sum_words
sum_words-total beyond sum [] rest h = ap (λ n. sum_words beyond n rest) (omega arith)
sum_words-total beyond sum (w ∷ us) rest h =
    let word : (sum + (w / 256 * 256 + w % 256)) % 2 ^ 32 ≡ sum + w = omega (arith, h) in
    ap (λ n. sum_words beyond n (bytes_of us ++ rest)) word
    ∙ sum_words-total beyond (sum + w) us rest (omega (arith, h))
    ∙ ap (λ n. sum_words beyond n rest) (omega arith)

sum_words-all :
    (beyond sum : ℕ) (us : List ℕ)
    → sum + total us < 2 ^ 32
    → sum_words beyond sum (bytes_of us) ≡ sum + total us
unfolding sum_words
sum_words-all beyond sum [] h = omega arith
sum_words-all beyond sum (w ∷ us) h =
    let word : (sum + (w / 256 * 256 + w % 256)) % 2 ^ 32 ≡ sum + w = omega (arith, h) in
    ap (λ n. sum_words beyond n (bytes_of us)) word
    ∙ sum_words-all beyond (sum + w) us (omega (arith, h))
    ∙ omega arith

sum_words-middle :
    (beyond : ℕ) (us : List ℕ) (w : ℕ) (vs : List ℕ)
    → total us + w + total vs < 2 ^ 32
    → sum_words beyond 0 (bytes_of us ++ w / 256 ∷ w % 256 ∷ bytes_of vs) ≡ total us + w + total vs
sum_words-middle beyond us w vs h =
    sum_words-total beyond 0 us (bytes_of (w ∷ vs)) (omega (arith, h))
    ∙ sum_words-all beyond (0 + total us) (w ∷ vs) (omega (arith, h))
    ∙ omega arith

cksum-of :
    (beyond : ℕ) (buff : List ℕ) (s : ℕ)
    → length buff ≤ max_cksum_length
    → fold_carry 2 (sum_words beyond 0 buff) ≡ some s
    → cksum beyond buff ≡ some (2 ^ 16 - 1 - s)
unfolding cksum
cksum-of beyond buff s short h =
    let ends : ltb max_cksum_length (length buff) ≡ false = ground (arith, short) in
    rw (ends, h, cksum) refl

sum_words-less :
    (beyond sum : ℕ) (buff : List ℕ) → sum < 2 ^ 32 → sum_words beyond sum buff < 2 ^ 32
unfolding sum_words
sum_words-less beyond sum [] h = h
sum_words-less beyond sum (a ∷ []) h = omega arith
sum_words-less beyond sum (a ∷ b ∷ rest) h =
    sum_words-less beyond ((sum + (a * 256 + b)) % 2 ^ 32) rest (omega arith)

-- cksum returns on every buffer of at most 65534 bytes, whatever byte stands behind it, with a 16-bit
-- value: two rounds of its second loop end it.
pub cksum-total :
    (beyond : ℕ) (buff : List ℕ)
    → length buff ≤ max_cksum_length
    → (c : ℕ) × (cksum beyond buff ≡ some c) × (c < 2 ^ 16)
cksum-total beyond buff short =
    let (s, e, l, _, _) =
      fold_carry-ends (sum_words beyond 0 buff) (sum_words-less beyond 0 buff (omega arith)) in
    (2 ^ 16 - 1 - s, cksum-of beyond buff s short e, omega (arith, l))

pub length-bytes_of : (ws : List ℕ) → length (bytes_of ws) ≡ 2 * length ws
length-bytes_of [] = refl
length-bytes_of (w ∷ ws) = omega (arith, length-bytes_of ws)

pub length-middle :
    (us vs : List ℕ) (x y : ℕ)
    → length (bytes_of us ++ x ∷ y ∷ bytes_of vs) ≡ 2 * length us + (2 + 2 * length vs)
length-middle us vs x y =
    length-append (bytes_of us) (x ∷ y ∷ bytes_of vs)
    ∙ omega (arith, length-bytes_of us, length-bytes_of vs)

-- What is folded from a sum and its complement is the greatest word.
complement :
    (sum s s' : ℕ)
    → s < 2 ^ 16
    → s % (2 ^ 16 - 1) ≡ sum % (2 ^ 16 - 1)
    → ((s ≡ 0) ↔ (sum ≡ 0))
    → s' < 2 ^ 16
    → s' % (2 ^ 16 - 1) ≡ (sum + (2 ^ 16 - 1 - s)) % (2 ^ 16 - 1)
    → (s' ≡ 0 → sum + (2 ^ 16 - 1 - s) ≡ 0)
    → s' ≡ 2 ^ 16 - 1
complement sum s s' l m z l' m' z' =
    let zero_mod : s' % (2 ^ 16 - 1) ≡ 0 = omega (arith, l, m, m') in
    elim (Bool-cases (s' == 0)) [
      | inl is_zero ↦
          let all : sum + (2 ^ 16 - 1 - s) ≡ 0 = z' (ground arith) in
          let none_left : sum ≡ 0 = omega (arith, all) in
          absurd (omega (arith, all, l, z.1 none_left))
      | inr positive ↦ let nonzero : 0 < s' = ground arith in omega (arith, l', zero_mod, nonzero)
    ]

-- In a buffer of at most 32767 words that are 16 bits each, let one word be 0. Then cksum returns a
-- word, and with it in place of the 0, in network order, cksum returns 0.
pub cksum-verifies :
    (beyond : ℕ) (us vs : List ℕ)
    → Words us
    → Words vs
    → length us + length vs < 2 ^ 15 - 1
    → (c : ℕ) × (cksum beyond (bytes_of us ++ 0 ∷ 0 ∷ bytes_of vs) ≡ some c)
      × (cksum beyond (bytes_of us ++ c / 256 ∷ c % 256 ∷ bytes_of vs) ≡ some 0)
cksum-verifies beyond us vs hu hv short =
    let less : total us + total vs ≤ (2 ^ 16 - 1) * (2 ^ 16 - 2) =
      omega (arith, total-less us hu, total-less vs hv, short) in
    let sum = total us + total vs in
    let (s, e, l, m, z) = fold_carry-ends (total us + 0 + total vs) (omega (arith, less)) in
    let c = 2 ^ 16 - 1 - s in
    let (s', e', l', m', z') = fold_carry-ends (total us + c + total vs) (omega (arith, less)) in
    let full : s' ≡ 2 ^ 16 - 1 =
      complement (total us + 0 + total vs) s s' l m z l'
        (m' ∙ ap (λ n. n % (2 ^ 16 - 1)) (omega arith)) (λ h. omega (arith, z'.0 h)) in
    (
      c,
      cksum-of beyond (bytes_of us ++ 0 ∷ 0 ∷ bytes_of vs) s
          (omega (arith, short, length-middle us vs 0 0))
          (ap (fold_carry 2) (sum_words-middle beyond us 0 vs (omega (arith, less))) ∙ e),
      cksum-of beyond (bytes_of us ++ c / 256 ∷ c % 256 ∷ bytes_of vs) s'
            (omega (arith, short, length-middle us vs (c / 256) (c % 256)))
            (ap (fold_carry 2) (sum_words-middle beyond us c vs (omega (arith, less))) ∙ e')
          ∙ ap (λ n. some (2 ^ 16 - 1 - n)) full,
    )
