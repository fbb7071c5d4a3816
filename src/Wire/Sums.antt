-- ===== src/Wire/Sums.antt =====
-- The checksum field of a header in memory: the three statements by which the source fills one.
use pwospf.Base.{
  ℕ, zero, suc, ◌+◌, ◌*◌, ◌/◌, ◌%◌, ◌^◌, ◌<◌, ◌≤◌, ◌≡◌, refl, ap, ◌∙◌, inl, inr, List, [], ◌∷◌, ◌-◌,
  ◌++◌, length, none, some, Outcome, done, out_of_fuel, arith, Bool-cases, ltb, leb, ◌==◌,
}
use pwospf.Wire.{htons}
use pwospf.Wire.Bytes.{
  Bytes, Apart, bytes16, load, store, length-load, store-Apart, load-same, load-append,
}
use pwospf.Wire.Cksum.{
  length-middle, max_cksum_length, cksum, bytes_of, Words, cksum-verifies, cksum-total,
}

-- The `len` bytes at `p` are summed with 0 at the offset `field`, and the sum is stored there in
-- network order.
unfoldable pub write_cksum : Bytes → ℕ → ℕ → ℕ → Outcome Bytes
write_cksum m p len field =
    let cleared = store m (p + field) (0 ∷ 0 ∷ []) in
    elim (cksum (cleared (p + len)) (load cleared p len)) [
      | none ↦ out_of_fuel
      | some c ↦ done (store cleared (p + field) (bytes16 (htons c)))
    ]

-- The bytes in a range are bytes.
abbrev pub AreBytes : Bytes → ℕ → ℕ → Type 0
AreBytes m p n = (q : ℕ) → p ≤ q → q < p + n → m q < 256

-- The words of an even number of bytes.
abbrev words : Bytes → ℕ → ℕ → List ℕ
words m p zero = []
words m p (suc n) = (m p * 256 + m (p + 1)) ∷ words m (p + 2) n

length-words : (m : Bytes) (p n : ℕ) → length (words m p n) ≡ n
length-words m p zero = refl
length-words m p (suc n) = ap suc (length-words m (p + 2) n)

words-Words : (m : Bytes) (p n : ℕ) → AreBytes m p (2 * n) → Words (words m p n)
words-Words m p zero b = tt
words-Words m p (suc n) b =
    let low : m p < 256 = b p (omega arith) (omega arith) in
    let high : m (p + 1) < 256 = b (p + 1) (omega arith) (omega arith) in
    (
      omega (arith, low, high),
      words-Words m (p + 2) n (λ q lo hi. b q (omega (arith, lo)) (omega (arith, hi))),
    )

load-words :
    (m : Bytes) (p n : ℕ) → AreBytes m p (2 * n) → load m p (2 * n) ≡ bytes_of (words m p n)
unfolding load
load-words m p zero b = refl
load-words m p (suc n) b =
    let low : m p < 256 = b p (omega arith) (omega arith) in
    let high : m (p + 1) < 256 = b (p + 1) (omega arith) (omega arith) in
    let count : 2 * suc n ≡ suc (suc (2 * n)) = omega arith in
    let first : m p ≡ (m p * 256 + m (p + 1)) / 256 = omega (arith, low, high) in
    let second : m (p + 1) ≡ (m p * 256 + m (p + 1)) % 256 = omega (arith, low, high) in
    let start : p + 1 + 1 ≡ p + 2 = omega arith in
    ap (load m p) count
    ∙ ap (λ x. x ∷ m (p + 1) ∷ load m (p + 1 + 1) (2 * n)) first
    ∙ ap (λ x. (m p * 256 + m (p + 1)) / 256 ∷ x ∷ load m (p + 1 + 1) (2 * n)) second
    ∙ ap (λ q. (m p * 256 + m (p + 1)) / 256 ∷ (m p * 256 + m (p + 1)) % 256 ∷ load m q (2 * n))
        start
    ∙ ap (λ l. (m p * 256 + m (p + 1)) / 256 ∷ (m p * 256 + m (p + 1)) % 256 ∷ l)
        (load-words m (p + 2) n (λ q lo hi. b q (omega (arith, lo)) (omega (arith, hi))))

-- A memory that differs from `m` in one word, as the bytes of words.
split :
    (m m' : Bytes) (p a b x y : ℕ)
    → AreBytes m p (2 * a + (2 + 2 * b))
    → ((q : ℕ) → Apart q (p + 2 * a) 2 → m' q ≡ m q)
    → m' (p + 2 * a) ≡ x
    → m' (p + 2 * a + 1) ≡ y
    → load m' p (2 * a + (2 + 2 * b))
      ≡ bytes_of (words m p a) ++ x ∷ y ∷ bytes_of (words m (p + 2 * a + 2) b)
unfolding load
split m m' p a b x y bytes same first second =
    let left : load m' p (2 * a) ≡ bytes_of (words m p a) =
      load-same m' m p (2 * a) (λ q lo hi. same q (inl hi))
      ∙ load-words m p a (λ q lo hi. bytes q lo (omega (arith, hi))) in
    let right : load m' (p + 2 * a + 2) (2 * b) ≡ bytes_of (words m (p + 2 * a + 2) b) =
      load-same m' m (p + 2 * a + 2) (2 * b) (λ q lo hi. same q (inr lo))
      ∙ load-words m (p + 2 * a + 2) b
          (λ q lo hi. bytes q (omega (arith, lo)) (omega (arith, hi))) in
    let middle : load m' (p + 2 * a) 2 ≡ x ∷ y ∷ [] =
      ap (λ u. u ∷ m' (p + 2 * a + 1) ∷ []) first ∙ ap (λ u. x ∷ u ∷ []) second in
    load-append m' p (2 * a) (2 + 2 * b)
    ∙ ap (λ l. l ++ load m' (p + 2 * a) (2 + 2 * b)) left
    ∙ ap (λ l. bytes_of (words m p a) ++ l)
        (load-append m' (p + 2 * a) 2 (2 * b)
          ∙ ap (λ l. l ++ load m' (p + 2 * a + 2) (2 * b)) middle
          ∙ ap (λ l. x ∷ y ∷ l) right)

store-first : (m : Bytes) (p x y : ℕ) → store m p (x ∷ y ∷ []) p ≡ x
unfolding store
store-first m p x y = ground arith

store-second : (m : Bytes) (p x y : ℕ) → store m p (x ∷ y ∷ []) (p + 1) ≡ y
unfolding store
store-second m p x y = ground arith

-- What the filled field holds.
write_cksum-of :
    (m : Bytes) (p len field c : ℕ)
    → cksum
        (store m (p + field) (0 ∷ 0 ∷ []) (p + len))
        (load (store m (p + field) (0 ∷ 0 ∷ [])) p len)
      ≡ some c
    → write_cksum m p len field
      ≡ done (store (store m (p + field) (0 ∷ 0 ∷ [])) (p + field) (bytes16 (htons c)))
unfolding write_cksum
write_cksum-of m p len field c e = rw (e, write_cksum) refl

-- Filling the field ends, where at most 65534 bytes are summed, and changes no byte outside of it.
pub write_cksum-total :
    (m : Bytes) (p len field : ℕ)
    → len ≤ max_cksum_length
    → (m' : Bytes) × (write_cksum m p len field ≡ done m')
      × ((q : ℕ) → Apart q (p + field) 2 → m' q ≡ m q)
write_cksum-total m p len field short =
    let cleared = store m (p + field) (0 ∷ 0 ∷ []) in
    let (c, e, _) =
      cksum-total (cleared (p + len)) (load cleared p len)
        (omega (arith, short, length-load cleared p len)) in
    (
      store cleared (p + field) (bytes16 (htons c)),
      write_cksum-of m p len field c e,
      λ q apart.
          store-Apart cleared (p + field) (bytes16 (htons c)) q apart
          ∙ store-Apart m (p + field) (0 ∷ 0 ∷ []) q apart,
    )

-- A header of an even number of bytes, with the field at an even offset: once it is filled, the
-- checksum of the header is 0, its bytes are bytes, and no byte outside of the field has changed.
pub write_cksum-verifies :
    (m : Bytes) (p a b : ℕ)
    → AreBytes m p (2 * a + (2 + 2 * b))
    → a + b < 2 ^ 15 - 1
    → (m' : Bytes) × (write_cksum m p (2 * a + (2 + 2 * b)) (2 * a) ≡ done m')
      × (cksum (m' (p + (2 * a + (2 + 2 * b)))) (load m' p (2 * a + (2 + 2 * b))) ≡ some 0)
      × AreBytes m' p (2 * a + (2 + 2 * b))
      × ((q : ℕ) → Apart q (p + 2 * a) 2 → m' q ≡ m q)
unfolding htons
write_cksum-verifies m p a b bytes short =
    let len = 2 * a + (2 + 2 * b) in
    let field = p + 2 * a in
    let us = words m p a in
    let vs = words m (p + 2 * a + 2) b in
    let z : Bytes = store m field (0 ∷ 0 ∷ []) in
    let z_same : (q : ℕ) → Apart q field 2 → z q ≡ m q = store-Apart m field (0 ∷ 0 ∷ []) in
    let z_load =
      split m z p a b 0 0 bytes z_same (store-first m field 0 0) (store-second m field 0 0) in
    let us_words = words-Words m p a (λ q lo hi. bytes q lo (omega (arith, hi))) in
    let vs_words =
      words-Words m (p + 2 * a + 2) b
        (λ q lo hi. bytes q (omega (arith, lo)) (omega (arith, hi))) in
    let count : length us + length vs < 2 ^ 15 - 1 =
      omega (arith, length-words m p a, length-words m (p + 2 * a + 2) b, short) in
    let (c, e, verified) = cksum-verifies (z (p + len)) us vs us_words vs_words count in
    let (c2, e2, small) =
      cksum-total (z (p + len)) (bytes_of us ++ 0 ∷ 0 ∷ bytes_of vs)
        (omega (arith, count, length-middle us vs 0 0)) in
    let same_c : c ≡ c2 = ground (arith, e, e2) in
    let word : c < 2 ^ 16 = omega (arith, same_c, small) in
    let m' : Bytes = store z field (bytes16 (htons c)) in
    let kept : (q : ℕ) → Apart q field 2 → m' q ≡ m q =
      λ q apart. store-Apart z field (bytes16 (htons c)) q apart ∙ z_same q apart in
    let first : m' field ≡ c / 256 =
      store-first z field (htons c % 256) (htons c / 256 % 256) ∙ omega (arith, word) in
    let second : m' (field + 1) ≡ c % 256 =
      store-second z field (htons c % 256) (htons c / 256 % 256) ∙ omega (arith, word) in
    let beyond : m' (p + len) ≡ z (p + len) =
      store-Apart z field (bytes16 (htons c)) (p + len) (inr (omega arith)) in
    (
      m',
      write_cksum-of m p len (2 * a) c (ap (cksum (z (p + len))) z_load ∙ e),
      ap (λ u. cksum u (load m' p len)) beyond
          ∙ ap (cksum (z (p + len))) (split m m' p a b (c / 256) (c % 256) bytes kept first second)
          ∙ verified,
      λ q lo hi. elim (Bool-cases (ltb q field)) [
        | inl below ↦ rw (kept q (ground (arith, below))) (bytes q lo hi)
        | inr above ↦ elim (Bool-cases (leb (field + 2) q)) [
          | inl behind ↦ rw (kept q (ground (arith, behind))) (bytes q lo hi)
          | inr inside ↦ elim (Bool-cases (q == field)) [
            | inl at ↦
                let here : q ≡ field = ground (arith, at) in rw (here, first) (omega (arith, word))
            | inr next ↦
                let there : q ≡ field + 1 = ground (arith, above, inside, next) in
                rw (there, second) (omega arith)
          ]
        ]
      ],
      kept,
    )
