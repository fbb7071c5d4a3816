-- ===== src/Wire/Bytes.antt =====
-- Memory as bytes by address: what pointer casts, memmove and memcpy of the source read and write.
use pwospf.Base.{
  ℕ, zero, suc, ◌+◌, ◌*◌, ◌/◌, ◌%◌, ◌^◌, ◌<◌, ◌≤◌, ◌≡◌, refl, ap, ◌∙◌, ◌⊎◌, true, false, List, [],
  ◌∷◌, ◌++◌, length, ◌==◌, if◌then◌else◌, arith,
}

abbrev pub Bytes : Type 0
Bytes = ℕ → ℕ

-- The bytes of a 16-bit and of a 32-bit field in memory.
abbrev pub bytes16 : ℕ → List ℕ
bytes16 x = x % 256 ∷ x / 256 % 256 ∷ []

abbrev pub bytes32 : ℕ → List ℕ
bytes32 x = x % 256 ∷ x / 256 % 256 ∷ x / 2 ^ 16 % 256 ∷ x / 2 ^ 24 % 256 ∷ []

abbrev pub get16 : Bytes → ℕ → ℕ
get16 m p = m p + m (p + 1) * 256

abbrev pub get32 : Bytes → ℕ → ℕ
get32 m p = m p + m (p + 1) * 256 + m (p + 2) * 2 ^ 16 + m (p + 3) * 2 ^ 24

-- The bytes from an address on.
unfoldable pub load : Bytes → ℕ → ℕ → List ℕ
load m p zero = []
load m p (suc n) = m p ∷ load m (p + 1) n

-- The memory with a list of bytes written from an address on.
unfoldable pub store : Bytes → ℕ → List ℕ → Bytes
store m p [] = m
store m p (b ∷ bs) = λ q. if q == p then b else store m (p + 1) bs q

pub length-load : (m : Bytes) (p n : ℕ) → length (load m p n) ≡ n
unfolding load
length-load m p zero = refl
length-load m p (suc n) = ap suc (length-load m (p + 1) n)

-- An address is outside of n bytes from p on.
abbrev pub Apart : ℕ → ℕ → ℕ → Type 0
Apart q p n = (q < p) ⊎ (p + n ≤ q)

pub store-Apart :
    (m : Bytes) (p : ℕ) (bs : List ℕ) (q : ℕ) → Apart q p (length bs) → store m p bs q ≡ m q
unfolding store
store-Apart m p [] q a = refl
store-Apart m p (b ∷ bs) q a =
    let other : (q == p) ≡ false = ground (arith, a) in
    let apart : Apart q (p + 1) (length bs) = ground (arith, a) in
    rw other (store-Apart m (p + 1) bs q apart)

pub load-same :
    (m m' : Bytes) (p n : ℕ) → ((q : ℕ) → p ≤ q → q < p + n → m q ≡ m' q) → load m p n ≡ load m' p n
unfolding load
load-same m m' p zero same = refl
load-same m m' p (suc n) same = rw (same p (omega arith) (omega arith)) (
    ap (λ l. m' p ∷ l)
      (load-same m m' (p + 1) n (λ q a b. same q (omega (arith, a)) (omega (arith, b)))))

-- Bytes that are read do not see a write that is apart from them.
pub load-store_apart :
    (m : Bytes) (p : ℕ) (bs : List ℕ) (a n : ℕ)
    → (a + n ≤ p) ⊎ (p + length bs ≤ a)
    → load (store m p bs) a n ≡ load m a n
load-store_apart m p bs a n apart =
    load-same (store m p bs) m a n (λ q lo hi. store-Apart m p bs q (ground (arith, apart, lo, hi)))

pub load-store : (m : Bytes) (p : ℕ) (bs : List ℕ) → load (store m p bs) p (length bs) ≡ bs
unfolding load store
load-store m p [] = refl
load-store m p (b ∷ bs) =
    let here : (p == p) ≡ true = ground arith in
    let behind : load (store m p (b ∷ bs)) (p + 1) (length bs)
        ≡ load (store m (p + 1) bs) (p + 1) (length bs) =
      load-same (store m p (b ∷ bs)) (store m (p + 1) bs) (p + 1) (length bs)
        (λ q lo hi. let other : (q == p) ≡ false = ground (arith, lo) in rw other refl) in
    rw (here, behind) (ap (λ l. b ∷ l) (load-store m (p + 1) bs))

pub load-append : (m : Bytes) (p a b : ℕ) → load m p (a + b) ≡ load m p a ++ load m (p + a) b
unfolding load
load-append m p zero b =
    let here : 0 + b ≡ b = omega arith in
    let start : p ≡ p + 0 = omega arith in ap (load m p) here ∙ ap (λ q. load m q b) start
load-append m p (suc a) b =
    let first : suc a + b ≡ suc (a + b) = omega arith in
    let start : p + 1 + a ≡ p + suc a = omega arith in
    ap (load m p) first
    ∙ ap (λ l. m p ∷ l) (load-append m (p + 1) a b ∙ ap (λ q. load m (p + 1) a ++ load m q b) start)
