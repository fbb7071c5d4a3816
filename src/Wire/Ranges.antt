-- ===== src/Wire/Ranges.antt =====
-- Ranges of memory that hold bytes, and reads behind several writes.
use pwospf.Base.{
  ℕ, zero, suc, ◌+◌, ◌<◌, ◌≤◌, ◌≡◌, sym, ap, ◌∙◌, inl, inr, Bool-cases, List, [], ◌∷◌, ◌++◌, length,
  All, ltb, leb, ◌==◌, ◌&&◌, arith,
}
use pwospf.Wire.Bytes.{Bytes, Apart, load, store, store-Apart, load-same, load-store, load-append}
use pwospf.Wire.Sums.{AreBytes}

abbrev pub Byte : ℕ → Type 0
Byte b = b < 256

pub load-Byte : (m : Bytes) (p n : ℕ) → AreBytes m p n → All Byte (load m p n)
unfolding load
load-Byte m p zero bytes = tt
load-Byte m p (suc n) bytes = (
  bytes p (omega arith) (omega arith),
  load-Byte m (p + 1) n (λ q lo hi. bytes q (omega (arith, lo)) (omega (arith, hi))),
)

-- An address under the write gets one of its bytes.
pub store-Byte :
    (m : Bytes) (p : ℕ) (bs : List ℕ) (q : ℕ)
    → All Byte bs
    → p ≤ q
    → q < p + length bs
    → store m p bs q < 256
unfolding store
store-Byte m p [] q bytes lo hi = absurd (omega (arith, lo, hi))
store-Byte m p (b ∷ bs) q bytes lo hi = elim (Bool-cases (q == p)) [
  | inl at ↦ rw at bytes.0
  | inr behind ↦
      let past : p + 1 ≤ q = ground (arith, lo, behind) in
      rw behind (store-Byte m (p + 1) bs q bytes.1 past (omega (arith, hi)))
]

-- A write of bytes leaves bytes bytes.
pub store-AreBytes :
    (m : Bytes) (p : ℕ) (bs : List ℕ) (a n : ℕ)
    → All Byte bs
    → ((q : ℕ) → a ≤ q → q < a + n → Apart q p (length bs) → m q < 256)
    → AreBytes (store m p bs) a n
store-AreBytes m p bs a n bytes rest q lo hi =
    elim (Bool-cases (leb p q && ltb q (p + length bs))) [
      | inl under ↦ store-Byte m p bs q bytes (ground (arith, under)) (ground (arith, under))
      | inr off ↦
          let apart : Apart q p (length bs) = ground (arith, off) in
          rw (store-Apart m p bs q apart) (rest q lo hi apart)
    ]

-- The bytes of a write, where a later state agrees with the memory that it left.
pub load-stored :
    (m m' : Bytes) (p n : ℕ) (bs : List ℕ)
    → n ≡ length bs
    → ((q : ℕ) → p ≤ q → q < p + n → m' q ≡ store m p bs q)
    → load m' p n ≡ bs
load-stored m m' p n bs size same =
    load-same m' (store m p bs) p n same ∙ ap (load (store m p bs) p) size ∙ load-store m p bs

-- Two reads in a row are one.
pub load-join :
    (m m' : Bytes) (p p' a b : ℕ)
    → load m p a ≡ load m' p' a
    → load m (p + a) b ≡ load m' (p' + a) b
    → load m p (a + b) ≡ load m' p' (a + b)
load-join m m' p p' a b first second =
    load-append m p a b
    ∙ ap (λ l. l ++ load m (p + a) b) first
    ∙ ap (λ l. load m' p' a ++ l) second
    ∙ sym (load-append m' p' a b)
