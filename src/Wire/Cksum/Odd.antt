-- ===== src/Wire/Cksum/Odd.antt =====
-- cksum on buffers of an odd length.
use pwospf.Base.{
  ◌∙◌, if◌then◌else◌, ltb, length, length-append, arith, ℕ, ◌+◌, ◌*◌, ◌/◌, ◌%◌, ◌^◌, ◌≡◌, refl, ap,
  List, [], ◌∷◌, ◌++◌, ◌-◌, none, some,
}
use pwospf.Wire.Cksum.{length-bytes_of, max_cksum_length, cksum, sum_words, fold_carry, bytes_of}

sum_words-odd :
    (beyond other sum : ℕ) (ws : List ℕ) (a : ℕ)
    → sum_words beyond sum (bytes_of ws ++ a ∷ [])
      ≡ sum_words other sum (bytes_of ws ++ a ∷ beyond ∷ [])
unfolding sum_words
sum_words-odd beyond other sum [] a = refl
sum_words-odd beyond other sum (w ∷ ws) a =
    sum_words-odd beyond other ((sum + (w / 256 * 256 + w % 256)) % 2 ^ 32) ws a

-- Of a buffer with a last byte behind its words, cksum takes the byte behind the buffer too: the
-- result is that of the buffer with this byte at its end.
pub cksum-odd :
    (beyond other : ℕ) (ws : List ℕ) (a : ℕ)
    → cksum beyond (bytes_of ws ++ a ∷ []) ≡ cksum other (bytes_of ws ++ a ∷ beyond ∷ [])
unfolding cksum
cksum-odd beyond other ws a =
    let n = length-bytes_of ws in
    let same : ltb max_cksum_length (length (bytes_of ws ++ a ∷ []))
        ≡ ltb max_cksum_length (length (bytes_of ws ++ a ∷ beyond ∷ [])) =
      ground (
        arith,
        n,
        length-append (bytes_of ws) (a ∷ []),
        length-append (bytes_of ws) (a ∷ beyond ∷ []),
      ) in
    ap
      (λ s.
        if ltb max_cksum_length (length (bytes_of ws ++ a ∷ []))
        then none
        else (elim (fold_carry 2 s) [ none ↦ none | some sum ↦ some (2 ^ 16 - 1 - sum) ]))
      (sum_words-odd beyond other 0 ws a)
    ∙ ap
        (λ b.
          if b
          then none
          else (elim (fold_carry 2 (sum_words other 0 (bytes_of ws ++ a ∷ beyond ∷ []))) [
            | none ↦ none
            | some sum ↦ some (2 ^ 16 - 1 - sum)
          ]))
        same
