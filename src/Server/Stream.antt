-- ===== src/Server/Stream.antt =====
-- The two loops of sr_read_from_server_expect that read a number of bytes from the socket.
use pwospf.Base.{
  ℕ, zero, suc, ◌-◌, ◌≡◌, refl, sym, ap, ◌∙◌, List, [], ◌∷◌, ◌++◌, append_assoc, append-nil, length,
  length-append, arith, Outcome, done, aborted, out_of_fuel,
}

-- What a call of recv or read gives: bytes, -1 with EINTR, or -1 with another error. No bytes stand
-- for the result 0.
pub data Recv : Type 0 where
  got : List ℕ → Recv
  interrupted failed : Recv

-- The bytes read so far, how many are left to read, and what the calls to come give. An error is
-- the result -1, here `aborted`; with no call left the loop still waits, here `out_of_fuel`.
unfoldable pub read_bytes : List ℕ → ℕ → List Recv → Outcome (List ℕ × List Recv)
read_bytes buf zero calls = done (buf, calls)
read_bytes buf (suc n) [] = out_of_fuel
read_bytes buf (suc n) (got bs ∷ calls) = read_bytes (buf ++ bs) (suc n - length bs) calls
read_bytes buf (suc n) (interrupted ∷ calls) = read_bytes buf (suc n) calls
read_bytes buf (suc n) (failed ∷ calls) = aborted

-- The bytes that calls without an error deliver, in order, when each is given with the calls in
-- which it is cut and interrupted.
abbrev pub delivered : List Recv → List ℕ
delivered [] = []
delivered (got bs ∷ calls) = bs ++ delivered calls
delivered (_ ∷ calls) = delivered calls

abbrev pub Healthy : List Recv → Type 0
Healthy [] = Unit
Healthy (got bs ∷ calls) = Healthy calls
Healthy (interrupted ∷ calls) = Healthy calls
Healthy (failed ∷ calls) = ⊥

-- However the stream is cut into calls, with results of no bytes and interruptions among them: if the
-- calls give exactly as many bytes as are wanted, with no error, the loop ends with these bytes
-- behind those that it had, and what it leaves gives no byte.
pub read_bytes-all :
    (buf : List ℕ) (n : ℕ) (calls : List Recv)
    → Healthy calls
    → length (delivered calls) ≡ n
    → (rest : List Recv) × (read_bytes buf n calls ≡ done (buf ++ delivered calls, rest))
      × (delivered rest ≡ [])
unfolding read_bytes
read_bytes-all buf zero calls h e = (
  calls,
  ap (λ l. done (l, calls))
      (sym (append-nil buf) ∙ ap (λ l. buf ++ l) (sym (empty (delivered calls) e))),
  empty (delivered calls) e,
)
  where
    empty : (l : List ℕ) → length l ≡ 0 → l ≡ []
    empty [] z = refl
    empty (x ∷ l) z = absurd (omega (arith, z))
read_bytes-all buf (suc n) [] h e = absurd (omega (arith, e))
read_bytes-all buf (suc n) (interrupted ∷ calls) h e = read_bytes-all buf (suc n) calls h e
read_bytes-all buf (suc n) (failed ∷ calls) h e = absurd h
read_bytes-all buf (suc n) (got bs ∷ calls) h e =
    let left : length (delivered calls) ≡ suc n - length bs =
      omega (arith, e, length-append bs (delivered calls)) in
    let (rest, ran, last) = read_bytes-all (buf ++ bs) (suc n - length bs) calls h left in
    (rest, ran ∙ ap (λ l. done (l, rest)) (append_assoc buf bs (delivered calls)), last)
