-- ===== src/Placement/Spread.antt =====
-- The hash of placement.rs loses nothing of a byte: it can be undone, and it keeps keys apart whose
-- bytes differ in one place.
use Prim.Native.Nat.{bit_xor}
use mathlib.Core.Path.{subst}
use sitas.Common.{
  ℕ, ◌*◌, ◌%◌, ◌<◌, ◌≡◌, ◌≢◌, refl, sym, ap, ◌∙◌, List, [], ◌∷◌, ◌++◌, All, arith, word,
  bit_xor_cancel, bit_xor_comm, bit_xor-lt_pow,
}
use sitas.Placement.{write, write_byte, offset_basis, hash_key}
use sitas.Placement.Range.{write-append, write-lt, write_byte-lt}

abbrev pub Bytes : List ℕ → Type 0
Bytes = All (λ x. x < 256)

-- The inverse of the prime of FNV-1a, modulo 2 ^ 64.
abbrev inverse_prime : ℕ
inverse_prime = 14886173955864302971

-- The state before some bytes were hashed, from the state after: the last byte is undone first, by
-- a multiplication with the inverse and then an exclusive or.
unfoldable pub undo : List ℕ → ℕ → ℕ
undo [] hash = hash
undo (byte ∷ bytes) hash = bit_xor (undo bytes hash * inverse_prime % word) byte

-- A multiplication with the prime and one with its inverse.
times_inverse : (x : ℕ) → x < word → x * 1099511628211 % word * inverse_prime % word ≡ x
times_inverse x p = omega arith

-- One byte is undone.
undo-write_byte :
    (hash byte : ℕ)
    → hash < word
    → byte < 256
    → bit_xor (write_byte hash byte * inverse_prime % word) byte ≡ hash
unfolding write_byte
undo-write_byte hash byte p q =
    ap (λ x. bit_xor x byte)
      (times_inverse (bit_xor hash byte) (bit_xor-lt_pow 64 hash byte p (omega arith)))
    ∙ bit_xor_cancel hash byte

undo-write : (xs : List ℕ) (hash : ℕ) → Bytes xs → hash < word → undo xs (write xs hash) ≡ hash
unfolding undo write
undo-write [] hash v p = refl
undo-write (x ∷ xs) hash v p =
    ap (λ s. bit_xor (s * inverse_prime % word) x)
      (undo-write xs (write_byte hash x) v.1 (write_byte-lt hash x))
    ∙ undo-write_byte hash x p v.0

-- The bytes that lead from one state to the same state are the same.
write_byte_tells :
    (h a b : ℕ) → h < word → a < 256 → b < 256 → write_byte h a ≡ write_byte h b → a ≡ b
write_byte_tells h a b p q r e =
    let s = write_byte h a * inverse_prime % word in
    let same : bit_xor a s ≡ bit_xor b s =
      bit_xor_comm a s
      ∙ undo-write_byte h a p q
      ∙ sym (undo-write_byte h b p r)
      ∙ ap (λ t. bit_xor (t * inverse_prime % word) b) (sym e)
      ∙ bit_xor_comm s b in
    sym (bit_xor_cancel a s) ∙ ap (λ x. bit_xor x s) same ∙ bit_xor_cancel b s

Bytes-suffix : (front back : List ℕ) → Bytes (front ++ back) → Bytes back
Bytes-suffix [] back v = v
Bytes-suffix (x ∷ front) back v = Bytes-suffix front back v.1

-- Two lists of bytes that differ in one place lead to different states.
write_tells :
    (front back : List ℕ) (a b h : ℕ)
    → h < word
    → Bytes (a ∷ back)
    → b < 256
    → write (front ++ a ∷ back) h ≡ write (front ++ b ∷ back) h
    → a ≡ b
unfolding write
write_tells front back a b h p v q e =
    let s = write front h in
    let same : write back (write_byte s a) ≡ write back (write_byte s b) =
      sym (write-append front (a ∷ back) h) ∙ e ∙ write-append front (b ∷ back) h in
    write_byte_tells s a b (write-lt front h p) v.0 q (
      sym (undo-write back (write_byte s a) v.1 (write_byte-lt s a))
      ∙ ap (undo back) same
      ∙ undo-write back (write_byte s b) v.1 (write_byte-lt s b))

module _ {κ} {K : Type κ} (bytes : K → List ℕ) where
  -- Take two keys that write the same bytes, each below 256, but for one, which is different, at any
  -- place. The hash of the first is a 64-bit word; undoing the bytes of its key leads from it back
  -- to the offset basis; and the hashes of the two keys are different.
  pub hash_key_undone :
      (j k : K) (front back : List ℕ) (a b : ℕ)
      → Bytes (bytes j)
      → Bytes (bytes k)
      → bytes j ≡ front ++ a ∷ back
      → bytes k ≡ front ++ b ∷ back
      → a ≢ b
      → (hash_key bytes j < word)
        × (undo (bytes j) (hash_key bytes j) ≡ offset_basis)
        × (hash_key bytes j ≢ hash_key bytes k)
  unfolding hash_key
  hash_key_undone j k front back a b vj vk p q n =
      let wj = Bytes-suffix front (a ∷ back) (subst Bytes p vj) in
      let wk = Bytes-suffix front (b ∷ back) (subst Bytes q vk) in
      (
        write-lt (bytes j) offset_basis (omega arith),
        undo-write (bytes j) offset_basis vj (omega arith),
        λ e. n (
            write_tells front back a b offset_basis (omega arith) wj wk.0
              (ap (λ l. write l offset_basis) (sym p) ∙ e ∙ ap (λ l. write l offset_basis) q)),
      )
