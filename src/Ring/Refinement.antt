-- ===== src/Ring/Refinement.antt =====
-- Histories of calls on a ring of ringbuf.rs, against a first-in first-out queue of at most
-- `limit` items.
use sitas.Common.{
  ℕ, suc, ◌∙◌, ◌≡◌, inl, inr, refl, ap, Option, none, some, List, [], ◌∷◌, ◌++◌, Result, ok, err,
  arith, length, ltb, ltb_of_lt, ltb_of_le, if◌then◌else◌,
}
use sitas.Ring.{Ring, Fault, try_push, pop}
use sitas.Ring.Queue.{Represents, try_push_lem, pop_lem}

pub data Op {ℓ} (T : Type ℓ) : Type ℓ where
  pushing : T → Op T
  popping : Op T

pub data Reply {ℓ} (T : Type ℓ) : Type ℓ where
  pushed : Result (Unit {0}) T → Reply T
  popped : Option T → Reply T

module _ {ℓ} {T : Type ℓ} where
  -- The specification: a plain list, oldest first.
  pub serve : ℕ → Op T → List T → Reply T × List T
  serve limit (pushing x) xs =
      if ltb (length xs) limit then (pushed (ok tt), xs ++ x ∷ []) else (pushed (err x), xs)
  serve limit popping [] = (popped none, [])
  serve limit popping (x ∷ xs) = (popped (some x), xs)

  pub serve_all : ℕ → List (Op T) → List T → List (Reply T) × List T
  serve_all limit [] xs = ([], xs)
  serve_all limit (o ∷ os) xs =
      let (a, xs') = serve limit o xs in
      let (replies, ys) = serve_all limit os xs' in (a ∷ replies, ys)

  abbrev reply_pushed :
      Result (Result (Unit {0}) T × Ring T) Fault → Result (Reply T × Ring T) Fault
  reply_pushed (ok (a, r)) = ok (pushed a, r)
  reply_pushed (err f) = err f

  abbrev reply_popped : Result (Option T × Ring T) Fault → Result (Reply T × Ring T) Fault
  reply_popped (ok (a, r)) = ok (popped a, r)
  reply_popped (err f) = err f

  unfoldable pub call : Op T → Ring T → Result (Reply T × Ring T) Fault
  call (pushing x) r = reply_pushed (try_push x r)
  call popping r = reply_popped (pop r)

  abbrev prepend :
      Reply T → Result (List (Reply T) × Ring T) Fault → Result (List (Reply T) × Ring T) Fault
  prepend a (ok (replies, r)) = ok (a ∷ replies, r)
  prepend a (err f) = err f

  unfoldable pub call_all : List (Op T) → Ring T → Result (List (Reply T) × Ring T) Fault
  call_all [] r = ok ([], r)
  call_all (o ∷ os) r = elim (call o r) [ ok (a, r') ↦ prepend a (call_all os r') | err f ↦ err f ]

  -- The ring answers as the queue does, and represents what the queue holds.
  call_refines :
      (limit : ℕ) (o : Op T) (r : Ring T) (xs : List T)
      → r.capacity ≡ suc limit
      → Represents r xs
      → (r' : Ring T) × (call o r ≡ ok ((serve limit o xs).0, r'))
        × Represents r' (serve limit o xs).1
        × (r'.capacity ≡ suc limit)
  unfolding call serve
  call_refines limit (pushing x) r xs h p = elim (try_push_lem x r xs p) [
    | inl (fits, done) ↦
        rw (ltb_of_lt (length xs) limit (omega arith))
          (done.0, ap reply_pushed done.1, done.2, done.3 ∙ h)
    | inr (full, e) ↦ rw (ltb_of_le (length xs) limit (omega arith)) (r, ap reply_pushed e, p, h)
  ]
  call_refines limit popping r [] h p = (r, ap reply_popped (pop_lem r [] p), p, h)
  call_refines limit popping r (x ∷ xs) h p =
      let (r', e, q, c) = pop_lem r (x ∷ xs) p in (r', ap reply_popped e, q, c ∙ h)

  abbrev continue :
      List (Op T) → Result (Reply T × Ring T) Fault → Result (List (Reply T) × Ring T) Fault
  continue os (ok (a, r)) = prepend a (call_all os r)
  continue os (err f) = err f

  call_all-cons :
      (o : Op T) (os : List (Op T)) (r : Ring T) → call_all (o ∷ os) r ≡ continue os (call o r)
  unfolding call_all
  call_all-cons o os r = ground arith

  -- Take any history of calls on a valid ring of capacity `limit + 1` that represents a queue of
  -- items. No call faults; the replies are those of the first-in first-out queue that holds at
  -- most `limit` items; and the ring represents at the end what that queue holds.
  pub call_all_refines :
      (limit : ℕ) (os : List (Op T)) (r : Ring T) (xs : List T)
      → r.capacity ≡ suc limit
      → Represents r xs
      → (r' : Ring T) × (call_all os r ≡ ok ((serve_all limit os xs).0, r'))
        × Represents r' (serve_all limit os xs).1
  unfolding call_all serve_all
  call_all_refines limit [] r xs h p = (r, refl, p)
  call_all_refines limit (o ∷ os) r xs h p =
      let (r', e, q, c) = call_refines limit o r xs h p in
      let (r'', e', q') = call_all_refines limit os r' (serve limit o xs).1 c q in
      (r'', call_all-cons o os r ∙ ap (continue os) e ∙ ap (prepend _) e', q')
