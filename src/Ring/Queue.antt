-- ===== src/Ring/Queue.antt =====
-- A ring of ringbuf.rs behaves as a queue of at most `capacity - 1` items, oldest first.
use native.Mathlib.Decide.{ℕ_discrete}
use sitas.Common.{
  ℕ, suc, ◌+◌, ◌-◌, ◌%◌, ◌^◌, ◌<◌, ◌≤◌, ◌≡◌, ◌≢◌, ◌⊎◌, inl, inr, refl, sym, ap, ◌∙◌, Option, none,
  some, List, [], ◌∷◌, ◌++◌, ok, err, arith, length, length-set, length-replicate, get_elem?, set,
  get_elem?-set_self, get_elem?-set_ne, ltb, if◌then◌else◌, add_word, ==_of_ne,
}
use sitas.Ring.{Ring, bounded, try_push, pop, len}

module _ {ℓ} {T : Type ℓ} where
  -- From index `t` on, going round at `size`, the cells up to index `h` hold the items.
  abbrev pub Holds : List (Option T) → ℕ → ℕ → List T → ℕ → Type ℓ
  Holds buf size h [] t = (t ≡ h) × Unit {ℓ}
  Holds buf size h (x ∷ xs) t =
      (get_elem? buf t ≡ some (some x)) × (t ≢ h) × Holds buf size h xs ((t + 1) % size)

pub record IsValid {ℓ} {T : Type ℓ} (r : Ring T) : Type ℓ where
  pub positive : 0 < r.capacity
  pub small : r.capacity ≤ 2 ^ 63
  pub allocated : length r.buffer ≡ r.capacity
  pub head_in : r.head < r.capacity
  pub tail_in : r.tail < r.capacity

abbrev pub Represents {ℓ} : {T : Type ℓ} → Ring T → List T → Type ℓ
Represents r xs = IsValid r × Holds r.buffer r.capacity r.head xs r.tail

next_cases :
    (t size : ℕ)
    → t < size
    → ((t + 1) % size ≡ t + 1) × (t + 1 < size) ⊎ ((t + 1) % size ≡ 0) × (t + 1 ≡ size)
next_cases t size h = grind arith

next-injective : (s t size : ℕ) → s < size → t < size → (s + 1) % size ≡ (t + 1) % size → s ≡ t
next-injective s t size h k e = ground (arith, next_cases s size h, next_cases t size k)

next-lt : (t size : ℕ) → t < size → (t + 1) % size < size
next-lt t size h = ground (arith, next_cases t size h)

-- The distance from `t` to `h` going up, round the end.
abbrev gap : ℕ → ℕ → ℕ → ℕ
gap size h t = if ltb h t then h + size - t else h - t

gap-next :
    (size h t : ℕ) → h < size → t < size → t ≢ h → gap size h t ≡ suc (gap size h ((t + 1) % size))
gap-next size h t p q n = ground (arith, next_cases t size q)

module _ {ℓ} {T : Type ℓ} where
  -- Writing at the head puts the item at the end, if the next index is not the window's first.
  Holds-set :
      (buf : List (Option T)) (size h t : ℕ) (xs : List T) (x : T)
      → length buf ≡ size
      → h < size
      → t < size
      → t ≢ (h + 1) % size
      → Holds buf size h xs t
      → Holds (set buf h (some x)) size ((h + 1) % size) (xs ++ x ∷ []) t
  Holds-set buf size h t [] x l p q n w =
      (rw w.0 (get_elem?-set_self buf h (some x) (omega arith)), n, (rw w.0 refl, tt))
  Holds-set buf size h t (y ∷ ys) x l p q n w = (
    get_elem?-set_ne buf (some x) (λ e. w.1 (sym e)) ∙ w.0,
    n,
    Holds-set buf size h ((t + 1) % size) ys x l p (next-lt t size q)
        (λ e. w.1 (next-injective t h size q p e)) w.2,
  )

  Holds-length :
      (buf : List (Option T)) (size h t : ℕ) (xs : List T)
      → h < size
      → t < size
      → Holds buf size h xs t
      → gap size h t ≡ length xs
  Holds-length buf size h t [] p q w = ground arith
  Holds-length buf size h t (x ∷ xs) p q w =
      gap-next size h t p q w.1
      ∙ ap suc (Holds-length buf size h ((t + 1) % size) xs p (next-lt t size q) w.2)

  length-lt : (r : Ring T) (xs : List T) → Represents r xs → length xs < r.capacity
  length-lt r xs (v, w) =
      ground (arith, Holds-length r.buffer r.capacity r.head r.tail xs v.head_in v.tail_in w)

  -- What a push of `x` returns on a queue that holds `xs`.
  abbrev pub Pushes : T → Ring T → List T → Type ℓ
  Pushes x r xs =
      (length xs + 1 < r.capacity)
        × ((r' : Ring T) × (try_push x r ≡ ok (ok tt, r'))
            × Represents r' (xs ++ x ∷ [])
            × (r'.capacity ≡ r.capacity))
      ⊎ (length xs + 1 ≡ r.capacity) × (try_push x r ≡ ok (err x, r))

  wrap_next : (r : Ring T) → IsValid r → add_word r.head 1 ≡ r.head + 1
  wrap_next r v = omega arith

  -- On a valid ring that represents a queue `xs`, `try_push` never faults. If the queue is shorter
  -- than `capacity - 1`, the push succeeds, the ring then represents `xs` with the item at the end,
  -- and keeps its capacity; otherwise the length is `capacity - 1`, the item comes back, and the
  -- ring is unchanged.
  pub try_push_lem : (x : T) (r : Ring T) (xs : List T) → Represents r xs → Pushes x r xs
  unfolding try_push
  try_push_lem x r xs (v, w) = elim (ℕ_discrete ((r.head + 1) % r.capacity) r.tail) [
    | yes e ↦
        inr (
          ground (arith, fit, next_cases r.head r.capacity v.head_in),
          ground (arith, wrap_next r v),
        )
    | no n ↦ inl (
      ground (arith, fit, next_cases r.head r.capacity v.head_in),
      (
        record r { buffer = set r.buffer r.head (some x); head = (r.head + 1) % r.capacity },
        ground (arith, wrap_next r v),
        (
          ground (arith, length-set r.buffer r.head (some x), next-lt r.head r.capacity v.head_in),
          Holds-set r.buffer r.capacity r.head r.tail xs x v.allocated v.head_in v.tail_in
              (λ e. n (sym e)) w,
        ),
        refl,
      ),
    )
  ]
    where
      fit : gap r.capacity r.head r.tail ≡ length xs
      fit = Holds-length r.buffer r.capacity r.head r.tail xs v.head_in v.tail_in w

  wrap_tail : (r : Ring T) → IsValid r → add_word r.tail 1 ≡ r.tail + 1
  wrap_tail r v = omega arith

  abbrev pub Pops : Ring T → List T → Type ℓ
  Pops r [] = pop r ≡ ok (none, r)
  Pops r (x ∷ xs) =
      (r' : Ring T) × (pop r ≡ ok (some x, r')) × Represents r' xs × (r'.capacity ≡ r.capacity)

  -- On a valid ring that represents a queue, `pop` never faults: it returns nothing and changes
  -- nothing if the queue is empty, and otherwise returns the oldest item, leaves the rest, and
  -- keeps the capacity.
  pub pop_lem : (r : Ring T) (xs : List T) → Represents r xs → Pops r xs
  unfolding pop
  pop_lem r [] (v, w) = ground arith
  pop_lem r (x ∷ xs) (v, w) = (
    record r { tail = (r.tail + 1) % r.capacity },
    rw (w.0, pop, ==_of_ne r.tail r.head w.1, ==_of_ne r.capacity 0 (omega arith), wrap_tail r v),
    (ground (arith, next-lt r.tail r.capacity v.tail_in), w.2),
    refl,
  )

  -- On a valid ring that represents a queue, `len` is the number of its items.
  pub len_lem : (r : Ring T) (xs : List T) → Represents r xs → len r ≡ length xs
  unfolding len
  len_lem r xs (v, w) =
      ground (arith, Holds-length r.buffer r.capacity r.head r.tail xs v.head_in v.tail_in w)

  pub bounded-Represents : (n : ℕ) → 0 < n → n ≤ 2 ^ 63 → Represents (bounded {T = T} n) []
  unfolding bounded
  bounded-Represents n h k = (ground (arith, length-replicate {A = Option T} n none), (refl, tt))
