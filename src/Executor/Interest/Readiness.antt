-- ===== src/Executor/Interest/Readiness.antt =====
-- Which descriptors executor/io_interest.rs reports, whom it wakes, and who is told of readiness.
use sitas.Common.{
  ℕ, contains, Distinct, contains-append, Distinct-append, contains-subst, ◌+◌, ◌≡◌, refl, ap, Bool,
  ◌&&◌, ◌||◌, not, List, [], ◌∷◌, ◌++◌, map, arith, retain, any, inl, inr, Bool-cases, ◌==◌,
  if◌then◌else◌,
}
use sitas.Executor.Interest.{
  Interest, InterestSet, collect_fds, fds, split_ready, wake_ready, last_or, but_last, rotate_last,
  swap_remove_first, take_ready,
}

-- How often `n` occurs.
abbrev pub count : ℕ → List ℕ → ℕ
count n [] = 0
count n (x ∷ xs) = (if x == n then 1 else 0) + count n xs

-- Some interest is in this descriptor.
abbrev pub watches : ℕ → List Interest → Bool
watches n = any (λ i. i.fd == n)

collect_fds-Distinct :
    (found : List ℕ) (is : List Interest) → Distinct found → Distinct (collect_fds found is)
unfolding collect_fds
collect_fds-Distinct found [] d = d
collect_fds-Distinct found (i ∷ is) d = elim (Bool-cases (contains i.fd found)) [
  | inl h ↦ rw h (collect_fds-Distinct found is d)
  | inr h ↦ rw h (collect_fds-Distinct (found ++ i.fd ∷ []) is (Distinct-append i.fd found h d))
]

collect_fds-contains :
    (n : ℕ) (found : List ℕ) (is : List Interest)
    → contains n (collect_fds found is) ≡ (contains n found || watches n is)
unfolding collect_fds
collect_fds-contains n found [] = ground arith
collect_fds-contains n found (i ∷ is) = elim (Bool-cases (contains i.fd found)) [
  | inl h ↦ rw (h, collect_fds-contains n found is) (ground (arith, contains-subst i.fd n found))
  | inr h ↦
      rw (h, collect_fds-contains n (found ++ i.fd ∷ []) is, contains-append n found (i.fd ∷ []))
        (ground arith)
]

-- `fds` lists each descriptor once, and exactly those in which some interest is registered.
fds_lem :
    (s : InterestSet) (n : ℕ) → Distinct (fds s) × (contains n (fds s) ≡ watches n s.interests)
unfolding fds
fds_lem s n = (collect_fds-Distinct [] s.interests tt, collect_fds-contains n [] s.interests)

count-rotate :
    (n x : ℕ) (xs : List ℕ) → count n (last_or x xs ∷ but_last (x ∷ xs)) ≡ count n (x ∷ xs)
unfolding rotate_last
count-rotate n x [] = refl
count-rotate n x (y ∷ ys) = omega (arith, count-rotate n y ys)

count-rotate_last : (n : ℕ) (xs : List ℕ) → count n (rotate_last xs) ≡ count n xs
unfolding rotate_last
count-rotate_last n [] = refl
count-rotate_last n (x ∷ xs) = count-rotate n x xs

count-swap_remove :
    (n j : ℕ) (xs : List ℕ)
    → (if contains n xs && (n == j) then 1 else 0) + count j (swap_remove_first n xs) ≡ count j xs
unfolding swap_remove_first
count-swap_remove n j [] = refl
count-swap_remove n j (x ∷ xs) = ground (arith, count-rotate_last j xs, count-swap_remove n j xs)

split_ready_lem :
    (ready_fds : List ℕ) (is : List Interest)
    → let r = split_ready ready_fds is in
      (r.wakers ≡ map (λ i. i.waker) (retain (λ i. contains i.fd ready_fds) is))
      × (r.ready_ids ≡ map (λ i. i.id) (retain (λ i. contains i.fd ready_fds) is))
      × (r.pending ≡ retain (λ i. not (contains i.fd ready_fds)) is)
unfolding split_ready
split_ready_lem ready_fds [] = (refl, refl, refl)
split_ready_lem ready_fds (i ∷ is) = ground (arith, split_ready_lem ready_fds is)

-- `wake_ready` returns the wakers of exactly the interests whose descriptor is reported, in order,
-- removes these interests and keeps the others in order, and adds the identifiers of those removed
-- to the ready list, behind what stood there.
wake_ready_lem :
    (ready_fds : List ℕ) (s : InterestSet)
    → let (wakes, s') = wake_ready ready_fds s in
      let hit = retain (λ i. contains i.fd ready_fds) s.interests in
      (wakes ≡ map (λ i. i.waker) hit)
      × (s'.interests ≡ retain (λ i. not (contains i.fd ready_fds)) s.interests)
      × (s'.ready ≡ s.ready ++ map (λ i. i.id) hit)
unfolding wake_ready
wake_ready_lem ready_fds s =
    let h = split_ready_lem ready_fds s.interests in (h.0, h.2, ap (◌++◌ s.ready) h.1)

-- `take_ready` returns whether the identifier is in the ready list. It takes one occurrence of it
-- away, if there is one, no occurrence of another identifier, and leaves the interests alone.
take_ready_lem :
    (id : ℕ) (s : InterestSet)
    → let (taken, s') = take_ready id s in
      (taken ≡ contains id s.ready)
      × ((j : ℕ)
          → (if contains id s.ready && (id == j) then 1 else 0) + count j s'.ready
            ≡ count j s.ready)
      × (s'.interests ≡ s.interests)
unfolding take_ready
take_ready_lem id s =
    (ground arith, λ j. ground (arith, count-swap_remove id j s.ready), ground arith)
