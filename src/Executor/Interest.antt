-- ===== src/Executor/Interest.antt =====
-- executor/io_interest.rs: which tasks wait for which file descriptors.
pub mod Readiness
mod Tests
use sitas.Common.{
  ℕ, contains, Bool, true, false, not, List, [], ◌∷◌, ◌++◌, Waker, Wakes, length, retain, any, ◌==◌,
  if◌then◌else◌, add_word,
}

pub record Interest : Type 0 where
  pub id : ℕ
  pub fd : ℕ
  pub waker : Waker

pub record InterestSet : Type 0 where
  pub interests : List Interest
  pub ready : List ℕ
  pub next_id : ℕ

pub new : InterestSet
new = record { interests = []; ready = []; next_id = 0 }

pub allocate_id : InterestSet → ℕ × InterestSet
allocate_id s = (s.next_id, record s { next_id = add_word s.next_id 1 })

put : ℕ → ℕ → Waker → List Interest → List Interest
put id fd waker [] = record { id = id; fd = fd; waker = waker } ∷ []
put id fd waker (i ∷ is) =
    let rest = put id fd waker is in
    if i.id == id then record i { fd = fd; waker = waker } ∷ is else i ∷ rest

pub register : ℕ → ℕ → Waker → InterestSet → InterestSet
unfolding put
register id fd waker s = record s { interests = put id fd waker s.interests }

pub remove : ℕ → InterestSet → InterestSet
remove id s = record s {
  interests = retain (λ i. not (i.id == id)) s.interests;
  ready = retain (λ r. not (r == id)) s.ready;
}

pub clear : InterestSet → InterestSet
clear s = record s { interests = []; ready = [] }

-- The loop of `fds`, with the descriptors found so far.
collect_fds : List ℕ → List Interest → List ℕ
collect_fds fds [] = fds
collect_fds fds (i ∷ is) = collect_fds (if contains i.fd fds then fds else fds ++ i.fd ∷ []) is

pub fds : InterestSet → List ℕ
unfolding collect_fds
fds s = collect_fds [] s.interests

pub len : InterestSet → ℕ
len s = length s.interests

pub record Split : Type 0 where
  pub wakers : Wakes
  pub ready_ids : List ℕ
  pub pending : List Interest

-- The loop of `wake_ready`.
split_ready : List ℕ → List Interest → Split
split_ready ready_fds [] = record { wakers = []; ready_ids = []; pending = [] }
split_ready ready_fds (i ∷ is) =
    let r = split_ready ready_fds is in
    if contains i.fd ready_fds
    then record r { wakers = i.waker ∷ r.wakers; ready_ids = i.id ∷ r.ready_ids }
    else record r { pending = i ∷ r.pending }

pub wake_ready : List ℕ → InterestSet → Wakes × InterestSet
unfolding split_ready
wake_ready ready_fds s =
    let r = split_ready ready_fds s.interests in
    (r.wakers, record s { interests = r.pending; ready = s.ready ++ r.ready_ids })

-- `swap_remove` at the first occurrence: the last element takes the place of the one removed.
last_or : ℕ → List ℕ → ℕ
last_or d [] = d
last_or d (x ∷ xs) = last_or x xs

but_last : List ℕ → List ℕ
but_last [] = []
but_last (x ∷ []) = []
but_last (x ∷ y ∷ ys) = x ∷ but_last (y ∷ ys)

-- What stands after the removed element, with its last element moved to the front.
rotate_last : List ℕ → List ℕ
unfolding last_or but_last
rotate_last [] = []
rotate_last (x ∷ xs) = last_or x xs ∷ but_last (x ∷ xs)

swap_remove_first : ℕ → List ℕ → List ℕ
unfolding rotate_last
swap_remove_first n [] = []
swap_remove_first n (x ∷ xs) =
    let rest = swap_remove_first n xs in if x == n then rotate_last xs else x ∷ rest

pub take_ready : ℕ → InterestSet → Bool × InterestSet
unfolding swap_remove_first
take_ready id s =
    if contains id s.ready
    then (true, record s { ready = swap_remove_first id s.ready })
    else (false, s)
