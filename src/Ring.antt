-- ===== src/Ring.antt =====
-- crates/sitas-core/src/ringbuf.rs: the bounded single-producer, single-consumer ring. The cells
-- are a list; `none` is a cell that was never written. Each call is one step: it runs between the
-- loads and stores of `head` and `tail` without the other side's. A `Fault` is a panic (`% 0`, an
-- index out of bounds) or the read of an uninitialised cell.
pub mod Queue
pub mod Refinement
mod Tests
use sitas.Common.{
  ℕ, ◌+◌, ◌-◌, ◌%◌, Bool, Option, none, some, List, Result, ok, err, length, get_elem?, set,
  replicate, ltb, ◌==◌, if◌then◌else◌, add_word, word,
}

pub data Fault : Type 0 where
  division_by_zero out_of_bounds uninitialised : Fault

pub record Ring {ℓ} (T : Type ℓ) : Type ℓ where
  pub buffer : List (Option T)
  pub capacity : ℕ
  pub head : ℕ
  pub tail : ℕ

module _ {ℓ} {T : Type ℓ} where
  unfoldable pub bounded : ℕ → Ring T
  bounded capacity = record {
    buffer = replicate capacity none;
    capacity = capacity;
    head = 0;
    tail = 0;
  }

  pub unbounded : Ring T
  unfolding bounded
  unbounded = bounded 256

  write_item : T → ℕ → Ring T → Result (Result (Unit {0}) T × Ring T) Fault
  write_item x next r =
      if ltb r.head (length r.buffer)
      then ok (ok tt, record r { buffer = set r.buffer r.head (some x); head = next })
      else err out_of_bounds

  unfoldable pub try_push : T → Ring T → Result (Result (Unit {0}) T × Ring T) Fault
  unfolding write_item
  try_push x r =
      if r.capacity == 0
      then err division_by_zero
      else (let next = add_word r.head 1 % r.capacity in
          if next == r.tail then ok (err x, r) else write_item x next r)

  -- The cell's bytes stay where they are.
  read_item : Option (Option T) → Ring T → Result (Option T × Ring T) Fault
  read_item none r = err out_of_bounds
  read_item (some none) r = err uninitialised
  read_item (some (some x)) r =
      if r.capacity == 0
      then err division_by_zero
      else ok (some x, record r { tail = add_word r.tail 1 % r.capacity })

  unfoldable pub pop : Ring T → Result (Option T × Ring T) Fault
  unfolding read_item
  pop r = if r.tail == r.head then ok (none, r) else read_item (get_elem? r.buffer r.tail) r

  pub is_empty : Ring T → Bool
  is_empty r = r.tail == r.head

  unfoldable pub len : Ring T → ℕ
  len r =
      if ltb r.head r.tail
      then (add_word r.head r.capacity + word - r.tail) % word
      else r.head - r.tail
