-- ===== src/Mailbox/Shards.antt =====
-- crates/sitas-core/src/shard_mailbox.rs, ShardMailboxSet: one mailbox for each shard. A sender or
-- a receiver shares its mailbox with the set, so a handle is the index of the mailbox in the set,
-- and a call through a handle acts on the mailbox at that index.
pub mod Ownership
pub mod Ends
use sitas.Common.{
  ℕ, zero, suc, ◌+◌, Bool, true, false, Option, none, some, List, [], ◌∷◌, ◌++◌, map, Result, ok,
  err, Wakes, length, get_elem?, set, ◌==◌, if◌then◌else◌,
}
use sitas.Mailbox.{Mailbox, Snapshot, new, add_sender, close_sender_factory, snapshot}
use sitas.Mailbox.History.{Op, Trace, step}

pub record ShardMailboxSet {ℓ} (M : Type ℓ) : Type ℓ where
  pub mailboxes : List (Mailbox M)

pub data CreateError : Type 0 where
  zero_shards zero_capacity : CreateError

pub data AddressError : Type 0 where
  invalid_shard : ℕ → AddressError
  not_on_shard : AddressError
  receiver_already_taken : ℕ → AddressError

module _ {ℓ} {M : Type ℓ} where
  -- The mailboxes of the shards from `first` on.
  mailboxes_from : ℕ → ℕ → ℕ → List (Mailbox M)
  mailboxes_from first zero capacity = []
  mailboxes_from first (suc n) capacity = new first capacity ∷ mailboxes_from (suc first) n capacity

  unfoldable pub with_shard_count : ℕ → ℕ → Result (ShardMailboxSet M) CreateError
  unfolding mailboxes_from
  with_shard_count shard_count capacity =
      if shard_count == 0
      then err zero_shards
      else if capacity == 0
      then err zero_capacity
      else ok (record { mailboxes = mailboxes_from 0 shard_count capacity })

  pub shard_count : ShardMailboxSet M → ℕ
  shard_count s = length s.mailboxes

  put_back : ℕ → Mailbox M → ShardMailboxSet M → ShardMailboxSet M
  put_back i b s = record s { mailboxes = set s.mailboxes i b }

  pub sender_to : ℕ → ShardMailboxSet M → Result ℕ AddressError × ShardMailboxSet M
  unfolding put_back
  sender_to shard_id s = elim (get_elem? s.mailboxes shard_id) [
    | none ↦ (err (invalid_shard shard_id), s)
    | some b ↦ (ok shard_id, put_back shard_id (add_sender b) s)
  ]

  take_receiver : ℕ → Mailbox M → ShardMailboxSet M → Result ℕ AddressError × ShardMailboxSet M
  unfolding put_back
  take_receiver i b s =
      if b.receiver_taken
      then (err (receiver_already_taken i), s)
      else (ok i, put_back i (record b { receiver_taken = true }) s)

  pub receiver_for : ℕ → ShardMailboxSet M → Result ℕ AddressError × ShardMailboxSet M
  unfolding take_receiver
  receiver_for shard_id s = elim (get_elem? s.mailboxes shard_id) [
    | none ↦ (err (invalid_shard shard_id), s)
    | some b ↦ take_receiver shard_id b s
  ]

  -- The current shard is none outside the shards of an executor.
  pub receiver_for_current_shard :
      Option ℕ → ShardMailboxSet M → Result ℕ AddressError × ShardMailboxSet M
  receiver_for_current_shard none s = (err not_on_shard, s)
  receiver_for_current_shard (some shard_id) s = receiver_for shard_id s

  pub snapshots : ShardMailboxSet M → List Snapshot
  snapshots s = map snapshot s.mailboxes

  -- Dropping the set closes the sender factory of every mailbox, in order.
  close_factories : List (Mailbox M) → Wakes × List (Mailbox M)
  close_factories [] = ([], [])
  close_factories (b ∷ bs) =
      let c = close_sender_factory b in
      let (wakes, rest) = close_factories bs in (c.wakes ++ wakes, c.after ∷ rest)

  pub drop_set : ShardMailboxSet M → Wakes × ShardMailboxSet M
  unfolding close_factories
  drop_set s = let (wakes, bs) = close_factories s.mailboxes in (wakes, record s { mailboxes = bs })

  -- A call on the mailbox of a handle; a handle from the set is in bounds.
  pub call : ℕ → Op M → ShardMailboxSet M → ShardMailboxSet M
  unfolding put_back
  call i o s = elim (get_elem? s.mailboxes i) [ none ↦ s | some b ↦ put_back i (step o b).after s ]

-- What reaches a set: requests for senders and receivers, calls through handles, and its end.
pub data SetOp {ℓ} (M : Type ℓ) : Type ℓ where
  asking_sender asking_receiver : ℕ → SetOp M
  calling : ℕ → Op M → SetOp M
  dropping_set : SetOp M

abbrev granted : Result ℕ AddressError → ℕ
granted (ok i) = 1
granted (err e) = 0

module _ {ℓ} {M : Type ℓ} where
  pub serve : SetOp M → ShardMailboxSet M → ShardMailboxSet M
  serve (asking_sender i) s = (sender_to i s).1
  serve (asking_receiver i) s = (receiver_for i s).1
  serve (calling i o) s = call i o s
  serve dropping_set s = (drop_set s).1

  pub serve_all : List (SetOp M) → ShardMailboxSet M → ShardMailboxSet M
  serve_all [] s = s
  serve_all (o ∷ os) s = serve_all os (serve o s)

  -- How often the receiver of a shard is handed out.
  pub receivers_granted : ℕ → List (SetOp M) → ShardMailboxSet M → ℕ
  receivers_granted i [] s = 0
  receivers_granted i (asking_receiver j ∷ os) s =
      (if j == i then granted (receiver_for j s).0 else 0)
      + receivers_granted i os (receiver_for j s).1
  receivers_granted i (o ∷ os) s = receivers_granted i os (serve o s)
