-- ===== src/Mailbox/Shards/Ownership.antt =====
-- The mailboxes of a set of shard_mailbox.rs: each has one receiver, and stays as it is but for
-- its calls.
use sitas.Common.{
  ℕ, zero, suc, ◌+◌, ◌≤◌, ◌≡◌, inl, inr, refl, ap, true, Option, none, some, List, [], ◌∷◌, Waker,
  arith, get_elem?, set, Bool-cases, Option-cases, ◌==◌, if◌then◌else◌,
}
use native.Mathlib.Decide.{ℕ_discrete}
use mathlib.Core.Path.{subst}
use sitas.Mailbox.{
  Mailbox, recv_from, poll_recv_from, try_send, poll_send, try_recv, poll_recv, close_receiver,
  add_sender, drop_sender, close_sender_factory, drop_send,
}
use sitas.Mailbox.History.{Op, trying_recv, polling_recv, closing_factory, step}
use sitas.Mailbox.Shards.{
  ShardMailboxSet, SetOp, asking_sender, asking_receiver, calling, dropping_set, sender_to,
  receiver_for, take_receiver, call, drop_set, close_factories, serve, granted, receivers_granted,
}

module _ {ℓ} {M : Type ℓ} where
  recv_from-receiver_taken :
      (q : List M) (b : Mailbox M) → (recv_from q b).after.receiver_taken ≡ b.receiver_taken
  unfolding try_recv
  recv_from-receiver_taken [] b = refl
  recv_from-receiver_taken (m ∷ rest) b = refl

  poll_recv_from-receiver_taken :
      (q : List M) (w : Waker) (b : Mailbox M)
      → (poll_recv_from q w b).after.receiver_taken ≡ b.receiver_taken
  unfolding poll_recv
  poll_recv_from-receiver_taken [] w b = ground arith
  poll_recv_from-receiver_taken (m ∷ rest) w b = refl

  step-receiver_taken :
      (o : Op M) (b : Mailbox M) → (step o b).after.receiver_taken ≡ b.receiver_taken
  unfolding step try_send poll_send try_recv poll_recv close_receiver add_sender drop_sender
      close_sender_factory drop_send
  step-receiver_taken trying_recv b = recv_from-receiver_taken b.queue b
  step-receiver_taken (polling_recv w) b = poll_recv_from-receiver_taken b.queue w b
  step-receiver_taken o b = ground arith

  abbrev flag : Option (Mailbox M) → ℕ
  flag none = 0
  flag (some b) = if b.receiver_taken then 1 else 0

  -- 1 if the shard's receiver is taken.
  abbrev pub taken : ℕ → ShardMailboxSet M → ℕ
  taken i s = flag (get_elem? s.mailboxes i)

  flag-set :
      (bs : List (Mailbox M)) (i j : ℕ) (b b' : Mailbox M)
      → get_elem? bs j ≡ some b
      → flag (some b) ≤ flag (some b')
      → flag (get_elem? bs i) ≤ flag (get_elem? (set bs j b') i)
  flag-set [] i j b b' e h = omega arith
  flag-set (c ∷ bs) zero zero b b' e h = ground arith
  flag-set (c ∷ bs) (suc i) zero b b' e h = omega arith
  flag-set (c ∷ bs) zero (suc j) b b' e h = omega arith
  flag-set (c ∷ bs) (suc i) (suc j) b b' e h = flag-set bs i j b b' e h

  flag-close_factories :
      (bs : List (Mailbox M)) (i : ℕ)
      → flag (get_elem? (close_factories bs).1 i) ≡ flag (get_elem? bs i)
  unfolding drop_set step
  flag-close_factories [] i = refl
  flag-close_factories (b ∷ bs) zero =
      ap (λ t. if t then 1 else 0) (step-receiver_taken closing_factory b)
  flag-close_factories (b ∷ bs) (suc i) = flag-close_factories bs i

  drop_set-taken : (i : ℕ) (s : ShardMailboxSet M) → taken i s ≤ taken i (drop_set s).1
  unfolding drop_set
  drop_set-taken i s = omega (arith, flag-close_factories s.mailboxes i)

  sender_to-taken : (i j : ℕ) (s : ShardMailboxSet M) → taken i s ≤ taken i (sender_to j s).1
  unfolding sender_to add_sender
  sender_to-taken i j s = elim (Option-cases (get_elem? s.mailboxes j)) [
    | inl e ↦ rw (sender_to, e) (omega arith)
    | inr (b, e) ↦ rw (sender_to, e) (flag-set s.mailboxes i j b (add_sender b) e (omega arith))
  ]

  call-taken : (i j : ℕ) (o : Op M) (s : ShardMailboxSet M) → taken i s ≤ taken i (call j o s)
  unfolding call
  call-taken i j o s = elim (Option-cases (get_elem? s.mailboxes j)) [
    | inl e ↦ rw (call, e) (omega arith)
    | inr (b, e) ↦
        rw (call, e)
          (flag-set s.mailboxes i j b (step o b).after e (ground (arith, step-receiver_taken o b)))
  ]

  flag-set_self :
      (bs : List (Mailbox M)) (j : ℕ) (b b' : Mailbox M)
      → get_elem? bs j ≡ some b
      → flag (get_elem? (set bs j b') j) ≡ flag (some b')
  flag-set_self [] j b b' e = cc
  flag-set_self (c ∷ bs) zero b b' e = refl
  flag-set_self (c ∷ bs) (suc j) b b' e = flag-set_self bs j b b' e

  take_receiver-taken :
      (i j : ℕ) (b : Mailbox M) (s : ShardMailboxSet M)
      → get_elem? s.mailboxes j ≡ some b
      → (if j == i then granted (take_receiver j b s).0 else 0) + taken i s
        ≤ taken i (take_receiver j b s).1
  unfolding receiver_for
  take_receiver-taken i j b s e =
      let b' = record b { receiver_taken = true } in
      elim (Bool-cases b.receiver_taken) [
        | inl t ↦ rw (take_receiver, t) (ground arith)
        | inr t ↦ elim (ℕ_discrete j i) [
          | yes p ↦
              subst
                (λ i.
                  (if j == i then granted (take_receiver j b s).0 else 0) + taken i s
                  ≤ taken i (take_receiver j b s).1)
                p (ground (arith, flag-set_self s.mailboxes j b b' e, ap flag e))
          | no n ↦ ground (arith, flag-set s.mailboxes i j b b' e (ground arith))
        ]
      ]

  receiver_for-taken :
      (i j : ℕ) (s : ShardMailboxSet M)
      → (if j == i then granted (receiver_for j s).0 else 0) + taken i s
        ≤ taken i (receiver_for j s).1
  unfolding receiver_for
  receiver_for-taken i j s = elim (Option-cases (get_elem? s.mailboxes j)) [
    | inl e ↦ rw (receiver_for, e) (ground arith)
    | inr (b, e) ↦ rw (receiver_for, e) (take_receiver-taken i j b s e)
  ]

  -- Through every history of requests and calls on a set, a receiver is handed out at most once
  -- for each shard, and not at all if it was taken at the start.
  pub receivers_granted-le :
      (i : ℕ) (os : List (SetOp M)) (s : ShardMailboxSet M)
      → receivers_granted i os s + taken i s ≤ 1
  unfolding receivers_granted serve
  receivers_granted-le i [] s = ground arith
  receivers_granted-le i (asking_sender j ∷ os) s =
      omega (arith, sender_to-taken i j s, receivers_granted-le i os (sender_to j s).1)
  receivers_granted-le i (asking_receiver j ∷ os) s =
      omega (arith, receiver_for-taken i j s, receivers_granted-le i os (receiver_for j s).1)
  receivers_granted-le i (calling j o ∷ os) s =
      omega (arith, call-taken i j o s, receivers_granted-le i os (call j o s))
  receivers_granted-le i (dropping_set ∷ os) s =
      omega (arith, drop_set-taken i s, receivers_granted-le i os (drop_set s).1)
