-- ===== src/Mailbox/Shards/Ends.antt =====
-- The making and the end of a set of mailboxes of shard_mailbox.rs.
use sitas.Common.{
  ℕ, zero, suc, ◌+◌, ◌≡◌, ◌⊎◌, inl, inr, sym, refl, ap, Bool, true, ◌||◌, Option, none, some, List,
  [], ◌∷◌, ◌++◌, Result, ok, err, ready, Waker, Wakes, arith, any, get_elem?, ltb, ltb_of_lt, ◌==◌,
  if◌then◌else◌,
}
use mathlib.Core.Path.{subst}
use sitas.Mailbox.{
  Mailbox, RecvError, new, close_sender_factory, poll_recv, poll_recv_from, is_disconnected,
}
use sitas.Mailbox.Invariant.{IsValid}
use sitas.Mailbox.Wakeups.{Woken}
use sitas.Mailbox.Shards.{
  ShardMailboxSet, CreateError, with_shard_count, mailboxes_from, drop_set, close_factories,
}

any-append {ℓ} :
    {A : Type ℓ} (p : A → Bool) (xs ys : List A) → any p (xs ++ ys) ≡ (any p xs || any p ys)
any-append p [] ys = refl
any-append p (x ∷ xs) ys = ground (arith, any-append p xs ys)

Woken-append : (w : Waker) (xs ys : Wakes) → Woken w xs ⊎ Woken w ys → Woken w (xs ++ ys)
Woken-append w xs ys h = ground (arith, any-append (λ x. x == w) xs ys)

plus_zero : (n : ℕ) → n + 0 ≡ n
plus_zero n = omega arith

plus_suc : (n i : ℕ) → n + suc i ≡ suc n + i
plus_suc n i = omega arith

zero_plus : (n : ℕ) → 0 + n ≡ n
zero_plus n = omega arith

module _ {ℓ} {M : Type ℓ} where
  get_elem?-mailboxes_from :
      (first n capacity i : ℕ)
      → get_elem? (mailboxes_from {M = M} first n capacity) i
        ≡ (if ltb i n then some (new (first + i) capacity) else none)
  unfolding with_shard_count
  get_elem?-mailboxes_from first zero capacity i = ground arith
  get_elem?-mailboxes_from first (suc n) capacity zero =
      rw (plus_zero first, ltb_of_lt 0 (suc n) (omega arith)) refl
  get_elem?-mailboxes_from first (suc n) capacity (suc i) =
      ground (arith, get_elem?-mailboxes_from (suc first) n capacity i, plus_suc first i)

  abbrev set_or : ShardMailboxSet M → Result (ShardMailboxSet M) CreateError → ShardMailboxSet M
  set_or d (ok s) = s
  set_or d (err e) = d

  -- A set that was made for a number of shards has exactly one new mailbox of the given capacity
  -- for each shard below that number, at the shard's index and with the shard's identifier.
  with_shard_count_lem :
      (shard_count capacity : ℕ) (s : ShardMailboxSet M) (i : ℕ)
      → with_shard_count shard_count capacity ≡ ok s
      → get_elem? s.mailboxes i ≡ (if ltb i shard_count then some (new i capacity) else none)
  unfolding with_shard_count
  with_shard_count_lem zero capacity s i e = cc
  with_shard_count_lem (suc n) zero s i e = ground arith
  with_shard_count_lem (suc n) (suc c) s i e =
      ground (arith, get_elem?-mailboxes_from 0 (suc n) (suc c) i, zero_plus i)

  disconnected_poll :
      (q : List M) (w : Waker) (b : Mailbox M)
      → q ≡ []
      → is_disconnected b ≡ true
      → (poll_recv_from q w b).value ≡ ready (err RecvError.closed)
  unfolding poll_recv
  disconnected_poll [] w b e d = ground arith
  disconnected_poll (m ∷ rest) w b e d = cc

  abbrev mailbox_or : Mailbox M → Option (Mailbox M) → Mailbox M
  mailbox_or d none = d
  mailbox_or d (some b) = b

  close_factories_wake :
      (bs : List (Mailbox M)) (i : ℕ) (b : Mailbox M) (w : Waker)
      → get_elem? bs i ≡ some b
      → Woken w (close_sender_factory b).wakes
      → Woken w (close_factories bs).0
        × (get_elem? (close_factories bs).1 i ≡ some (close_sender_factory b).after)
  unfolding drop_set
  close_factories_wake [] i b w e h = cc
  close_factories_wake (c ∷ bs) zero b w e h =
      subst
        (λ b'.
          Woken w ((close_sender_factory c).wakes ++ (close_factories bs).0)
          × (some (close_sender_factory c).after ≡ some (close_sender_factory b').after))
        (ap (mailbox_or c) e)
        (
          Woken-append w (close_sender_factory c).wakes (close_factories bs).0 (
              inl (
                subst (λ x. Woken w (close_sender_factory x).wakes) (sym (ap (mailbox_or c) e)) h)),
          refl,
        )
  close_factories_wake (c ∷ bs) (suc i) b w e h =
      let r = close_factories_wake bs i b w e h in
      (Woken-append w (close_sender_factory c).wakes (close_factories bs).0 (inr r.0), r.1)

  factory_wakes :
      (b : Mailbox M) (w : Waker)
      → IsValid b
      → b.sender_count ≡ 0
      → b.recv_waker ≡ some w
      → Woken w (close_sender_factory b).wakes
        × (is_disconnected (close_sender_factory b).after ≡ true)
        × ((close_sender_factory b).after.queue ≡ [])
  unfolding close_sender_factory is_disconnected
  factory_wakes b w v h r = ground arith

  -- Let the receiver of a shard be parked, in a valid mailbox without senders. Dropping the set
  -- wakes it, and its next poll reports that the mailbox is closed.
  pub drop_set_wakes_receiver :
      (s : ShardMailboxSet M) (i : ℕ) (b : Mailbox M) (w w' : Waker)
      → get_elem? s.mailboxes i ≡ some b
      → IsValid b
      → b.sender_count ≡ 0
      → b.recv_waker ≡ some w
      → let (wakes, s') = drop_set s in
        Woken w wakes
        × ((b' : Mailbox M) × (get_elem? s'.mailboxes i ≡ some b')
            × ((poll_recv w' b').value ≡ ready (err RecvError.closed)))
  unfolding drop_set poll_recv
  drop_set_wakes_receiver s i b w w' e v h r =
      let f = factory_wakes b w v h r in
      let c = close_factories_wake s.mailboxes i b w e f.0 in
      (
        c.0,
        (
          (close_sender_factory b).after,
          c.1,
          disconnected_poll _ w' (close_sender_factory b).after f.2 f.1,
        ),
      )
