-- ===== src/Mailbox/Invariant.antt =====
-- The invariant of the shared mailbox state of shard_mailbox.rs.
use sitas.Common.{
  ℕ, ◌+◌, ◌<◌, ◌≤◌, ◌≡◌, refl, Bool, true, false, Option, none, some, List, [], ◌∷◌, Waker, arith,
  length, length-append, add_word, word,
}
use sitas.Mailbox.{
  Mailbox, new, is_disconnected, try_send, poll_send, try_recv, poll_recv, close_receiver,
  add_sender, drop_sender, close_sender_factory, drop_send, recv_from, poll_recv_from,
}
use sitas.Mailbox.History.{
  Op, trying_send, polling_send, trying_recv, polling_recv, closing, adding_sender, dropping_sender,
  closing_factory, dropping_send, step, run,
}

-- A parked receiver has nothing to take, and something can still come.
abbrev pub Parks {ℓ} : {M : Type ℓ} → Option Waker → List M → Bool → Type ℓ
Parks none q d = Unit
Parks (some w) q d = (q ≡ []) × (d ≡ false)

pub record IsValid {ℓ} {M : Type ℓ} (b : Mailbox M) : Type ℓ where
  pub bounded : length b.queue ≤ b.capacity
  pub counted : b.sent ≡ add_word b.received (length b.queue)
  pub received_word : b.received < word
  pub parked : Parks b.recv_waker b.queue (is_disconnected b)
  pub closed_send : b.receiver_closed ≡ true → b.send_wakers ≡ []

module _ {ℓ} {M : Type ℓ} where
  pub try_send-IsValid : (m : M) (b : Mailbox M) → IsValid b → IsValid (try_send m b).after
  unfolding try_send is_disconnected
  try_send-IsValid m b v = ground (arith, length-append b.queue (m ∷ []))

  pub poll_send-IsValid :
      (m : M) (w : Waker) (b : Mailbox M) → IsValid b → IsValid (poll_send m w b).after
  unfolding poll_send is_disconnected
  poll_send-IsValid m w b v = ground (arith, length-append b.queue (m ∷ []))

  recv_from-IsValid :
      (q : List M) (b : Mailbox M) → b.queue ≡ q → IsValid b → IsValid (recv_from q b).after
  unfolding try_recv
  recv_from-IsValid [] b e v = v
  recv_from-IsValid (m ∷ rest) b e v = ground arith

  pub try_recv-IsValid : (b : Mailbox M) → IsValid b → IsValid (try_recv b).after
  unfolding try_recv
  try_recv-IsValid b v = recv_from-IsValid b.queue b refl v

  poll_recv_from-IsValid :
      (q : List M) (w : Waker) (b : Mailbox M)
      → b.queue ≡ q
      → IsValid b
      → IsValid (poll_recv_from q w b).after
  unfolding poll_recv
  poll_recv_from-IsValid [] w b e v = ground arith
  poll_recv_from-IsValid (m ∷ rest) w b e v = ground arith

  pub poll_recv-IsValid : (w : Waker) (b : Mailbox M) → IsValid b → IsValid (poll_recv w b).after
  unfolding poll_recv
  poll_recv-IsValid w b v = poll_recv_from-IsValid b.queue w b refl v

  pub close_receiver-IsValid : (b : Mailbox M) → IsValid b → IsValid (close_receiver b).after
  unfolding close_receiver
  close_receiver-IsValid b v = ground arith

  -- One more sender must not wrap `sender_count` to zero.
  pub add_sender-IsValid :
      (b : Mailbox M) → b.sender_count + 1 < word → IsValid b → IsValid (add_sender b)
  unfolding add_sender is_disconnected
  add_sender-IsValid b h v = ground arith

  pub drop_sender-IsValid : (b : Mailbox M) → IsValid b → IsValid (drop_sender b).after
  unfolding drop_sender is_disconnected
  drop_sender-IsValid b v = ground arith

  pub close_sender_factory-IsValid :
      (b : Mailbox M) → IsValid b → IsValid (close_sender_factory b).after
  unfolding close_sender_factory is_disconnected
  close_sender_factory-IsValid b v = ground arith

  pub drop_send-IsValid : (o : Option M) (b : Mailbox M) → IsValid b → IsValid (drop_send o b).after
  unfolding drop_send is_disconnected
  drop_send-IsValid o b v = ground arith

  pub new-IsValid : (shard_id capacity : ℕ) → IsValid (new {M = M} shard_id capacity)
  unfolding new is_disconnected
  new-IsValid shard_id capacity = ground arith

  -- A call keeps the invariant as long as `sender_count` does not wrap.
  pub step-IsValid :
      (o : Op M) (b : Mailbox M) → b.sender_count + 1 < word → IsValid b → IsValid (step o b).after
  unfolding step
  step-IsValid (trying_send m) b h v = try_send-IsValid m b v
  step-IsValid (polling_send m w) b h v = poll_send-IsValid m w b v
  step-IsValid trying_recv b h v = try_recv-IsValid b v
  step-IsValid (polling_recv w) b h v = poll_recv-IsValid w b v
  step-IsValid closing b h v = close_receiver-IsValid b v
  step-IsValid adding_sender b h v = add_sender-IsValid b h v
  step-IsValid dropping_sender b h v = drop_sender-IsValid b v
  step-IsValid closing_factory b h v = close_sender_factory-IsValid b v
  step-IsValid (dropping_send o) b h v = drop_send-IsValid o b v

  recv_from-sender_count :
      (q : List M) (b : Mailbox M) → (recv_from q b).after.sender_count ≡ b.sender_count
  unfolding try_recv
  recv_from-sender_count [] b = refl
  recv_from-sender_count (m ∷ rest) b = refl

  poll_recv_from-sender_count :
      (q : List M) (w : Waker) (b : Mailbox M)
      → (poll_recv_from q w b).after.sender_count ≡ b.sender_count
  unfolding poll_recv
  poll_recv_from-sender_count [] w b = ground arith
  poll_recv_from-sender_count (m ∷ rest) w b = refl

  pub step-sender_count :
      (o : Op M) (b : Mailbox M)
      → b.sender_count + 1 < word
      → (step o b).after.sender_count ≤ b.sender_count + 1
  unfolding step try_send poll_send try_recv poll_recv close_receiver add_sender drop_sender
      close_sender_factory drop_send
  step-sender_count trying_recv b h = omega (arith, recv_from-sender_count b.queue b)
  step-sender_count (polling_recv w) b h = omega (arith, poll_recv_from-sender_count b.queue w b)
  step-sender_count o b h = ground arith

  -- Take a mailbox that holds the invariant: at most `capacity` messages are queued, `sent` is
  -- `received` plus the number queued, a parked receiver has nothing to take while something can
  -- still come, and a closed receiver leaves no sender waiting. Every history of calls keeps it,
  -- as long as `sender_count` with one more for each call stays below 2^64.
  pub run-IsValid :
      (os : List (Op M)) (b : Mailbox M)
      → b.sender_count + length os < word
      → IsValid b
      → IsValid (run os b).after
  unfolding run
  run-IsValid [] b h v = v
  run-IsValid (o ∷ os) b h v =
      run-IsValid os (step o b).after (omega (arith, step-sender_count o b (omega arith)))
        (step-IsValid o b (omega arith) v)
