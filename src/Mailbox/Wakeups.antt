-- ===== src/Mailbox/Wakeups.antt =====
-- Who is woken by the calls of shard_mailbox.rs, and how the two ways to send and to receive agree.
use sitas.Common.{
  ◌+◌, ◌<◌, ◌≡◌, ap, sym, if◌then◌else◌, ◌≢◌, ◌⊎◌, refl, true, false, some, List, [], ◌∷◌, ◌++◌,
  err, ready, pending, Waker, Wakes, arith, length, is_empty, any, replicate, ◌==◌, word,
}
use sitas.Mailbox.{
  Mailbox, full, RecvError, is_disconnected, try_send, poll_send, try_recv, close_receiver,
  add_sender, drop_sender, close_sender_factory, drop_send, recv_from,
}
use sitas.Mailbox.History.{
  Op, trying_send, polling_send, trying_recv, polling_recv, closing, adding_sender, dropping_sender,
  closing_factory, dropping_send, step, run, received_of,
}
use mathlib.Core.Path.{subst}
use sitas.Mailbox.Invariant.{IsValid}

abbrev pub Woken : Waker → Wakes → Type 0
Woken w ws = any (λ x. x == w) ws ≡ true

-- The receiver's `poll` would not return `Pending`.
abbrev pub CanReceive {ℓ} : {M : Type ℓ} → Mailbox M → Type 0
CanReceive b = (is_empty b.queue ≡ false) ⊎ (is_disconnected b ≡ true)

-- Not a poll of the receiver's own future.
abbrev pub FromElsewhere {ℓ} : {M : Type ℓ} → Op M → Type 0
FromElsewhere (polling_recv w) = ⊥
FromElsewhere o = Unit

module _ {ℓ} {M : Type ℓ} where
  -- While the receiver is parked, a call of `try_recv` finds nothing and changes nothing.
  recv_from_parked :
      (q : List M) (b : Mailbox M)
      → b.queue ≡ q
      → q ≡ []
      → is_disconnected b ≡ false
      → ¬ CanReceive (recv_from q b).after
  unfolding try_recv
  recv_from_parked [] b e n d c = ground arith
  recv_from_parked (m ∷ rest) b e n d c = cc

  parked-facts :
      (b : Mailbox M) (w : Waker)
      → IsValid b
      → b.recv_waker ≡ some w
      → (b.queue ≡ []) × (is_disconnected b ≡ false)
  parked-facts b w v p = ground arith

  -- Let the receiver of a valid mailbox be parked with waker `w`. If a call other than a poll of
  -- that receiver's own future leaves a message in the queue, or leaves the mailbox disconnected,
  -- then the call wakes `w`. `sender_count` must not wrap.
  pub step_wakes_receiver :
      (o : Op M) (b : Mailbox M) (w : Waker)
      → IsValid b
      → b.sender_count + 1 < word
      → b.recv_waker ≡ some w
      → FromElsewhere o
      → CanReceive (step o b).after
      → Woken w (step o b).wakes
  unfolding step try_send poll_send close_receiver add_sender drop_sender close_sender_factory
      drop_send is_disconnected try_recv
  step_wakes_receiver (trying_send m) b w v h p e c = ground arith
  step_wakes_receiver (polling_send m x) b w v h p e c = ground arith
  step_wakes_receiver trying_recv b w v h p e c =
      let f = parked-facts b w v p in absurd (recv_from_parked b.queue b refl f.0 f.1 c)
  step_wakes_receiver (polling_recv x) b w v h p e c = absurd e
  step_wakes_receiver closing b w v h p e c = ground arith
  step_wakes_receiver adding_sender b w v h p e c = ground arith
  step_wakes_receiver dropping_sender b w v h p e c = ground arith
  step_wakes_receiver closing_factory b w v h p e c = ground arith
  step_wakes_receiver (dropping_send o) b w v h p e c = ground arith

  -- On a valid mailbox `poll_send` does what `try_send` does, with the same value, state and
  -- wakes, except where `try_send` reports `Full`: there the poll is pending, its waker joins the
  -- end of the waiting senders, nothing else changes, and nobody is woken.
  pub poll_send-try_send :
      (m : M) (w : Waker) (b : Mailbox M)
      → IsValid b
      → ((try_send m b).value ≡ err (full m))
          × ((poll_send m w b).value ≡ pending)
          × ((poll_send m w b).after ≡ record b { send_wakers = b.send_wakers ++ w ∷ [] })
          × ((poll_send m w b).wakes ≡ [])
        ⊎ ((try_send m b).value ≢ err (full m))
          × ((poll_send m w b).value ≡ ready (try_send m b).value)
          × ((poll_send m w b).after ≡ (try_send m b).after)
          × ((poll_send m w b).wakes ≡ (try_send m b).wakes)
  unfolding try_send poll_send
  poll_send-try_send m w b v = ground arith

  -- Taking messages until there are none delivers the whole queue in order, closed or not.
  drain-queue :
      (q : List M) (b : Mailbox M)
      → b.queue ≡ q
      → let t = run (replicate (length q) trying_recv) b in
        (t.delivered ≡ q) × (t.after.queue ≡ []) × (is_disconnected t.after ≡ is_disconnected b)
  unfolding run step try_recv
  drain-queue [] b e = ground arith
  drain-queue (m ∷ rest) b e =
      let ih = drain-queue rest (recv_from (m ∷ rest) b).after refl in
      subst
        (λ q.
          let c = recv_from q b in
          let r = run (replicate (length rest) trying_recv) c.after in
          (received_of c.value ++ r.delivered ≡ m ∷ rest)
          × (r.after.queue ≡ [])
          × (is_disconnected r.after ≡ is_disconnected b))
        (sym e) (ap (◌∷◌ m) ih.0, ih.1, ih.2)

  recv_from_empty :
      (q : List M) (b : Mailbox M)
      → q ≡ []
      → (recv_from q b).value
        ≡ (if is_disconnected b then err RecvError.closed else err RecvError.empty)
  unfolding try_recv
  recv_from_empty [] b e = refl
  recv_from_empty (m ∷ rest) b e = cc

  -- As many calls of `try_recv` as messages are queued deliver exactly the queue, in order, also
  -- after the mailbox was closed. The next call reports `Closed` if the mailbox was disconnected
  -- at the start, and `Empty` if not.
  pub drain_then_report :
      (b : Mailbox M)
      → let t = run (replicate (length b.queue) trying_recv) b in
        (t.delivered ≡ b.queue)
        × ((try_recv t.after).value
            ≡ (if is_disconnected b then err RecvError.closed else err RecvError.empty))
  unfolding try_recv
  drain_then_report b =
      let d = drain-queue b.queue b refl in
      (
        d.0,
        rw (← d.2) (recv_from_empty _ (run (replicate (length b.queue) trying_recv) b).after d.1),
      )

  -- Take an open mailbox of capacity 1 with one message queued and no sender waiting. Let the
  -- sends with the wakers `c` and `a` wait, let the second be dropped, which wakes the first, and
  -- let the first be polled again while the mailbox is still full. The next receive then empties
  -- the queue and wakes only `a`, whose send is gone; the send with the waker `c` still waits.
  pub strands_sender :
      (b : Mailbox M) (m m' n : M) (a c : Waker)
      → b.receiver_closed ≡ false
      → b.capacity ≡ 1
      → b.queue ≡ m ∷ []
      → b.send_wakers ≡ []
      → let parked =
          (run
            (polling_send m' c ∷ polling_send n a ∷ dropping_send (some n) ∷ polling_send m' c ∷ [])
            b).after in
        let t = step trying_recv parked in
        (t.wakes ≡ a ∷ []) × (t.after.queue ≡ []) × (t.after.send_wakers ≡ c ∷ [])
  unfolding run step poll_send drop_send try_recv
  strands_sender b m m' n a c h k q s = ground arith
