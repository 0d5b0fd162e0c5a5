-- ===== src/Mailbox/Fifo.antt =====
-- What the mailbox of shard_mailbox.rs delivers: every accepted message, once and in order.
use sitas.Common.{◌≡◌, refl, sym, ◌∙◌, List, [], ◌∷◌, ◌++◌, append-nil, append_assoc, Waker, arith}
use sitas.Mailbox.{
  Mailbox, try_send, poll_send, try_recv, poll_recv, close_receiver, add_sender, drop_sender,
  close_sender_factory, drop_send, recv_from, poll_recv_from,
}
use sitas.Mailbox.History.{Op, trying_recv, polling_recv, step, run, received_of, drained_of}

module _ {ℓ} {M : Type ℓ} where
  recv_from-fifo :
      (q : List M) (b : Mailbox M)
      → b.queue ≡ q
      → received_of (recv_from q b).value ++ (recv_from q b).after.queue ≡ q
  unfolding try_recv
  recv_from-fifo [] b e = ground arith
  recv_from-fifo (m ∷ rest) b e = refl

  poll_recv_from-fifo :
      (q : List M) (w : Waker) (b : Mailbox M)
      → b.queue ≡ q
      → drained_of (poll_recv_from q w b).value ++ (poll_recv_from q w b).after.queue ≡ q
  unfolding poll_recv
  poll_recv_from-fifo [] w b e = ground arith
  poll_recv_from-fifo (m ∷ rest) w b e = refl

  -- One call takes from the front of the queue what it delivers, and puts at its end what it
  -- accepts.
  pub step-fifo :
      (o : Op M) (b : Mailbox M)
      → (step o b).delivered ++ (step o b).after.queue ≡ b.queue ++ (step o b).accepted
  unfolding step try_send poll_send try_recv poll_recv close_receiver add_sender drop_sender
      close_sender_factory drop_send
  step-fifo trying_recv b = recv_from-fifo b.queue b refl ∙ sym (append-nil b.queue)
  step-fifo (polling_recv w) b = poll_recv_from-fifo b.queue w b refl ∙ sym (append-nil b.queue)
  step-fifo o b = ground (arith, append-nil b.queue)

  -- Through every history of calls, from any mailbox, the messages delivered followed by those
  -- still queued are the messages queued at the start followed by those accepted: none is lost,
  -- doubled or reordered.
  pub run-fifo :
      (os : List (Op M)) (b : Mailbox M)
      → (run os b).delivered ++ (run os b).after.queue ≡ b.queue ++ (run os b).accepted
  unfolding run
  run-fifo [] b = sym (append-nil b.queue)
  run-fifo (o ∷ os) b =
      rw (append_assoc, run-fifo os (step o b).after, ← append_assoc, step-fifo o b)
        (append_assoc b.queue _ _)
