-- ===== src/Mailbox/History.antt =====
-- crates/sitas-core/src/shard_mailbox.rs: histories of calls on one mailbox.
use sitas.Common.{Option, List, [], ◌∷◌, ◌++◌, Result, ok, err, Poll, ready, pending, Waker, Wakes}
use sitas.Mailbox.{
  Mailbox, Call, SendError, RecvError, try_send, try_recv, poll_recv, close_receiver, drop_sender,
  close_sender_factory, poll_send, drop_send, add_sender,
}

-- The calls that reach one mailbox, in the order in which they take its lock.
pub data Op {ℓ} (M : Type ℓ) : Type ℓ where
  trying_send : M → Op M
  polling_send : M → Waker → Op M
  trying_recv : Op M
  polling_recv : Waker → Op M
  closing : Op M
  adding_sender : Op M
  dropping_sender : Op M
  closing_factory : Op M
  dropping_send : Option M → Op M

-- What one call leaves, whom it wakes, and the message that it accepts or delivers.
pub record Trace {ℓ} (M : Type ℓ) : Type ℓ where
  pub after : Mailbox M
  pub wakes : Wakes
  pub accepted : List M
  pub delivered : List M

module _ {ℓ} {M : Type ℓ} where
  abbrev pub sent_of : M → Result (Unit {ℓ}) (SendError M) → List M
  sent_of m (ok u) = m ∷ []
  sent_of m (err e) = []

  abbrev pub polled_of : M → Poll (Result (Unit {ℓ}) (SendError M)) → List M
  polled_of m (ready r) = sent_of m r
  polled_of m pending = []

  abbrev pub received_of : Result M RecvError → List M
  received_of (ok m) = m ∷ []
  received_of (err e) = []

  abbrev pub drained_of : Poll (Result M RecvError) → List M
  drained_of (ready r) = received_of r
  drained_of pending = []

  quietly : Call M (Unit {ℓ}) → Trace M
  quietly c = record { after = c.after; wakes = c.wakes; accepted = []; delivered = [] }

  unfoldable pub step : Op M → Mailbox M → Trace M
  unfolding quietly
  step (trying_send m) b =
      let c = try_send m b in
      record { after = c.after; wakes = c.wakes; accepted = sent_of m c.value; delivered = [] }
  step (polling_send m w) b =
      let c = poll_send m w b in
      record { after = c.after; wakes = c.wakes; accepted = polled_of m c.value; delivered = [] }
  step trying_recv b =
      let c = try_recv b in
      record { after = c.after; wakes = c.wakes; accepted = []; delivered = received_of c.value }
  step (polling_recv w) b =
      let c = poll_recv w b in
      record { after = c.after; wakes = c.wakes; accepted = []; delivered = drained_of c.value }
  step closing b = quietly (close_receiver b)
  step adding_sender b = record { after = add_sender b; wakes = []; accepted = []; delivered = [] }
  step dropping_sender b = quietly (drop_sender b)
  step closing_factory b = quietly (close_sender_factory b)
  step (dropping_send m) b = quietly (drop_send m b)

  unfoldable pub run : List (Op M) → Mailbox M → Trace M
  run [] b = record { after = b; wakes = []; accepted = []; delivered = [] }
  run (o ∷ os) b =
      let t = step o b in
      let r = run os t.after in
      record {
        after = r.after;
        wakes = t.wakes ++ r.wakes;
        accepted = t.accepted ++ r.accepted;
        delivered = t.delivered ++ r.delivered;
      }
