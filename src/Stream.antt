-- ===== src/Stream.antt =====
-- crates/sitas-core/src/stream_reply.rs: many values from the senders of a stream to one receiver.
-- A mutex guards the values; the count of senders is an atomic beside it.
pub mod Alerts
pub mod Delivery
pub mod Wakeups
mod Tests
use sitas.Common.{
  ℕ, suc, ◌+◌, ◌-◌, Bool, true, false, ◌&&◌, not, Option, none, some, List, [], ◌∷◌, ◌++◌, Result,
  ok, err, Poll, ready, pending, Waker, Wakes, option_to_list, length, take, drop, min, ltb, leb,
  word, add_word, ◌==◌, if◌then◌else◌,
}

pub data StreamError : Type 0 where
  sender_dropped receiver_dropped : StreamError

-- `StreamShared` with the state behind its mutex, and `index` of the receiver.
pub record Stream {ℓ} (T : Type ℓ) : Type ℓ where
  pub values : List T
  pub finished : Bool
  pub waker : Option Waker
  pub sender_count : ℕ
  pub index : ℕ

-- What a call returns: its value, the state it leaves and the wakers it invokes.
pub record Outcome {ℓ κ} (R : Type κ) (T : Type ℓ) : Type (ℓ ⊔ κ) where
  pub value : R
  pub after : Stream T
  pub wakes : Wakes

module _ {ℓ} {T : Type ℓ} where
  unfoldable pub stream_channel : Stream T
  stream_channel = record {
    values = [];
    finished = false;
    waker = none;
    sender_count = 1;
    index = 0;
  }

  unfoldable pub send : T → Stream T → Outcome {ℓ, 0} (Result {0, 0} Unit StreamError) T
  send v s =
      if s.finished
      then record { value = err receiver_dropped; after = s; wakes = [] }
      else record {
        value = ok tt;
        after = record s { values = s.values ++ v ∷ []; waker = none };
        wakes = option_to_list s.waker;
      }

  -- `Clone for StreamSender`
  unfoldable pub clone_sender : Stream T → Stream T
  clone_sender s = record s { sender_count = add_word s.sender_count 1 }

  -- `Drop for StreamSender`, in two accesses: the count, and for the last sender the waker.
  unfoldable pub release_sender : Stream T → Bool × Stream T
  release_sender s =
      (s.sender_count == 1, record s { sender_count = add_word s.sender_count (word - 1) })

  unfoldable pub wake_receiver : Stream T → Outcome {ℓ, 0} Unit T
  wake_receiver s = record {
    value = tt;
    after = record s { waker = none };
    wakes = option_to_list s.waker;
  }

  -- `values.drain(index..index + count)`, for at most `max_items` values.
  unfoldable pub drain : ℕ → Stream T → List T × Stream T
  drain max_items s =
      let count = min (length s.values - s.index) max_items in
      (
        take count (drop s.index s.values),
        record s { values = take s.index s.values ++ drop (s.index + count) s.values },
      )

  -- One look of the loop of `recv_batch`; `pending` is the wait on the condition variable.
  unfoldable pub recv_batch : ℕ → Stream T → Poll (List T) × Stream T
  recv_batch max_items s =
      let drained = drain max_items s in
      let ended : Poll (List T) × Stream T =
        if s.sender_count == 0 then (ready [], record s { finished = true }) else (pending, s) in
      let found : Poll (List T) × Stream T = (ready drained.0, drained.1) in
      if ltb s.index (length s.values) then found else ended

  unfoldable pub try_recv : ℕ → Stream T → Option (List T) × Stream T
  try_recv max_items s =
      let drained = drain max_items s in
      let found : Option (List T) × Stream T = (some drained.0, drained.1) in
      if ltb s.index (length s.values) then found else (none, s)

  unfoldable pub is_done : Stream T → Bool
  is_done s = (s.sender_count == 0) && leb (length s.values) s.index

  -- `Drop for StreamReply`
  unfoldable pub drop_reply : Stream T → Stream T
  drop_reply s = record s { finished = true }

abbrev pub usize_max : ℕ
usize_max = word - 1

-- Where the poll of a `StreamBatch` stands: it starts, it found no value and has to look again, it
-- returned `Pending`, or it returned `Ready`.
pub data Phase : Type 0 where
  idle : Phase
  polling checking parked : Waker → Phase

-- A stream with the accesses to it: the poll of the receiver, the last senders that still have to
-- wake it, the values accepted and delivered, and the wakers invoked since the poll began.
pub record Session {ℓ} (T : Type ℓ) : Type ℓ where
  pub stream : Stream T
  pub phase : Phase
  pub owed : ℕ
  pub accepted : List T
  pub delivered : List T
  pub woken : Wakes

pub data Event {ℓ} (T : Type ℓ) : Type ℓ where
  sent : T → Event T
  cloned released notified resumed dropped : Event T
  polled : Waker → Event T
  received : ℕ → Event T

module _ {ℓ} {T : Type ℓ} where
  unfoldable pub session : Session T
  unfolding stream_channel
  session = record {
    stream = stream_channel;
    phase = idle;
    owed = 0;
    accepted = [];
    delivered = [];
    woken = [];
  }

  unfoldable pub accept : T → Session T → Session T
  accept v x =
      let out = send v x.stream in
      let accepted : List T = elim out.value [ ok u ↦ x.accepted ++ v ∷ [] | err e ↦ x.accepted ] in
      record x { stream = out.after; accepted = accepted; woken = x.woken ++ out.wakes }

  unfoldable pub release : Session T → Session T
  release x =
      let out = release_sender x.stream in
      record x { stream = out.1; owed = if out.0 then suc x.owed else x.owed }

  unfoldable pub notify : Session T → Session T
  notify x =
      if x.owed == 0
      then x
      else let out = wake_receiver x.stream in
        record x { stream = out.after; owed = x.owed - 1; woken = x.woken ++ out.wakes }

  looked : Waker → Option (List T) × Stream T → Session T → Session T
  looked w out x = elim out.0 [
    | some batch ↦ record x {
      stream = out.1;
      phase = idle;
      delivered = x.delivered ++ batch;
      woken = [];
    }
    | none ↦ record x { stream = out.1; phase = checking w; woken = [] }
  ]

  -- `StreamBatch::poll`: `try_recv`, under the lock for the first time.
  unfoldable pub look : Waker → Session T → Session T
  unfolding looked
  look w x = looked w (try_recv usize_max x.stream) x

  -- Under the lock for the second time: the end, another round, or the waker and `Pending`.
  unfoldable pub look_again : Waker → Session T → Session T
  look_again w x =
      if (x.stream.sender_count == 0) && leb (length x.stream.values) x.stream.index
      then record x { phase = idle }
      else if ltb x.stream.index (length x.stream.values)
      then record x { phase = polling w }
      else record x { stream = record x.stream { waker = some w }; phase = parked w; woken = [] }

  resume_from : Phase → Session T → Session T
  resume_from idle x = x
  resume_from (parked w) x = x
  resume_from (polling w) x = look w x
  resume_from (checking w) x = look_again w x

  -- The poll goes on where it stands.
  unfoldable pub resume : Session T → Session T
  unfolding resume_from
  resume x = resume_from x.phase x

  received_batch : Poll (List T) × Stream T → Session T → Session T
  received_batch out x = elim out.0 [
    | ready batch ↦ record x { stream = out.1; phase = idle; delivered = x.delivered ++ batch }
    | pending ↦ record x { stream = out.1; phase = idle }
  ]

  -- The receiver calls `recv_batch`, which it can while no poll is under way.
  unfoldable pub receive : ℕ → Session T → Session T
  unfolding received_batch
  receive n x = received_batch (recv_batch n x.stream) x

  unfoldable pub step : Event T → Session T → Session T
  step (sent v) x = accept v x
  step cloned x = record x { stream = clone_sender x.stream }
  step released x = release x
  step notified x = notify x
  step resumed x = resume x
  step dropped x = record x { stream = drop_reply x.stream }
  step (polled w) x = look w x
  step (received n) x = receive n x

  unfoldable pub run : List (Event T) → Session T → Session T
  run [] x = x
  run (e ∷ es) x = run es (step e x)
