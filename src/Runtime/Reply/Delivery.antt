-- ===== src/Runtime/Reply/Delivery.antt =====
-- crates/sitas-core/src/runtime.rs: what the receiver of a reply gets, whether it waits or is
-- polled.
use sitas.Common.{
  ◌⊎◌, inl, inr, Option-cases, ℕ, append-nil, ◌≡◌, refl, true, Option, none, some, List, [], ◌∷◌,
  ok, err, ready, Waker, option_to_list, arith,
}
use sitas.Runtime.Config.{reply_failed}
use sitas.Runtime.Reply.{
  ReplyState, reply_channel, send, fill, drop_sender, wait, poll_reply, wait_timeout, try_wait,
}

-- The last of the wakers, or the one before them.
unfoldable pub last_waker : Option Waker → List Waker → Option Waker
last_waker w [] = w
last_waker w (v ∷ vs) = last_waker (some v) vs

module _ {ℓ} {V : Type ℓ} where
  -- Polls of one reply, one after the other.
  unfoldable pub poll_all : List Waker → ReplyState V → ReplyState V
  poll_all [] r = r
  poll_all (w ∷ ws) r = poll_all ws (poll_reply w r).1

  abbrev waiting : Option Waker → ReplyState V
  waiting w = record { value = none; sender_alive = true; waker = w }

  poll_all-waiting :
      (ws : List Waker) (w : Option Waker) → poll_all ws (waiting w) ≡ waiting (last_waker w ws)
  unfolding poll_all last_waker poll_reply
  poll_all-waiting [] w = refl
  poll_all-waiting (v ∷ ws) w = poll_all-waiting ws (some v)

  -- Let a new reply be polled any number of times. A `send` then succeeds and wakes the waker of
  -- the last poll, and no other. The next poll returns the value, and every way to ask after that
  -- reports `ReplyFailed`.
  pub send-poll_all :
      (v : V) (ws : List Waker) (w w' : Waker) (now deadline : ℕ)
      → let sent = send v (poll_all ws reply_channel) in
        let polled = poll_reply w sent.after in
        (sent.result ≡ ok tt)
        × (sent.wakes ≡ option_to_list (last_waker none ws))
        × (polled.0 ≡ ready (ok v))
        × ((poll_reply w' polled.1).0 ≡ ready (err reply_failed))
        × ((wait polled.1).0 ≡ ready (err reply_failed))
        × ((wait_timeout now deadline polled.1).0 ≡ ready (err reply_failed))
        × ((try_wait polled.1).0 ≡ err reply_failed)
  unfolding send fill drop_sender reply_channel poll_reply wait wait_timeout try_wait
  send-poll_all v ws w w' now deadline =
      rw (poll_all-waiting ws none) (refl, append-nil _, refl, refl, refl, refl, refl)

  -- Let a new reply be polled any number of times, and its sender be dropped without a value. The
  -- drop wakes the waker of the last poll, and no other; and every way to ask after that reports
  -- `ReplyFailed`.
  pub drop_sender-poll_all :
      (ws : List Waker) (w : Waker) (now deadline : ℕ)
      → let dropped = drop_sender {V = V} (poll_all ws reply_channel) in
        (dropped.wakes ≡ option_to_list (last_waker none ws))
        × ((poll_reply w dropped.after).0 ≡ ready (err reply_failed))
        × ((wait dropped.after).0 ≡ ready (err reply_failed))
        × ((wait_timeout now deadline dropped.after).0 ≡ ready (err reply_failed))
        × ((try_wait dropped.after).0 ≡ err reply_failed)
  unfolding drop_sender reply_channel poll_reply wait wait_timeout try_wait
  drop_sender-poll_all ws w now deadline =
      rw (poll_all-waiting ws none) (refl, refl, refl, refl, refl)

  -- What a `send` leaves in the slot is its value or what stood there.
  pub value-send :
      (v u : V) (r : ReplyState V) → (send v r).after.value ≡ some u → (v ≡ u) ⊎ (r.value ≡ some u)
  unfolding send fill drop_sender
  value-send v u r h = elim (Option-cases r.value) [ inl e ↦ inl (cc) | inr p ↦ inr (ground arith) ]

  -- A look at the slot leaves nothing in it that was not there.
  pub value-wait : (u : V) (r : ReplyState V) → (wait r).1.value ≡ some u → r.value ≡ some u
  unfolding wait
  value-wait u r h = ground arith

  -- What a look returns stood in the slot.
  pub ready-wait : (v : V) (r : ReplyState V) → (wait r).0 ≡ ready (ok v) → r.value ≡ some v
  unfolding wait
  ready-wait v r h = ground arith

  -- After a `send` the slot holds a value, and a look at it returns that value.
  pub send-fills : (v : V) (r : ReplyState V) → (u : V) × ((send v r).after.value ≡ some u)
  unfolding send fill drop_sender
  send-fills v r = elim (Option-cases r.value) [
    | inl e ↦ (v, ground arith)
    | inr (u, e) ↦ (u, ground arith)
  ]

  pub wait_filled : (v : V) (r : ReplyState V) → r.value ≡ some v → (wait r).0 ≡ ready (ok v)
  unfolding wait
  wait_filled v r h = ground arith
