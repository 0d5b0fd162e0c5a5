-- ===== src/Channel/Protocol.antt =====
-- The receiver of a channel of shard_runtime.rs misses no wake, in any order of the accesses.
use sitas.Common.{
  ℕ, ◌<◌, ◌≤◌, ◌^◌, ◌≡◌, ◌⊎◌, ◌∙◌, inl, inr, refl, sym, ap, true, false, List, [], ◌∷◌, ok, err,
  arith, is_empty, if◌then◌else◌, ltb_of_le,
}
use mathlib.Core.Path.{subst}
use sitas.Ring.{len}
use sitas.Ring.Queue.{len_lem, bounded-Represents}
use sitas.Channel.{parked, Channel, Event, new, channel, invalid_capacity, run, and_then}
use sitas.Channel.Wakes.{is_some, Carries, parked-Watched}
use sitas.Channel.Accesses.{step-Carries, ok-injective}

module _ {ℓ} {M : Type ℓ} where
  -- Take a channel whose ring represents a queue of messages, where the messages received and then
  -- those queued are the accepted ones; where a waker that the poll registered is still there or
  -- was invoked; and where what came after the last look of that poll is announced by a wake made
  -- or still owed. Through every sequence of the accesses of its receiver, its senders and those
  -- who close it, no access of the ring faults, and the same holds of the channel that is left,
  -- with the queue that is then left.
  pub run-Carries :
      (es : List (Event M)) (s : Channel M) (xs : List M)
      → Carries s xs
      → (t : Channel M) × (ys : List M) × (run es s ≡ ok t) × Carries t ys
  unfolding run
  run-Carries [] s xs v = (s, xs, refl, v)
  run-Carries (e ∷ es) s xs v =
      let (t, ys, q, w) = step-Carries e s xs v in
      let (u, zs, q', w') = run-Carries es t ys w in
      (u, zs, ap (λ r. and_then r (run es)) q ∙ q', w')

  channel-Carries :
      (capacity : ℕ) (s : Channel M)
      → 2 ≤ capacity
      → capacity ≤ 2 ^ 63
      → channel capacity ≡ ok s
      → Carries s []
  unfolding channel
  channel-Carries capacity s h k e =
      subst (λ t. Carries t [])
        (ok-injective (
          sym (
            ap (λ b. if b then err invalid_capacity else ok (new capacity))
              (ltb_of_le capacity 2 h))
          ∙ e))
        (record {
          represented = bounded-Represents capacity (omega arith) k;
          ordered = refl;
          registered = tt;
          watched = tt;
        })

  holds_message :
      (s : Channel M) (xs : List M) → Carries s xs → 0 < len s.queue → is_empty xs ≡ false
  holds_message s [] v h = absurd (omega (arith, len_lem s.queue [] v.represented))
  holds_message s (x ∷ xs) v h = refl

  -- Take a new channel of a capacity between 2 and 2^63, and any sequence of the accesses of its
  -- receiver, its senders and those who close it. If then the poll of the receiver has returned
  -- `Pending` while a message is queued or the channel is closed, its waker was invoked since it
  -- was registered, or it is registered and some sender or closer still has to invoke it.
  pub parked_receiver_woken :
      (capacity : ℕ) (es : List (Event M)) (s t : Channel M)
      → 2 ≤ capacity
      → capacity ≤ 2 ^ 63
      → channel capacity ≡ ok s
      → run es s ≡ ok t
      → t.phase ≡ parked
      → (0 < len t.queue) ⊎ (t.closed ≡ true)
      → (t.woken ≡ true) ⊎ (0 < t.owed) × (is_some t.recv_waker ≡ true)
  parked_receiver_woken capacity es s t h k e r p c =
      let (u, ys, q, w) = run-Carries es s [] (channel-Carries capacity s h k e) in
      let v : Carries t ys = subst (λ x. Carries x ys) (ok-injective (sym q ∙ r)) w in
      parked-Watched t.phase t.recv_waker (is_empty ys) t.closed t.woken t.owed p v.registered
        v.watched (elim c [ inl n ↦ inl (holds_message t ys v n) | inr n ↦ inr n ])
