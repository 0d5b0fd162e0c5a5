-- ===== src/Channel/Race.antt =====
-- A message of shard_runtime.rs that is accepted and not delivered before the end of the channel.
use sitas.Common.{suc, ◌-◌, ◌<◌, ◌≡◌, inl, inr, refl, true, false, [], ◌∷◌, ◌++◌, ok, Waker, arith}
use sitas.Ring.{len}
use sitas.Ring.Queue.{try_push_lem, len_lem}
use sitas.Channel.{Channel, checking_closed, idle, checks, pushes, closes, polls, step, run}
use sitas.Channel.Wakes.{Carries}

module _ {ℓ} {M : Type ℓ} where
  -- Let the receiver of an open channel, with an empty queue and room for a message, have found no
  -- message and not looked at the closed flag yet. If now a sender finds the channel open and
  -- pushes a message, which is accepted, and the channel is closed, then the poll reports the end
  -- while the message is in the queue.
  pub end_before_message :
      (m : M) (w : Waker) (s : Channel M)
      → Carries s []
      → 1 < s.queue.capacity
      → s.phase ≡ checking_closed
      → s.closed ≡ false
      → (t : Channel M) × (run (checks ∷ pushes m ∷ closes ∷ polls w ∷ []) s ≡ ok t)
        × (t.ended ≡ true)
        × (t.accepted ≡ s.accepted ++ m ∷ [])
        × (t.received ≡ s.received)
        × (len t.queue ≡ 1)
  unfolding run step
  end_before_message m w s v h p c = elim (try_push_lem m s.queue [] v.represented) [
    | inl (fits, (r, e, q, k)) ↦ (
      record s {
        queue = r;
        closed = true;
        cleared = suc s.cleared - 1;
        owed = suc (suc s.owed);
        phase = idle;
        ended = true;
        accepted = s.accepted ++ m ∷ [];
      },
      ground (arith, e, p, c),
      refl,
      refl,
      refl,
      len_lem r (m ∷ []) q,
    )
    | inr (full, e) ↦ absurd (omega arith)
  ]
