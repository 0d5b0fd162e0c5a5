-- ===== src/Stream/Wakeups.antt =====
-- crates/sitas-core/src/stream_reply.rs: the receiver of a stream misses no wake, in any order of
-- the accesses.
use mathlib.Core.Path.{subst}
use sitas.Common.{
  some, ℕ, ◌+◌, ◌<◌, ◌≡◌, ◌⊎◌, refl, sym, inl, inr, ◌&&◌, List, [], ◌∷◌, Waker, length, ltb, leb,
  word, Bool-cases, arith, ◌==◌,
}
use sitas.Stream.Delivery.{try_recv-cases, recv_batch-cases}
use sitas.Stream.{
  Session, Event, Phase, idle, parked, polling, checking, stream_channel, session, clone_sender,
  drop_reply, drain, look, looked, received_batch, look_again, resume, resume_from, receive, step,
  run, usize_max,
}
use sitas.Stream.Alerts.{
  Alert, Watched, keeps, count_more, accept-Watched, release-Watched, notify-Watched,
}

module _ {ℓ} {T : Type ℓ} where
  -- The event can occur: it takes a sender to send, to be cloned and to be dropped, and the count
  -- of senders does not wrap.
  abbrev Possible : Event T → Session T → Type 0
  Possible (Event.sent v) x = 0 < x.stream.sender_count
  Possible Event.cloned x = (0 < x.stream.sender_count) × (x.stream.sender_count + 1 < word)
  Possible Event.released x = 0 < x.stream.sender_count
  Possible e x = Unit

  unfoldable pub AllPossible : List (Event T) → Session T → Type 0
  AllPossible [] x = Unit
  AllPossible (e ∷ es) x = Possible e x × AllPossible es (step e x)

  look-Watched : (w : Waker) (x : Session T) → Watched x → Watched (look w x)
  unfolding look looked Alert drain
  look-Watched w x h = elim (try_recv-cases usize_max x.stream) [
    | inl e ↦
        subst (λ o. Watched (looked w o x)) (sym e)
          (record { at_start = h.at_start; counted = h.counted; alert = tt })
    | inr e ↦
        subst (λ o. Watched (looked w o x)) (sym e)
          (record { at_start = h.at_start; counted = h.counted; alert = tt })
  ]

  receive-Watched : (n : ℕ) (x : Session T) → Watched x → Watched (receive n x)
  unfolding receive received_batch Alert drain
  receive-Watched n x h = elim (recv_batch-cases n x.stream) [
    | inl e ↦
        subst (λ o. Watched (received_batch o x)) (sym e)
          (record { at_start = h.at_start; counted = h.counted; alert = tt })
    | inr (inl e) ↦
        subst (λ o. Watched (received_batch o x)) (sym e)
          (record { at_start = h.at_start; counted = h.counted; alert = tt })
    | inr (inr e) ↦
        subst (λ o. Watched (received_batch o x)) (sym e)
          (record { at_start = h.at_start; counted = h.counted; alert = tt })
  ]

  look_again-Watched : (w : Waker) (x : Session T) → Watched x → Watched (look_again w x)
  unfolding look_again Alert
  look_again-Watched w x h =
      elim (Bool-cases
        ((x.stream.sender_count == 0) && leb (length x.stream.values) x.stream.index)) [
          | inl e ↦ rw e (record { at_start = h.at_start; counted = h.counted; alert = tt })
          | inr e ↦ elim (Bool-cases (ltb x.stream.index (length x.stream.values))) [
            | inl f ↦ rw (e, f) (record { at_start = h.at_start; counted = h.counted; alert = tt })
            | inr f ↦
                rw (e, f)
                  (record {
                    at_start = h.at_start;
                    counted = h.counted;
                    alert =
                        inr (refl, refl, ground (arith, h.at_start), ground (arith, h.at_start));
                  })
          ]
        ]

  resume-Watched : (p : Phase) (x : Session T) → Watched x → Watched (resume_from p x)
  unfolding resume_from
  resume-Watched idle x h = h
  resume-Watched (parked w) x h = h
  resume-Watched (polling w) x h = look-Watched w x h
  resume-Watched (checking w) x h = look_again-Watched w x h

  step-Watched : (e : Event T) (x : Session T) → Possible e x → Watched x → Watched (step e x)
  unfolding step resume clone_sender drop_reply Alert
  step-Watched (Event.sent v) x p h = accept-Watched v x h
  step-Watched Event.cloned x p h = record {
    at_start = h.at_start;
    counted = omega (arith, p.1, count_more x.stream.sender_count p.1);
    alert =
        keeps x.phase x _
          (λ w a. elim a [
            | inl l ↦ inl l
            | inr l ↦ inr (l.0, l.1, l.2, omega (arith, count_more x.stream.sender_count p.1))
          ])
          h.alert;
  }
  step-Watched Event.released x p h = release-Watched x p h
  step-Watched Event.notified x p h = notify-Watched x h
  step-Watched Event.resumed x p h = resume-Watched x.phase x h
  step-Watched Event.dropped x p h = record {
    at_start = h.at_start;
    counted = h.counted;
    alert = keeps x.phase x _ (λ w a. a) h.alert;
  }
  step-Watched (Event.polled w) x p h = look-Watched w x h
  step-Watched (Event.received n) x p h = receive-Watched n x h

  run-Watched :
      (es : List (Event T)) (x : Session T) → AllPossible es x → Watched x → Watched (run es x)
  unfolding run AllPossible
  run-Watched [] x p h = h
  run-Watched (e ∷ es) x p h = run-Watched es (step e x) p.1 (step-Watched e x p.0 h)

  -- Take a new stream, and any sequence of sends, of clones and drops of senders in their single
  -- accesses, of polls of the receiver in theirs, of its blocking receives and of its drop, in
  -- which every call of a sender is one of a sender that is there and the senders are fewer than 2
  -- ^ 64. If the poll of the receiver has then returned `Pending` while a value waits or no sender
  -- is left, its waker was invoked since, exactly once, or it is registered and a dropped sender
  -- has still to invoke it.
  pub parked_stream_woken :
      (es : List (Event T)) (w : Waker)
      → AllPossible es session
      → let x = run es session in
        x.phase ≡ parked w
        → (0 < length x.stream.values) ⊎ (x.stream.sender_count ≡ 0)
        → (x.woken ≡ w ∷ []) ⊎ ((x.stream.waker ≡ some w) × (0 < x.owed))
  unfolding session stream_channel Alert
  parked_stream_woken es w p e due =
      let h =
        run-Watched es session p (record { at_start = refl; counted = omega arith; alert = tt }) in
      let a = subst (λ q. Alert q (run es session)) e h.alert in
      elim a [
        | inl l ↦ inl l.0
        | inr l ↦ elim due [
          | inl v ↦ inr (l.1, omega (arith, v, l.2))
          | inr z ↦ inr (l.1, omega (arith, l.3, z))
        ]
      ]
