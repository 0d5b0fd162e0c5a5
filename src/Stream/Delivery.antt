-- ===== src/Stream/Delivery.antt =====
-- crates/sitas-core/src/stream_reply.rs: what the receiver of a stream gets.
use mathlib.Core.Path.{subst}
use sitas.Common.{
  ℕ, zero, suc, ◌+◌, ◌-◌, ◌≡◌, refl, sym, ap, ◌∙◌, inl, inr, ◌⊎◌, true, ◌&&◌, none, some, List, [],
  ◌∷◌, ◌++◌, ready, pending, length, take, drop, min, ltb, append-nil, append_assoc, Waker,
  Bool-cases, arith, ◌==◌, leb,
}
use sitas.Stream.{
  Stream, Session, Event, Phase, idle, parked, polling, checking, stream_channel, session, send,
  clone_sender, release_sender, drop_reply, wake_receiver, drain, recv_batch, try_recv, accept,
  release, notify, look, looked, received_batch, look_again, resume, resume_from, receive, step,
  run, usize_max,
}

module _ {ℓ} {T : Type ℓ} where
  take-append-drop : (n : ℕ) (xs : List T) → take n xs ++ drop n xs ≡ xs
  take-append-drop zero xs = refl
  take-append-drop (suc n) [] = refl
  take-append-drop (suc n) (x ∷ xs) = ap (◌∷◌ x) (take-append-drop n xs)

  -- The receiver reads from the start, and what it got and what is left are the accepted values.
  pub record Carries (x : Session T) : Type ℓ where
    pub at_start : x.stream.index ≡ 0
    pub carried : x.delivered ++ x.stream.values ≡ x.accepted

  drain-values :
      (n : ℕ) (s : Stream T)
      → s.index ≡ 0
      → ((drain n s).0 ++ (drain n s).1.values ≡ s.values) × ((drain n s).1.index ≡ 0)
  unfolding drain
  drain-values n s z = (subst (λ i. Split i) (sym z) at_zero, z)
    where
      count : ℕ
      count = min (length s.values - s.index) n

      Split : ℕ → Type ℓ
      Split i =
          take count (drop i s.values) ++ (take i s.values ++ drop (i + count) s.values) ≡ s.values

      zero_count : count ≡ 0 + count
      zero_count = omega arith

      at_zero : Split 0
      at_zero =
          subst (λ c. take count s.values ++ drop c s.values ≡ s.values) zero_count
            (take-append-drop count s.values)

  accept-Carries : (v : T) (x : Session T) → Carries x → Carries (accept v x)
  unfolding accept send
  accept-Carries v x h = elim (Bool-cases x.stream.finished) [
    | inl e ↦ rw e (record { at_start = h.at_start; carried = h.carried })
    | inr e ↦ rw e (record {
      at_start = h.at_start;
      carried =
          sym (append_assoc x.delivered x.stream.values (v ∷ []))
          ∙ ap (λ xs. xs ++ v ∷ []) h.carried;
    })
  ]

  pub try_recv-cases :
      (n : ℕ) (s : Stream T)
      → (try_recv n s ≡ (some (drain n s).0, (drain n s).1)) ⊎ (try_recv n s ≡ (none, s))
  unfolding try_recv
  try_recv-cases n s = elim (Bool-cases (ltb s.index (length s.values))) [
    | inl e ↦ inl (rw e refl)
    | inr e ↦ inr (rw e refl)
  ]

  pub recv_batch-cases :
      (n : ℕ) (s : Stream T)
      → (recv_batch n s ≡ (ready (drain n s).0, (drain n s).1))
        ⊎ ((recv_batch n s ≡ (ready [], record s { finished = true }))
            ⊎ (recv_batch n s ≡ (pending, s)))
  unfolding recv_batch
  recv_batch-cases n s = elim (Bool-cases (ltb s.index (length s.values))) [
    | inl e ↦ inl (rw e refl)
    | inr e ↦ elim (Bool-cases (s.sender_count == 0)) [
      | inl f ↦ inr (inl (rw (e, f) refl))
      | inr f ↦ inr (inr (rw (e, f) refl))
    ]
  ]

  -- What is drained comes next.
  drained-Carries :
      (n : ℕ) (x : Session T)
      → Carries x
      → ((drain n x.stream).1.index ≡ 0)
        × ((x.delivered ++ (drain n x.stream).0) ++ (drain n x.stream).1.values ≡ x.accepted)
  drained-Carries n x h =
      let d = drain-values n x.stream h.at_start in
      (
        d.1,
        append_assoc x.delivered (drain n x.stream).0 (drain n x.stream).1.values
            ∙ ap (λ xs. x.delivered ++ xs) d.0
            ∙ h.carried,
      )

  look-Carries : (w : Waker) (x : Session T) → Carries x → Carries (look w x)
  unfolding look looked
  look-Carries w x h = elim (try_recv-cases usize_max x.stream) [
    | inl e ↦
        let d = drained-Carries usize_max x h in
        subst (λ o. Carries (looked w o x)) (sym e) (record { at_start = d.0; carried = d.1 })
    | inr e ↦
        subst (λ o. Carries (looked w o x)) (sym e)
          (record { at_start = h.at_start; carried = h.carried })
  ]

  receive-Carries : (n : ℕ) (x : Session T) → Carries x → Carries (receive n x)
  unfolding receive received_batch
  receive-Carries n x h = elim (recv_batch-cases n x.stream) [
    | inl e ↦
        let d = drained-Carries n x h in
        subst (λ o. Carries (received_batch o x)) (sym e) (record { at_start = d.0; carried = d.1 })
    | inr (inl e) ↦
        subst (λ o. Carries (received_batch o x)) (sym e)
          (record {
            at_start = h.at_start;
            carried = ap (λ xs. xs ++ x.stream.values) (append-nil x.delivered) ∙ h.carried;
          })
    | inr (inr e) ↦
        subst (λ o. Carries (received_batch o x)) (sym e)
          (record { at_start = h.at_start; carried = h.carried })
  ]

  look_again-Carries : (w : Waker) (x : Session T) → Carries x → Carries (look_again w x)
  unfolding look_again
  look_again-Carries w x h =
      elim (Bool-cases
        ((x.stream.sender_count == 0) && leb (length x.stream.values) x.stream.index)) [
          | inl e ↦ rw e (record { at_start = h.at_start; carried = h.carried })
          | inr e ↦ elim (Bool-cases (ltb x.stream.index (length x.stream.values))) [
            | inl f ↦ rw (e, f) (record { at_start = h.at_start; carried = h.carried })
            | inr f ↦ rw (e, f) (record { at_start = h.at_start; carried = h.carried })
          ]
        ]

  resume-Carries : (p : Phase) (x : Session T) → Carries x → Carries (resume_from p x)
  unfolding resume_from
  resume-Carries idle x h = h
  resume-Carries (parked w) x h = h
  resume-Carries (polling w) x h = look-Carries w x h
  resume-Carries (checking w) x h = look_again-Carries w x h

  step-Carries : (e : Event T) (x : Session T) → Carries x → Carries (step e x)
  unfolding step resume notify wake_receiver release release_sender clone_sender drop_reply
  step-Carries (Event.sent v) x h = accept-Carries v x h
  step-Carries Event.cloned x h = record { at_start = h.at_start; carried = h.carried }
  step-Carries Event.released x h = record { at_start = h.at_start; carried = h.carried }
  step-Carries Event.notified x h = elim (Bool-cases (x.owed == 0)) [
    | inl e ↦ rw e h
    | inr e ↦ rw e (record { at_start = h.at_start; carried = h.carried })
  ]
  step-Carries Event.resumed x h = resume-Carries x.phase x h
  step-Carries Event.dropped x h = record { at_start = h.at_start; carried = h.carried }
  step-Carries (Event.polled w) x h = look-Carries w x h
  step-Carries (Event.received n) x h = receive-Carries n x h

  run-Carries : (es : List (Event T)) (x : Session T) → Carries x → Carries (run es x)
  unfolding run
  run-Carries [] x h = h
  run-Carries (e ∷ es) x h = run-Carries es (step e x) (step-Carries e x h)

  -- Through every sequence of sends, of polls of the receiver in their single accesses, of its
  -- blocking receives, of senders that are cloned and dropped, and of the drop of the receiver,
  -- from a new stream, the values delivered followed by those that still wait are the accepted
  -- ones: none is lost, doubled or reordered.
  pub stream-fifo :
      (es : List (Event T))
      → (run es session).delivered ++ (run es session).stream.values ≡ (run es session).accepted
  unfolding session stream_channel
  stream-fifo es = (run-Carries es session (record { at_start = refl; carried = refl })).carried
