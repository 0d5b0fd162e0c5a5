-- ===== src/Stream/Alerts.antt =====
-- crates/sitas-core/src/stream_reply.rs: what keeps the waker of a parked receiver, call by call.
use sitas.Common.{
  ◌++◌, Option, none, some, ◌∙◌, ℕ, ◌+◌, ◌-◌, ◌%◌, ◌<◌, ◌≡◌, ◌⊎◌, refl, false, inl, inr, List, [],
  ◌∷◌, Waker, option_to_list, length, append-nil, word, Bool-cases, arith, ◌==◌,
}
use sitas.Stream.{
  Session, Phase, idle, parked, polling, checking, send, release_sender, wake_receiver, accept,
  release, notify,
}

count_less : (c : ℕ) → 0 < c → c < word → (c + (word - 1)) % word ≡ c - 1
count_less c p q = omega arith

pub count_more : (c : ℕ) → c + 1 < word → (c + 1) % word ≡ c + 1
count_more c p = omega arith

left_over : (c : ℕ) → (c == 1) ≡ false → 0 < c → 0 < c - 1
left_over c e p = ground (arith, e, p)

taken_before :
    (w : Waker) (ws : List Waker) (o : Option Waker)
    → ws ≡ w ∷ []
    → o ≡ none
    → ws ++ option_to_list o ≡ w ∷ []
taken_before w ws o p q = rw (p, q) refl

taken_now :
    (w : Waker) (ws : List Waker) (o : Option Waker)
    → ws ≡ []
    → o ≡ some w
    → ws ++ option_to_list o ≡ w ∷ []
taken_now w ws o p q = rw (p, q) refl

module _ {ℓ} {T : Type ℓ} where
  -- What holds of a receiver that returned `Pending`: its waker was invoked, or it is there,
  -- nothing waits, and a sender is there or has still to invoke it.
  unfoldable pub Alert : Phase → Session T → Type 0
  Alert (parked w) x =
      ((x.woken ≡ w ∷ []) × (x.stream.waker ≡ none))
      ⊎ ((x.woken ≡ [])
          × (x.stream.waker ≡ some w)
          × (length x.stream.values ≡ 0)
          × (0 < x.stream.sender_count + x.owed))
  Alert p x = Unit

  pub record Watched (x : Session T) : Type 0 where
    pub at_start : x.stream.index ≡ 0
    pub counted : x.stream.sender_count < word
    pub alert : Alert x.phase x

  -- `Alert` for the phase of the session, whichever it is, from the case of a parked receiver.
  pub keeps :
      (p : Phase) (x y : Session T)
      → ((w : Waker) → Alert (parked w) x → Alert (parked w) y)
      → Alert p x
      → Alert p y
  unfolding Alert
  keeps idle x y f h = tt
  keeps (polling w) x y f h = tt
  keeps (checking w) x y f h = tt
  keeps (parked w) x y f h = f w h

  woken_now :
      (w : Waker) (x : Session T)
      → Alert (parked w) x
      → x.woken ++ option_to_list x.stream.waker ≡ w ∷ []
  unfolding Alert
  woken_now w x a = elim a [
    | inl l ↦ taken_before w x.woken x.stream.waker l.0 l.1
    | inr l ↦ taken_now w x.woken x.stream.waker l.0 l.1
  ]

  pub accept-Watched : (v : T) (x : Session T) → Watched x → Watched (accept v x)
  unfolding accept send Alert
  accept-Watched v x h = elim (Bool-cases x.stream.finished) [
    | inl e ↦
        rw (e, accept)
          (record {
            at_start = h.at_start;
            counted = h.counted;
            alert =
                keeps x.phase x _
                  (λ w a. elim a [
                    | inl l ↦ inl (append-nil x.woken ∙ l.0, l.1)
                    | inr l ↦ inr (append-nil x.woken ∙ l.0, l.1, l.2, l.3)
                  ])
                  h.alert;
          })
    | inr e ↦
        rw (e, accept)
          (record {
            at_start = h.at_start;
            counted = h.counted;
            alert = keeps x.phase x _ (λ w a. inl (woken_now w x a, refl)) h.alert;
          })
  ]

  pub release-Watched :
      (x : Session T) → 0 < x.stream.sender_count → Watched x → Watched (release x)
  unfolding release release_sender Alert
  release-Watched x p h =
      let less = count_less x.stream.sender_count p h.counted in
      elim (Bool-cases (x.stream.sender_count == 1)) [
        | inl e ↦
            rw (e, release)
              (record {
                at_start = h.at_start;
                counted = omega (arith, less, h.counted);
                alert =
                    keeps x.phase x _
                      (λ w a. elim a [ inl l ↦ inl l | inr l ↦ inr (l.0, l.1, l.2, omega arith) ])
                      h.alert;
              })
        | inr e ↦
            rw (e, release)
              (record {
                at_start = h.at_start;
                counted = omega (arith, less, h.counted);
                alert =
                    keeps x.phase x _
                      (λ w a. elim a [
                        | inl l ↦ inl l
                        | inr l ↦ inr (
                          l.0,
                          l.1,
                          l.2,
                          omega (arith, less, left_over x.stream.sender_count e p),
                        )
                      ])
                      h.alert;
              })
      ]

  pub notify-Watched : (x : Session T) → Watched x → Watched (notify x)
  unfolding notify wake_receiver Alert
  notify-Watched x h = elim (Bool-cases (x.owed == 0)) [
    | inl e ↦ rw (e, notify) h
    | inr e ↦
        rw (e, notify)
          (record {
            at_start = h.at_start;
            counted = h.counted;
            alert = keeps x.phase x _ (λ w a. inl (woken_now w x a, refl)) h.alert;
          })
  ]
