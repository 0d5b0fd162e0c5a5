-- ===== src/Channel/Accesses.antt =====
-- Every access of a channel of shard_runtime.rs keeps what the channel promises its receiver.
use sitas.Common.{
  suc, ◌-◌, ◌≡◌, ◌∙◌, inl, inr, refl, sym, ap, Bool, true, false, ◌&&◌, ◌||◌, not, Option, none,
  some, List, [], ◌∷◌, ◌++◌, append_assoc, Result, ok, err, Waker, arith, is_empty, ltb, ◌==◌,
  if_intro,
}
use mathlib.Core.Path.{subst}
use sitas.Ring.{Fault, pop}
use sitas.Ring.Queue.{try_push_lem, pop_lem}
use sitas.Channel.{
  Phase, idle, checking_closed, registering, popping_again, checking_closed_again, parked, Channel,
  Event, checks, pushes, wakes, closes, polls, tries, check, pushed, push, invoke, wake_receiver,
  close, popped, look, poll_from, try_recv_from, step,
}
use sitas.Channel.Wakes.{
  alert, Registered, Watched, Carries, Watched-alert, Registered-woken, Watched-silent,
}

module _ {ℓ} {M : Type ℓ} where
  abbrev pub Continues : Result (Channel M) Fault → Type ℓ
  Continues r = (s : Channel M) × (xs : List M) × (r ≡ ok s) × Carries s xs

  assoc_snoc :
      (r xs : List M) (m : M) (a : List M) → r ++ xs ≡ a → r ++ (xs ++ m ∷ []) ≡ a ++ m ∷ []
  assoc_snoc r xs m a h = sym (append_assoc r xs (m ∷ [])) ∙ ap (λ l. l ++ m ∷ []) h

  abbrev ok_or {κ} : {E : Type κ} → Channel M → Result (Channel M) E → Channel M
  ok_or d (ok s) = s
  ok_or d (err e) = d

  pub ok-injective {κ} :
      {E : Type κ} {s t : Channel M} → ◌≡◌ {A = Result (Channel M) E} (ok s) (ok t) → s ≡ t
  ok-injective {s = s} e = ap (ok_or s) e

  announce : (s : Channel M) → (s.woken || ltb 0 (suc s.owed)) ≡ true
  announce s = ground arith

  check-Carries : (s : Channel M) (xs : List M) → Carries s xs → Carries (check s) xs
  unfolding step
  check-Carries s xs v =
      if_intro (λ t. Carries t xs) s.closed (λ h. v)
        (λ h. record {
          represented = v.represented;
          ordered = v.ordered;
          registered = v.registered;
          watched = v.watched;
        })

  push-Carries : (m : M) (s : Channel M) (xs : List M) → Carries s xs → Continues (push m s)
  unfolding step
  push-Carries m s xs v =
      if_intro Continues (s.cleared == 0) (λ h. (s, xs, refl, v))
        (λ h. elim (try_push_lem m s.queue xs v.represented) [
          | inl (fits, (r, e, p, c)) ↦ (
            _,
            xs ++ m ∷ [],
            ap (pushed m s) e,
            record {
              represented = p;
              ordered = assoc_snoc s.received xs m s.accepted v.ordered;
              registered = v.registered;
              watched = Watched-alert s.phase _ s.closed _ (announce s);
            },
          )
          | inr (full, e) ↦ (
            _,
            xs,
            ap (pushed m s) e,
            record {
              represented = v.represented;
              ordered = v.ordered;
              registered = v.registered;
              watched = v.watched;
            },
          )
        ])

  invoke-Carries :
      (o : Option Waker) (s : Channel M) (xs : List M)
      → s.recv_waker ≡ o
      → Carries s xs
      → Carries (invoke o (record s { owed = s.owed - 1 })) xs
  unfolding step
  invoke-Carries none s xs h v = record {
    represented = v.represented;
    ordered = v.ordered;
    registered = v.registered;
    watched =
        Watched-silent s.phase (is_empty xs) s.closed s.woken (ltb 0 s.owed) _
          (subst (λ o. Registered s.phase o s.woken) h v.registered) v.watched;
  }
  invoke-Carries (some w) s xs h v = record {
    represented = v.represented;
    ordered = v.ordered;
    registered = Registered-woken s.phase _;
    watched = Watched-alert s.phase _ s.closed _ refl;
  }

  wake_receiver-Carries :
      (s : Channel M) (xs : List M) → Carries s xs → Carries (wake_receiver s) xs
  unfolding step
  wake_receiver-Carries s xs v =
      if_intro (λ t. Carries t xs) (s.owed == 0) (λ h. v)
        (λ h. invoke-Carries s.recv_waker s xs refl v)

  close-Carries : (s : Channel M) (xs : List M) → Carries s xs → Carries (close s) xs
  unfolding step
  close-Carries s xs v = record {
    represented = v.represented;
    ordered = v.ordered;
    registered = v.registered;
    watched = Watched-alert s.phase _ true _ (announce s);
  }

  popped-Carries :
      (next : Phase) (s : Channel M) (xs : List M)
      → Carries s xs
      → (xs ≡ [] → Registered next s.recv_waker s.woken × Watched next true s.closed (alert s))
      → Continues (popped next s (pop s.queue))
  unfolding step
  popped-Carries next s [] v n = (
    _,
    [],
    ap (popped next s) (pop_lem s.queue [] v.represented),
    record {
      represented = v.represented;
      ordered = v.ordered;
      registered = (n refl).0;
      watched = (n refl).1;
    },
  )
  popped-Carries next s (x ∷ xs) v n =
      let (r, e, p, c) = pop_lem s.queue (x ∷ xs) v.represented in
      (
        _,
        xs,
        ap (popped next s) e,
        record {
          represented = p;
          ordered = append_assoc s.received (x ∷ []) xs ∙ v.ordered;
          registered = tt;
          watched = tt;
        },
      )

  look-Carries :
      (next : Phase) (s : Channel M) (xs : List M)
      → Carries s xs
      → (s.closed ≡ false
          → Registered next s.recv_waker s.woken × Watched next (is_empty xs) s.closed (alert s))
      → Continues (ok (look next s))
  unfolding step
  look-Carries next s xs v n =
      if_intro (λ t. Continues (ok t)) s.closed
        (λ h. (
          _,
          xs,
          refl,
          record {
            represented = v.represented;
            ordered = v.ordered;
            registered = tt;
            watched = tt;
          },
        ))
        (λ h. (
          _,
          xs,
          refl,
          record {
            represented = v.represented;
            ordered = v.ordered;
            registered = (n h).0;
            watched = (n h).1;
          },
        ))

  poll_from-Carries :
      (p : Phase) (w : Waker) (s : Channel M) (xs : List M)
      → s.phase ≡ p
      → Carries s xs
      → Continues (poll_from p w s)
  unfolding step
  poll_from-Carries idle w s xs h v = popped-Carries checking_closed s xs v (λ e. (tt, tt))
  poll_from-Carries parked w s xs h v = popped-Carries checking_closed s xs v (λ e. (tt, tt))
  poll_from-Carries checking_closed w s xs h v = look-Carries registering s xs v (λ e. (tt, tt))
  poll_from-Carries registering w s xs h v = (
    _,
    xs,
    refl,
    record { represented = v.represented; ordered = v.ordered; registered = refl; watched = tt },
  )
  poll_from-Carries popping_again w s xs h v =
      popped-Carries checking_closed_again s xs v
        (λ e. (subst (λ q. Registered q s.recv_waker s.woken) h v.registered, refl))
  poll_from-Carries checking_closed_again w s xs h v = look-Carries parked s xs v (λ e. (
    subst (λ q. Registered q s.recv_waker s.woken) h v.registered,
    still-Watched (is_empty xs) s.closed (alert s) e
        (subst (λ q. Watched q (is_empty xs) s.closed (alert s)) h v.watched),
  ))
    where
      still-Watched : (e c a : Bool) → c ≡ false → (e || a) ≡ true → (e && not c || a) ≡ true
      still-Watched e c a h k = ground arith

  try_recv_from-Carries :
      (p : Phase) (s : Channel M) (xs : List M) → Carries s xs → Continues (try_recv_from p s)
  unfolding step
  try_recv_from-Carries idle s xs v = popped-Carries idle s xs v (λ e. (tt, tt))
  try_recv_from-Carries parked s xs v = popped-Carries idle s xs v (λ e. (tt, tt))
  try_recv_from-Carries checking_closed s xs v = (s, xs, refl, v)
  try_recv_from-Carries registering s xs v = (s, xs, refl, v)
  try_recv_from-Carries popping_again s xs v = (s, xs, refl, v)
  try_recv_from-Carries checking_closed_again s xs v = (s, xs, refl, v)

  pub step-Carries :
      (e : Event M) (s : Channel M) (xs : List M) → Carries s xs → Continues (step e s)
  unfolding step
  step-Carries checks s xs v = (check s, xs, refl, check-Carries s xs v)
  step-Carries (pushes m) s xs v = push-Carries m s xs v
  step-Carries wakes s xs v = (wake_receiver s, xs, refl, wake_receiver-Carries s xs v)
  step-Carries closes s xs v = (close s, xs, refl, close-Carries s xs v)
  step-Carries (polls w) s xs v = poll_from-Carries s.phase w s xs refl v
  step-Carries tries s xs v = try_recv_from-Carries s.phase s xs v
