-- ===== src/Channel/Wakes.antt =====
-- What a channel of shard_runtime.rs promises its receiver.
use sitas.Common.{
  ℕ, ◌<◌, ◌≡◌, ◌⊎◌, Bool, true, false, ◌&&◌, ◌||◌, not, Option, none, some, List, ◌++◌, Waker,
  arith, is_empty, ltb,
}
use sitas.Ring.Queue.{Represents}
use sitas.Channel.{
  Phase, idle, checking_closed, registering, popping_again, checking_closed_again, parked, Channel,
}

abbrev pub is_some {ℓ} : {A : Type ℓ} → Option A → Bool
is_some none = false
is_some (some a) = true

-- Someone has invoked the waker, or still has to.
abbrev pub alert {ℓ} : {M : Type ℓ} → Channel M → Bool
alert s = s.woken || ltb 0 s.owed

-- From the registration on, the waker stays until it is invoked.
abbrev pub Registered : Phase → Option Waker → Bool → Type 0
Registered idle w woken = Unit
Registered checking_closed w woken = Unit
Registered registering w woken = Unit
Registered p w woken = (is_some w || woken) ≡ true

-- What came after the poll looked for it is announced.
abbrev pub Watched : Phase → Bool → Bool → Bool → Type 0
Watched checking_closed_again vacant closed a = (vacant || a) ≡ true
Watched parked vacant closed a = (vacant && not closed || a) ≡ true
Watched p vacant closed a = Unit

-- The channel holds these messages, and all accepted ones were received or are held, in order.
-- Once a poll has registered its waker, the waker is still there or was invoked; and what came
-- after the last look of that poll is announced by a wake that was made or is still owed.
pub record Carries {ℓ} {M : Type ℓ} (s : Channel M) (xs : List M) : Type ℓ where
  pub represented : Represents s.queue xs
  pub ordered : s.received ++ xs ≡ s.accepted
  pub registered : Registered s.phase s.recv_waker s.woken
  pub watched : Watched s.phase (is_empty xs) s.closed (alert s)

pub Watched-alert : (p : Phase) (e c a : Bool) → a ≡ true → Watched p e c a
Watched-alert idle e c a h = tt
Watched-alert checking_closed e c a h = tt
Watched-alert registering e c a h = tt
Watched-alert popping_again e c a h = tt
Watched-alert checking_closed_again e c a h = ground arith
Watched-alert parked e c a h = ground arith

pub Registered-woken : (p : Phase) (w : Option Waker) → Registered p w true
Registered-woken idle w = tt
Registered-woken checking_closed w = tt
Registered-woken registering w = tt
Registered-woken popping_again w = ground arith
Registered-woken checking_closed_again w = ground arith
Registered-woken parked w = ground arith

-- A waker that was taken has been invoked, so one debt less changes nothing.
pub Watched-silent :
    (p : Phase) (e c woken o o' : Bool)
    → Registered p none woken
    → Watched p e c (woken || o)
    → Watched p e c (woken || o')
Watched-silent idle e c woken o o' h w = tt
Watched-silent checking_closed e c woken o o' h w = tt
Watched-silent registering e c woken o o' h w = tt
Watched-silent popping_again e c woken o o' h w = tt
Watched-silent checking_closed_again e c woken o o' h w = ground arith
Watched-silent parked e c woken o o' h w = ground arith

pub parked-Watched :
    (p : Phase) (w : Option Waker) (e c woken : Bool) (owed : ℕ)
    → p ≡ parked
    → Registered p w woken
    → Watched p e c (woken || ltb 0 owed)
    → (e ≡ false) ⊎ (c ≡ true)
    → (woken ≡ true) ⊎ (0 < owed) × (is_some w ≡ true)
parked-Watched parked w e c woken owed h r a m = ground arith
parked-Watched p w e c woken owed h r a m = cc
