-- ===== src/Common/Outcome.antt =====
-- Results, poll results, and what a call on shared state returns.
use Prim.Native.Nat.{ℕ}
use mathlib.Core.List.{List}
use mathlib.Core.Option.{Option, none, some}
use mathlib.Core.List.{[], ◌∷◌}

pub data Result {ℓ κ} (A : Type ℓ) (E : Type κ) : Type (ℓ ⊔ κ) where
  ok : A → Result A E
  err : E → Result A E

pub data Poll {ℓ} (A : Type ℓ) : Type ℓ where
  ready : A → Poll A
  pending : Poll A

-- A waker by its identity: `will_wake` compares identities. A call lists the wakers that it
-- invokes, in order.
abbrev pub Waker : Type 0
Waker = ℕ

abbrev pub Wakes : Type 0
Wakes = List Waker

abbrev pub option_to_list {ℓ} : {A : Type ℓ} → Option A → List A
option_to_list none = []
option_to_list (some a) = a ∷ []
