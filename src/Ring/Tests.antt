-- ===== src/Ring/Tests.antt =====
-- Runs and instances for ringbuf.rs.
use sitas.Common.{ℕ, ◌≡◌, refl, none, some, List, [], ◌∷◌, ok, err, arith}
use sitas.Ring.{Ring, Fault, bounded, try_push, pop}
use sitas.Ring.Queue.{Represents, Pushes, Pops, try_push_lem, pop_lem}
use sitas.Ring.Refinement.{
  Op, pushing, popping, pushed, popped, call, call_all, serve_all, call_all_refines,
}

-- 8, then 9, round the end of three cells; the third is free.
abbrev wrapped : Ring ℕ
wrapped = record { buffer = some 9 ∷ none ∷ some 8 ∷ []; capacity = 3; head = 1; tail = 2 }

abbrev script : List (Op ℕ)
script = pushing 5 ∷ popping ∷ pushing 6 ∷ popping ∷ popping ∷ popping ∷ []

wrapped-Represents : Represents wrapped (8 ∷ 9 ∷ [])
wrapped-Represents =
    (omega arith, (refl, ne 2 1 (omega arith), (refl, ne 0 1 (omega arith), (refl, tt))))
  where
    ne : (a b : ℕ) → (a ≡ b → ⊥) → (a ≡ b → ⊥)
    ne a b h = h

run-script :
    call_all script wrapped
    ≡ ok (
      pushed (err 5)
          ∷ popped (some 8)
          ∷ pushed (ok tt)
          ∷ popped (some 9)
          ∷ popped (some 6)
          ∷ popped none
          ∷ [],
      record { buffer = some 9 ∷ some 6 ∷ some 8 ∷ []; capacity = 3; head = 2; tail = 2 },
    )
unfolding call_all call try_push pop
run-script = refl

empty_ring_panics : try_push {T = ℕ} 1 (bounded 0) ≡ err Fault.division_by_zero
unfolding try_push bounded
empty_ring_panics = refl

try_push_lem_example : Pushes 5 wrapped (8 ∷ 9 ∷ [])
try_push_lem_example = try_push_lem 5 wrapped (8 ∷ 9 ∷ []) wrapped-Represents

pop_lem_example : Pops wrapped (8 ∷ 9 ∷ [])
pop_lem_example = pop_lem wrapped (8 ∷ 9 ∷ []) wrapped-Represents

call_all_refines_example :
    (r' : Ring ℕ) × (call_all script wrapped ≡ ok ((serve_all 2 script (8 ∷ 9 ∷ [])).0, r'))
    × Represents r' (serve_all 2 script (8 ∷ 9 ∷ [])).1
call_all_refines_example = call_all_refines 2 script wrapped (8 ∷ 9 ∷ []) refl wrapped-Represents
