-- ===== src/Charlotte/History.antt =====
-- crates/sitas-core/src/charlotte_abi.rs: the calls on a kernel in the order in which they take
-- its lock, with the buffers that go in and come out.
use sitas.Common.{ℕ, Option, List, [], ◌∷◌, ◌++◌, Result, ok, err, option_to_list}
use sitas.Charlotte.{
  OpCode, OpResult, Buffer, Completion, KernelState, SubmitError, PostOutcome, Panic, new,
  register_shard, submit, complete, wake, cancel, close, drain, take_woke,
}

pub data Call : Type 0 where
  registering : ℕ → Call
  submitting : ℕ → OpCode → Option Buffer → Call
  completing : ℕ → OpResult → Call
  waking cancelling closing draining taking_woke : ℕ → Call

-- The kernel, the buffers of the accepted submissions, and those that drained completions returned.
pub record World : Type 0 where
  pub kernel : KernelState
  pub accepted : List Buffer
  pub handed_back : List Buffer

unfoldable pub returned_buffers : List Completion → List Buffer
returned_buffers [] = []
returned_buffers (c ∷ cs) = option_to_list c.returned ++ returned_buffers cs

unfoldable pub accept : Option Buffer → Result {0, 0} ℕ SubmitError × KernelState → World → World
accept buffer out w = elim out.0 [
  | err e ↦ record w { kernel = out.1 }
  | ok cap ↦ record w { kernel = out.1; accepted = w.accepted ++ option_to_list buffer }
]

unfoldable pub after_post :
    World → Result {0, 0} (PostOutcome × KernelState) Panic → Result World Panic
after_post w (ok out) = ok (record w { kernel = out.1 })
after_post w (err e) = err e

unfoldable pub step : Call → World → Result World Panic
unfolding accept after_post returned_buffers
step (registering n) w = ok (record w { kernel = (register_shard n w.kernel).1 })
step (submitting cq op buffer) w = ok (accept buffer (submit cq op buffer w.kernel) w)
step (completing cap result) w = after_post w (complete cap result w.kernel)
step (waking cq) w = ok (record w { kernel = (wake cq w.kernel).1 })
step (cancelling cap) w = ok (record w { kernel = (cancel cap w.kernel).1 })
step (closing cap) w = ok (record w { kernel = (close cap w.kernel).1 })
step (draining cq) w =
    let out = drain cq w.kernel in
    ok (record w { kernel = out.1; handed_back = w.handed_back ++ returned_buffers out.0 })
step (taking_woke cq) w = ok (record w { kernel = (take_woke cq w.kernel).1 })

-- A panic poisons the lock, so no call follows it.
unfoldable pub run : List Call → World → Result World Panic
run [] w = ok w
run (c ∷ cs) w = elim (step c w) [ ok w' ↦ run cs w' | err e ↦ err e ]

unfoldable pub start : ℕ → World
unfolding new
start cap_table_capacity = record {
  kernel = new cap_table_capacity;
  accepted = [];
  handed_back = [];
}
