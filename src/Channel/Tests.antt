-- ===== src/Channel/Tests.antt =====
-- Runs and instances for the channel of shard_runtime.rs.
use sitas.Common.{
  ℕ, ◌<◌, ◌≡◌, ◌⊎◌, inl, refl, true, false, none, some, List, [], ◌∷◌, ok, err, arith,
}
use sitas.Ring.{bounded, len, try_push, pop}
use sitas.Ring.Queue.{bounded-Represents}
use sitas.Channel.{
  Channel, Event, checks, pushes, closes, polls, idle, checking_closed, parked, channel,
  invalid_capacity, run, step,
}
use sitas.Channel.Wakes.{Carries, is_some}
use sitas.Channel.Protocol.{run-Carries, parked_receiver_woken}
use sitas.Channel.Race.{end_before_message}

abbrev opened : Channel ℕ
opened = record {
  queue = bounded 2;
  closed = false;
  recv_waker = none;
  cleared = 0;
  owed = 0;
  woken = false;
  phase = idle;
  ended = false;
  accepted = [];
  received = [];
}

-- The receiver parks; then a sender pushes.
abbrev script : List (Event ℕ)
script = polls 5 ∷ polls 5 ∷ polls 5 ∷ polls 5 ∷ polls 5 ∷ checks ∷ pushes 7 ∷ []

abbrev announced : Channel ℕ
announced = record opened {
  queue = record { buffer = some 7 ∷ none ∷ []; capacity = 2; head = 1; tail = 0 };
  recv_waker = some 5;
  owed = 1;
  phase = parked;
  accepted = 7 ∷ [];
}

opens : channel 2 ≡ ok opened
unfolding channel
opens = refl

too_small : channel {M = ℕ} 1 ≡ err invalid_capacity
unfolding channel
too_small = refl

announces : run script opened ≡ ok announced
unfolding run step bounded try_push pop
announces = refl

opened-Carries : Carries opened []
opened-Carries = record {
  represented = bounded-Represents 2 (omega arith) (omega arith);
  ordered = refl;
  registered = tt;
  watched = tt;
}

run-Carries_example : (t : Channel ℕ) × (ys : List ℕ) × (run script opened ≡ ok t) × Carries t ys
run-Carries_example = run-Carries script opened [] opened-Carries

len_announced : len announced.queue ≡ 1
unfolding len
len_announced = refl

parked_receiver_woken_example : (false ≡ true) ⊎ (0 < 1) × (is_some {A = ℕ} (some 5) ≡ true)
parked_receiver_woken_example =
    parked_receiver_woken 2 script opened announced (omega arith) (omega arith) opens announces refl
      (inl (omega (arith, len_announced)))

end_before_message_example :
    (t : Channel ℕ) × (run
        (checks ∷ pushes 7 ∷ closes ∷ polls 5 ∷ [])
        (record opened { phase = checking_closed })
      ≡ ok t)
    × (t.ended ≡ true)
    × (t.accepted ≡ 7 ∷ [])
    × (t.received ≡ [])
    × (len t.queue ≡ 1)
unfolding bounded
end_before_message_example =
    end_before_message 7 5 (record opened { phase = checking_closed })
      (record {
        represented = bounded-Represents 2 (omega arith) (omega arith);
        ordered = refl;
        registered = tt;
        watched = tt;
      })
      (omega arith) refl refl
