-- ===== src/Kv/Tests.antt =====
-- Runs of the service of crates/sitas-core/src/kv_service.rs, and its theorems at fixed inputs:
-- numbers for keys and texts, with a placement by remainders.
use sitas.Common.{
  ℕ, ◌%◌, ◌<◌, ◌≡◌, refl, some, List, [], ◌∷◌, ◌++◌, map, replicate, ok, err, ready, true, false,
  get_elem?, word, ◌==◌, arith,
}
use sitas.Runtime.Config.{shard_stopped, validate}
use sitas.Runtime.Shards.{
  start, start_shards, wait_reply, serve, request, try_request, accept, get_by_id, send_reply,
}
use sitas.Runtime.Reply.{send, fill, wait, drop_sender, reply_channel}
use sitas.Runtime.Shards
use sitas.Runtime.Shards.Drain.{turns_from}
use sitas.Runtime.Shards.History.{run}
use sitas.Runtime.Shards.Order.{states_after}
use sitas.Kv.Keys.{nat_key}
use sitas.Kv.Map
use sitas.Kv.Map
use sitas.Kv.Map.{KvService, new, len, keys, lookup, insert, remove, map_keys, same_option}
use sitas.Kv.Service.{
  ShardedKv, ShardedKvConfig, start_with_placement, runtime_config, handle, ends, found, replaced,
  begin_shutdown, submit_get, submit_put, submit_compare_and_put, submit_get_or_put, submit_delete,
  try_submit_get, try_submit_put, try_submit_compare_and_put, try_submit_get_or_put,
  try_submit_delete, submit_to, try_submit_to, shard_for_owned_key, shard_for_key, shard_count,
  ensure_running,
}
use sitas.Kv.Service.Collect.{wait_all_keys, wait_total_len}
use sitas.Kv.Service.Errors.{waits, says_stopped, or_unchanged}
use sitas.Kv.Single.Answers.{
  KvCall, get, put, delete, get_or_put, compare_and_put, route, single_answers, single_after,
}
use sitas.Kv.Single.Totals.{totals_agree}
use sitas.Kv.History.{
  KvEvent, submit, try_submit, turn, kv_run, kv_log, kv_step, kv_accepted, submit_call,
  try_submit_call,
}
use sitas.Kv.History.Refinement.{replies_of_single_map, call_answered}
use sitas.Kv.History.Errors.{try_submit_call-submit_call}

abbrev place : ℕ → ℕ → ℕ
place k n = k % n

place-lt : (k : ℕ) → place k 2 < 2
place-lt k = omega arith

abbrev config : ShardedKvConfig
config = record { shard_count = 2; mailbox_capacity = 4 }

abbrev fresh : ShardedKv ℕ ℕ
fresh = record { shards = start new 2 4; stopped = false }

started : start_with_placement config ≡ ok fresh
unfolding start_with_placement runtime_config validate
started = refl

abbrev calls : List (KvEvent ℕ ℕ)
calls =
    submit (put 1 10)
    ∷ try_submit (get 1)
    ∷ submit (compare_and_put 1 (some 10) 20)
    ∷ turn 0
    ∷ turn 1
    ∷ submit (delete 1)
    ∷ []

abbrev turns : List (KvEvent ℕ ℕ)
turns = turn 0 ∷ turn 0 ∷ turn 0 ∷ turn 1 ∷ turn 1 ∷ turn 1 ∷ []

log_of_calls :
    kv_log ◌==◌ place calls fresh
    ≡ put 1 10 ∷ get 1 ∷ compare_and_put 1 (some 10) 20 ∷ delete 1 ∷ []
unfolding kv_log kv_accepted kv_step submit_call try_submit_call submit_get submit_put
    submit_compare_and_put submit_get_or_put submit_delete try_submit_get try_submit_put
    try_submit_compare_and_put try_submit_get_or_put try_submit_delete submit_to try_submit_to
    shard_for_owned_key shard_for_key shard_count ensure_running get_by_id request try_request
    accept start start_shards Shards.turn serve send_reply send fill drop_sender reply_channel
    handle ends
log_of_calls = refl

third_reply :
    (wait_reply 2 (kv_run ◌==◌ place (calls ++ turns) fresh).shards).0
    ≡ some (ready (ok (replaced true)))
unfolding kv_run kv_step submit_call try_submit_call submit_get submit_put submit_compare_and_put
    submit_get_or_put submit_delete try_submit_get try_submit_put try_submit_compare_and_put
    try_submit_get_or_put try_submit_delete submit_to try_submit_to shard_for_owned_key
    shard_for_key shard_count ensure_running get_by_id request try_request accept start start_shards
    Shards.turn serve send_reply send fill drop_sender reply_channel handle ends wait_reply wait
    Map.get Map.put Map.compare_and_put Map.delete lookup insert remove same_option new
third_reply = refl

deleted :
    get_elem? (single_answers ◌==◌ (kv_log ◌==◌ place calls fresh) new) 3 ≡ some (found (some 20))
unfolding single_answers handle Map.get Map.put Map.compare_and_put Map.delete lookup insert remove
    same_option new
deleted = rw log_of_calls refl

replies_of_single_map_example :
    get_elem? (single_answers ◌==◌ (kv_log ◌==◌ place (calls ++ turns) fresh) new) 2
    ≡ some (replaced true)
replies_of_single_map_example =
    replies_of_single_map ◌==◌ place config place-lt fresh started (calls ++ turns) 2
      (replaced true) third_reply

call_answered_example :
    let s = (kv_run ◌==◌ place calls fresh).shards in
    (wait_reply 3 (run (handle ◌==◌) ends (turns_from 0 s.handles) s)).0
    ≡ some (ready (ok (found (some 20))))
call_answered_example =
    call_answered ◌==◌ place config place-lt fresh started calls 3 (found (some 20))
      (tt, (tt, (tt, (tt, (tt, (tt, tt)))))) deleted

abbrev stored : List (KvCall ℕ ℕ)
stored = put 4 1 ∷ put 3 1 ∷ get_or_put 7 2 ∷ delete 4 ∷ put 2 5 ∷ []

three : len (single_after ◌==◌ stored new) < word
unfolding single_after handle Map.put Map.get_or_put Map.delete lookup insert remove new len
three = omega arith

totals_agree_example :
    let ss = states_after (handle ◌==◌) ends (map (route place 2) stored) (replicate 2 new) in
    let m = single_after ◌==◌ stored new in
    (wait_all_keys (map (λ s. ok (keys s)) ss) ≡ ok (keys m))
    × (wait_total_len (map (λ s. ok (len s)) ss) ≡ ok (len m))
totals_agree_example = totals_agree ◌==◌ place 2 place-lt stored three

try_submit_call-submit_call_example :
    let tried = try_submit_call place (get 5) fresh in
    let sent = submit_call place (get 5) fresh in
    (tried.1 ≡ sent.1)
    × (sent.0 ≡ waits tried.0)
    × (tried.1 ≡ or_unchanged tried.0 fresh tried.1)
    × (says_stopped tried.0 ≡ fresh.stopped)
    × ((try_submit_call place (get 5) (begin_shutdown fresh).1).0 ≡ err shard_stopped)
try_submit_call-submit_call_example = try_submit_call-submit_call place (get 5) fresh
