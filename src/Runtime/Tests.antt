-- ===== src/Runtime/Tests.antt =====
-- Runs of the replies of crates/sitas-core/src/runtime.rs, and their theorems at fixed inputs.
use sitas.Common.{ℕ, ◌≡◌, refl, none, [], ◌∷◌, ok, err, ready, option_to_list}
use sitas.Runtime.Config.{reply_failed, validate, invalid_mailbox_capacity, invalid_shard_count}
use sitas.Runtime.Reply.{reply_channel, send, drop_sender, wait, wait_timeout, try_wait, poll_reply}
use sitas.Runtime.Reply.Delivery.{poll_all, last_waker, send-poll_all, drop_sender-poll_all}

zero_shards : validate (record { shard_count = 0; mailbox_capacity = 0 }) ≡ err invalid_shard_count
unfolding validate
zero_shards = refl

no_room : validate (record { shard_count = 3; mailbox_capacity = 0 }) ≡ err invalid_mailbox_capacity
unfolding validate
no_room = refl

send-poll_all_example :
    let sent = send {V = ℕ} 7 (poll_all (1 ∷ 2 ∷ []) reply_channel) in
    let polled = poll_reply 3 sent.after in
    (sent.result ≡ ok tt)
    × (sent.wakes ≡ option_to_list (last_waker none (1 ∷ 2 ∷ [])))
    × (polled.0 ≡ ready (ok 7))
    × ((poll_reply 4 polled.1).0 ≡ ready (err reply_failed))
    × ((wait polled.1).0 ≡ ready (err reply_failed))
    × ((wait_timeout 10 20 polled.1).0 ≡ ready (err reply_failed))
    × ((try_wait polled.1).0 ≡ err reply_failed)
send-poll_all_example = send-poll_all 7 (1 ∷ 2 ∷ []) 3 4 10 20

drop_sender-poll_all_example :
    let dropped = drop_sender {V = ℕ} (poll_all (5 ∷ []) reply_channel) in
    (dropped.wakes ≡ option_to_list (last_waker none (5 ∷ [])))
    × ((poll_reply 3 dropped.after).0 ≡ ready (err reply_failed))
    × ((wait dropped.after).0 ≡ ready (err reply_failed))
    × ((wait_timeout 10 20 dropped.after).0 ≡ ready (err reply_failed))
    × ((try_wait dropped.after).0 ≡ err reply_failed)
drop_sender-poll_all_example = drop_sender-poll_all (5 ∷ []) 3 10 20
