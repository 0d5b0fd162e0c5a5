-- ===== src/Stream/Tests.antt =====
-- Runs of the streams of crates/sitas-core/src/stream_reply.rs, and their theorems at fixed inputs.
use sitas.Common.{some, ℕ, ◌≡◌, ◌<◌, ◌⊎◌, ◌++◌, refl, inr, true, [], ◌∷◌, List, arith}
use sitas.Stream.{
  Event, parked, sent, cloned, released, notified, resumed, dropped, polled, received, session,
  stream_channel, run, step, accept, send, look, looked, try_recv, drain, look_again, resume,
  resume_from, release, release_sender, notify, wake_receiver, is_done, recv_batch, receive,
  received_batch, drop_reply, clone_sender,
}
use sitas.Stream.Delivery.{stream-fifo}
use sitas.Stream.Wakeups.{AllPossible, parked_stream_woken}

-- One value of two is taken, the poll takes the other, and after the drop a value is refused.
abbrev served : List (Event ℕ)
served = sent 7 ∷ sent 8 ∷ received 1 ∷ polled 3 ∷ dropped ∷ sent 9 ∷ []

serves :
    ((run served session).delivered ≡ 7 ∷ 8 ∷ []) × ((run served session).accepted ≡ 7 ∷ 8 ∷ [])
unfolding run step session stream_channel accept send look looked try_recv drain receive
    received_batch recv_batch drop_reply
serves = (refl, refl)

stream-fifo_example :
    (run served session).delivered ++ (run served session).stream.values
    ≡ (run served session).accepted
stream-fifo_example = stream-fifo served

-- The poll finds nothing and looks again, and after it parked the two senders are dropped.
abbrev ended : List (Event ℕ)
ended = cloned ∷ polled 5 ∷ resumed ∷ released ∷ released ∷ []

is_done-ended : is_done (run ended session).stream ≡ true
unfolding is_done run step session stream_channel accept send look looked try_recv look_again resume
    resume_from release release_sender clone_sender
is_done-ended = refl

ended-AllPossible : AllPossible ended session
unfolding AllPossible run step session stream_channel look looked try_recv look_again resume
    resume_from release release_sender clone_sender
ended-AllPossible = ((omega arith, omega arith), (tt, (tt, (omega arith, (omega arith, tt)))))

ended-parked : (run ended session).phase ≡ parked 5
unfolding run step session stream_channel look looked try_recv look_again resume resume_from release
    release_sender clone_sender
ended-parked = refl

ended-sender_count : (run ended session).stream.sender_count ≡ 0
unfolding run step session stream_channel look looked try_recv look_again resume resume_from release
    release_sender clone_sender
ended-sender_count = refl

parked_stream_woken_example :
    ((run ended session).woken ≡ 5 ∷ [])
    ⊎ (((run ended session).stream.waker ≡ some 5) × (0 < (run ended session).owed))
parked_stream_woken_example =
    parked_stream_woken ended 5 ended-AllPossible ended-parked (inr ended-sender_count)

woken_later : (run (ended ++ notified ∷ []) session).woken ≡ 5 ∷ []
unfolding run step session stream_channel look looked try_recv look_again resume resume_from release
    release_sender clone_sender notify wake_receiver
woken_later = refl
