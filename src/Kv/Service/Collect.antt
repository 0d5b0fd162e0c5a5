-- ===== src/Kv/Service/Collect.antt =====
-- crates/sitas-core/src/kv_service/reply.rs: how the replies of several shards become one. The
-- waits on the replies are given by their results, in the order of the waits; the first error ends
-- them.
use sitas.Common.{ℕ, List, [], ◌∷◌, ◌++◌, Result, ok, err, add_word}
use sitas.Runtime.Config.{ShardError}
use sitas.Kv.Keys.{Key, sort}

-- `KvTotalLenReply::wait`
unfoldable pub total_len_from : ℕ → List (Result ℕ ShardError) → Result ℕ ShardError
total_len_from total [] = ok total
total_len_from total (ok len ∷ rest) = total_len_from (add_word total len) rest
total_len_from total (err e ∷ rest) = err e

unfoldable pub wait_total_len : List (Result ℕ ShardError) → Result ℕ ShardError
wait_total_len = total_len_from 0

module _ {ℓ} {A : Type ℓ} where
  -- The results paired with what they belong to, as `KvGetManyReply::wait` and
  -- `KvDeleteManyReply::wait` do for keys, and `KvShardSnapshotsReply::wait` for shards.
  unfoldable pub wait_many {κ} :
      {B : Type κ}
      → List (A × Result {κ, 0} B ShardError)
      → Result {ℓ ⊔ κ, 0} (List (A × B)) ShardError
  wait_many [] = ok []
  wait_many ((a, err e) ∷ rest) = err e
  wait_many ((a, ok b) ∷ rest) = elim (wait_many rest) [ ok bs ↦ ok ((a, b) ∷ bs) | err e ↦ err e ]

module _ {ℓ} {K : Type ℓ} ⦃key : Key K⦄ where
  unfoldable pub all_keys_from :
      List K → List (Result {ℓ, 0} (List K) ShardError) → Result {ℓ, 0} (List K) ShardError
  all_keys_from keys [] = ok keys
  all_keys_from keys (ok more ∷ rest) = all_keys_from (keys ++ more) rest
  all_keys_from keys (err e ∷ rest) = err e

  -- `KvAllKeysReply::wait`
  unfoldable pub wait_all_keys :
      List (Result {ℓ, 0} (List K) ShardError) → Result {ℓ, 0} (List K) ShardError
  wait_all_keys results = elim (all_keys_from [] results) [
    | ok keys ↦ ok (sort keys)
    | err e ↦ err e
  ]
