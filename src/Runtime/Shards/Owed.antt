-- ===== src/Runtime/Shards/Owed.antt =====
-- crates/sitas-core/src/runtime.rs: every accepted command is answered: its reply is in the slot,
-- or the command is still queued at a shard.
use mathlib.Core.Path.{subst}
use sitas.Common.{
  ℕ, ◌≡◌, sym, ap, ◌∙◌, ◌⊎◌, inl, inr, Bool, true, false, some, List, [], ◌∷◌, ◌++◌, length,
  get_elem?, set, arith, Bool-cases, ◌==◌, ==_iff, ==_of_ne, contains, get_elem?-set_cases,
  get_elem?-set_self, get_elem?-set_ne, get_elem?-snoc_cases, get_elem?-lt,
}
use sitas.Runtime.Reply.{ReplyState, send, reply_channel}
use sitas.Runtime.Reply.Delivery.{send-fills}
use sitas.Runtime.Shards
use sitas.Runtime.Shards.{Shard, ShardSet, accept, serve, wait_reply}
use sitas.Runtime.Shards.Order.{Ordered, Foretold}
use sitas.Runtime.Shards.History.{Event, request, try_request, stop, turn, look, step}
use sitas.Runtime.Shards.History.Cases.{
  Accepts, request_on-Accepts, try_request_on-Accepts, stop_on-Accepts, send_reply-cases,
  turn-cases, wait_reply-cases,
}

module _ {κ} {C : Type κ} where
  abbrev pub ids : List (C × ℕ) → List ℕ
  ids [] = []
  ids (p ∷ ps) = p.1 ∷ ids ps

  queued_more :
      (id : ℕ) (p : C × ℕ) (ps : List (C × ℕ))
      → contains id (ids ps) ≡ true
      → contains id (ids (ps ++ p ∷ [])) ≡ true
  queued_more id p [] h = absurd (cc)
  queued_more id p (q ∷ ps) h = ground (arith, queued_more id p ps)

  queued_last : (id : ℕ) (c : C) (ps : List (C × ℕ)) → contains id (ids (ps ++ (c, id) ∷ [])) ≡ true
  queued_last id c [] = ground arith
  queued_last id c (q ∷ ps) = ground (arith, queued_last id c ps)

  queued_rest :
      (id : ℕ) (p : C × ℕ) (ps : List (C × ℕ))
      → (p.1 == id) ≡ false
      → contains id (ids (p ∷ ps)) ≡ true
      → contains id (ids ps) ≡ true
  queued_rest id p ps n h = ground arith

module _ {ℓ κ υ} {S : Type ℓ} {C : Type κ} {V : Type υ} where
  -- The command with the reply `id` is queued at a shard.
  unfoldable pub Queued : ℕ → ShardSet S C V → Type (ℓ ⊔ κ)
  Queued id s =
      (j : ℕ) × (shard : Shard S C) × (get_elem? s.handles j ≡ some shard)
      × (contains id (ids shard.queue) ≡ true)

  unfoldable pub Owed : ℕ → ShardSet S C V → Type (ℓ ⊔ κ ⊔ υ)
  Owed id s =
      (r : ReplyState V)
      → get_elem? s.replies id ≡ some r
      → ((v : V) × (r.value ≡ some v)) ⊎ Queued id s

  accept-Owed :
      (id i : ℕ) (shard : Shard S C) (c : C) (s : ShardSet S C V)
      → get_elem? s.handles i ≡ some shard
      → Owed id s
      → Owed id (accept i shard c s)
  unfolding Owed Queued accept
  accept-Owed id i shard c s at h r here =
      elim (get_elem?-snoc_cases s.replies reply_channel id r here) [
        | inl old ↦ elim (h r old) [
          | inl filled ↦ inl filled
          | inr (j, other, there, q) ↦ elim (Bool-cases (i == j)) [
            | inl e ↦ inr (
              i,
              _,
              get_elem?-set_self s.handles i _ (get_elem?-lt s.handles i shard at),
              queued_more id _ shard.queue (same j other there e q),
            )
            | inr e ↦ inr (j, other, get_elem?-set_ne s.handles _ (ground arith) ∙ there, q)
          ]
        ]
        | inr new ↦ inr (
          i,
          _,
          get_elem?-set_self s.handles i _ (get_elem?-lt s.handles i shard at),
          subst (λ m. contains m (ids (shard.queue ++ (c, length s.replies) ∷ [])) ≡ true) new.0
              (queued_last (length s.replies) c shard.queue),
        )
      ]
    where
      same :
          (j : ℕ) (other : Shard S C)
          → get_elem? s.handles j ≡ some other
          → (i == j) ≡ true
          → contains id (ids other.queue) ≡ true
          → contains id (ids shard.queue) ≡ true
      same j other there e q =
          let there' : get_elem? s.handles i ≡ some other = rw ((==_iff i j).0 e) there in
          let p : other ≡ shard = cc in subst (λ x. contains id (ids x.queue) ≡ true) p q

  accepted-Owed :
      (id i : ℕ) (c : C) (s s' : ShardSet S C V) (l : List (ℕ × C))
      → Accepts i c s s' l
      → Owed id s
      → Owed id s'
  accepted-Owed id i c s s' l (inl e) h = subst (Owed id) (sym e.0) h
  accepted-Owed id i c s s' l (inr (shard, at, r, e, f)) h =
      subst (Owed id) (sym e) (accept-Owed id i shard c s at h)

  look-Owed :
      (id k : ℕ) (s : ShardSet S C V) → (k == id) ≡ false → Owed id s → Owed id (wait_reply k s).1
  unfolding Owed Queued
  look-Owed id k s n h = elim (wait_reply-cases k s) [
    | inl e ↦ subst (Owed id) (sym e.1) h
    | inr (r, at, out, e) ↦
        subst (Owed id) (sym e)
          (λ q here. h q (sym (get_elem?-set_ne s.replies _ (ground arith)) ∙ here))
  ]

module _ {ℓ κ υ} {S : Type ℓ} {C : Type κ} {V : Type υ} (handle : C → S → V × S)
    (ends : C → Bool) where
  serve-Owed :
      (id i : ℕ) (shard : Shard S C) (received : C × ℕ) (queue : List (C × ℕ)) (s : ShardSet S C V)
      → get_elem? s.handles i ≡ some shard
      → shard.queue ≡ received ∷ queue
      → ends received.0 ≡ false
      → Owed id s
      → Owed id (serve handle ends i shard received queue s)
  unfolding Owed Queued serve
  serve-Owed id i shard received queue s at q n h = rw n λ r here.
      elim (send_reply-cases s.replies received.1 (handle received.0 shard.state).0) [
        | inl (gone, e) ↦ elim (Bool-cases (received.1 == id)) [
          | inl same ↦
              let here' =
                ap (get_elem? s.replies) ((==_iff received.1 id).0 same)
                ∙ ap (λ x. get_elem? x id) (sym e)
                ∙ here in
              absurd (cc)
          | inr other ↦ kept r other (h r (ap (λ x. get_elem? x id) (sym e) ∙ here))
        ]
        | inr (slot, there, e) ↦
            elim (get_elem?-set_cases s.replies (send (handle received.0 shard.state).0 slot).after
              received.1 id r (ap (λ x. get_elem? x id) (sym e) ∙ here)) [
                | inl p ↦
                    let filled = send-fills (handle received.0 shard.state).0 slot in
                    inl (filled.0, ap (λ x. x.value) (sym p.1) ∙ filled.1)
                | inr p ↦ kept r (==_of_ne received.1 id p.0) (h r p.1)
              ]
      ]
    where
      served : Shard S C
      served = record shard { state = (handle received.0 shard.state).1; queue = queue }

      kept :
          (r : ReplyState V)
          → (received.1 == id) ≡ false
          → ((v : V) × (r.value ≡ some v)) ⊎ Queued id s
          → ((v : V) × (r.value ≡ some v))
            ⊎ Queued id (record s { handles = set s.handles i served })
      kept r other (inl filled) = inl filled
      kept r other (inr (j, owner, there, c)) = elim (Bool-cases (i == j)) [
        | inl e ↦
            let there' : get_elem? s.handles i ≡ some owner = rw ((==_iff i j).0 e) there in
            let p : owner ≡ shard = cc in
            let c' = subst (λ x. contains id (ids x.queue) ≡ true) p c in
            inr (
              i,
              served,
              get_elem?-set_self s.handles i served (get_elem?-lt s.handles i shard at),
              queued_rest id received queue other (subst (λ x. contains id (ids x) ≡ true) q c'),
            )
        | inr e ↦ inr (j, owner, get_elem?-set_ne s.handles served (ground arith) ∙ there, c)
      ]

  pub turn-Owed :
      (ss : List S) (vs : List V) (id i : ℕ) (s : ShardSet S C V)
      → Ordered handle ends ss vs s
      → Owed id s
      → Owed id (Shards.turn handle ends i s)
  unfolding Foretold
  turn-Owed ss vs id i s o h = elim (turn-cases handle ends i s) [
    | inl e ↦ subst (Owed id) (sym e.0) h
    | inr (shard, received, queue, at, q, e) ↦
        let foretold =
          subst (λ ps. Foretold handle ends ps shard.state vs) q (o.states i shard at).2 in
        subst (Owed id) (sym e) (serve-Owed id i shard received queue s at q foretold.0 h)
  ]

  -- The event is not a look at the reply `id`.
  abbrev pub Untaken : ℕ → Event C → Type 0
  Untaken id (look k) = (k == id) ≡ false
  Untaken id e = Unit

  pub step-Owed :
      (ss : List S) (vs : List V) (id : ℕ) (s : ShardSet S C V) (e : Event C)
      → Ordered handle ends ss vs s
      → Untaken id e
      → Owed id s
      → Owed id (step handle ends e s)
  unfolding step
  step-Owed ss vs id s (request i c) o n h = accepted-Owed id i c s _ _ (request_on-Accepts i c s) h
  step-Owed ss vs id s (try_request i c) o n h =
      accepted-Owed id i c s _ _ (try_request_on-Accepts i c s) h
  step-Owed ss vs id s (stop i c) o n h = accepted-Owed id i c s _ _ (stop_on-Accepts i c s) h
  step-Owed ss vs id s (turn i) o n h = turn-Owed ss vs id i s o h
  step-Owed ss vs id s (look k) o n h = look-Owed id k s n h
