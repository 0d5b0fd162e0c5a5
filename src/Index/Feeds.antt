-- ===== src/Index/Feeds.antt =====
-- crates/sitas-core/src/mailbox_index.rs: what one scanner sends to one assembler, and what the
-- assembler makes of the messages of two scanners in any order.
use mathlib.Core.Path.{subst}
use sitas.Common.{
  ℕ, suc, ◌+◌, ◌≡◌, refl, sym, ap, ◌∙◌, some, List, [], ◌∷◌, ◌++◌, arith, append-nil, append_assoc,
}
use sitas.Kv.Keys.{Key, insert_sorted, sort}
use sitas.Kv.Keys.Sorting.{sort_onto, sort-append, sort_onto-insert_sorted}
use sitas.Index.Entry.{IndexEntry, entry_key}
use sitas.Index.Scanner.{IndexMessage}
use sitas.Index.Assembler.{receive}

-- `zs` has the elements of `xs` and those of `ys`, each in their order.
pub data Interleaving {ℓ} {A : Type ℓ} : List A → List A → List A → Type ℓ where
  done : Interleaving [] [] []
  left : {xs ys zs : List A} (x : A) → Interleaving xs ys zs → Interleaving (x ∷ xs) ys (x ∷ zs)
  right : {xs ys zs : List A} (y : A) → Interleaving xs ys zs → Interleaving xs (y ∷ ys) (y ∷ zs)

-- What a producer still sends: nothing, or some batches and then its last message. The entries in
-- the batches, and the number of last messages.
pub data Feed : List IndexMessage → List IndexEntry → ℕ → Type 0 where
  ended : Feed [] [] 0
  last : (from : ℕ) → Feed (IndexMessage.producer_done from ∷ []) [] 1
  more :
      {ms : List IndexMessage} {p : List IndexEntry} (from : ℕ) (batch : List IndexEntry)
      → Feed ms p 1
      → Feed (IndexMessage.entries from batch ∷ ms) (batch ++ p) 1

module _ {ℓ} {K : Type ℓ} ⦃key : Key K⦄ where
  sort_onto_comm :
      (xs ys t : List K) → sort_onto xs (sort_onto ys t) ≡ sort_onto ys (sort_onto xs t)
  unfolding sort_onto
  sort_onto_comm [] ys t = refl
  sort_onto_comm (x ∷ xs) ys t =
      ap (insert_sorted x) (sort_onto_comm xs ys t)
      ∙ sym (sort_onto-insert_sorted x ys (sort_onto xs t))

  -- Two parts can be exchanged.
  pub sort_swap : (xs ys zs : List K) → sort (xs ++ (ys ++ zs)) ≡ sort (ys ++ (xs ++ zs))
  sort_swap xs ys zs =
      sort-append xs (ys ++ zs)
      ∙ ap (sort_onto xs) (sort-append ys zs)
      ∙ sort_onto_comm xs ys (sort zs)
      ∙ sym (ap (sort_onto ys) (sort-append xs zs))
      ∙ sym (sort-append ys (xs ++ zs))

  pub sort_right : (acc xs ys : List K) → sort xs ≡ sort ys → sort (acc ++ xs) ≡ sort (acc ++ ys)
  sort_right acc xs ys e = sort-append acc xs ∙ ap (sort_onto acc) e ∙ sym (sort-append acc ys)

abbrev Received : ℕ → List IndexMessage → List IndexEntry → List IndexEntry → Type 0
Received n zs acc all =
    (found : List IndexEntry) × (receive n zs acc ≡ some found) × (sort found ≡ sort (acc ++ all))

receive_done :
    (n m from : ℕ) (zs : List IndexMessage) (acc all : List IndexEntry)
    → suc m ≡ n
    → Received m zs acc all
    → Received n (IndexMessage.producer_done from ∷ zs) acc all
unfolding receive
receive_done n m from zs acc all e r =
    subst (λ n. Received n (IndexMessage.producer_done from ∷ zs) acc all) e r

receive_batch :
    (n m from : ℕ) (batch rest : List IndexEntry) (zs : List IndexMessage)
    (acc all : List IndexEntry)
    → suc m ≡ n
    → sort (batch ++ rest) ≡ sort all
    → Received n zs (acc ++ batch) rest
    → Received n (IndexMessage.entries from batch ∷ zs) acc all
unfolding receive
receive_batch n m from batch rest zs acc all e s (found, r, q) = (
  found,
  subst
      (λ n.
        receive n zs (acc ++ batch) ≡ some found
        → receive n (IndexMessage.entries from batch ∷ zs) acc ≡ some found)
      e (λ h. h) r,
  q ∙ ap sort (append_assoc acc batch rest) ∙ sort_right acc (batch ++ rest) all s,
)

-- The assembler gets all entries of both producers, whatever the order.
pub receive_lem :
    {xs ys zs : List IndexMessage} {p q : List IndexEntry} {i j : ℕ} (acc : List IndexEntry)
    → Interleaving xs ys zs
    → Feed xs p i
    → Feed ys q j
    → Received (i + j) zs acc (p ++ q)
unfolding receive
receive_lem acc Interleaving.done Feed.ended Feed.ended =
    (acc, refl, ap sort (sym (append-nil acc)))
receive_lem {q = q} {j = j} acc (Interleaving.left {zs = zs} x m) (Feed.last from) g =
    receive_done (1 + j) (0 + j) from _ acc q (omega arith) (receive_lem acc m Feed.ended g)
receive_lem {q = q} {j = j} acc (Interleaving.left x m) (Feed.more {p = p} from batch f) g =
    receive_batch (1 + j) j from batch (p ++ q) _ acc _ (omega arith)
      (ap sort (sym (append_assoc batch p q))) (receive_lem (acc ++ batch) m f g)
receive_lem {p = p} {i = i} acc (Interleaving.right y m) f (Feed.last from) =
    receive_done (i + 1) (i + 0) from _ acc (p ++ []) (omega arith) (receive_lem acc m f Feed.ended)
receive_lem {p = p} {i = i} acc (Interleaving.right y m) f (Feed.more {p = q} from batch g) =
    receive_batch (i + 1) i from batch (p ++ q) _ acc _ (omega arith) (sort_swap batch p q)
      (receive_lem (acc ++ batch) m f g)

-- The entries of runs that arrive in any order.
pub Interleaving-sort {ℓ κ} :
    {A : Type ℓ} {K : Type κ} ⦃key : Key K⦄ (f : List A → List K)
    → ((x : A) (xs : List A) → f (x ∷ xs) ≡ f (x ∷ []) ++ f xs)
    → f [] ≡ []
    → {xs ys zs : List A} → Interleaving xs ys zs
    → sort (f zs) ≡ sort (f xs ++ f ys)
Interleaving-sort f c n Interleaving.done = rw n refl
Interleaving-sort f c n (Interleaving.left {xs = xs} {ys = ys} {zs = zs} x m) =
    ap sort (c x zs)
    ∙ sort_right (f (x ∷ [])) (f zs) (f xs ++ f ys) (Interleaving-sort f c n m)
    ∙ ap sort (sym (append_assoc (f (x ∷ [])) (f xs) (f ys)))
    ∙ ap (λ u. sort (u ++ f ys)) (sym (c x xs))
Interleaving-sort f c n (Interleaving.right {xs = xs} {ys = ys} {zs = zs} y m) =
    ap sort (c y zs)
    ∙ sort_right (f (y ∷ [])) (f zs) (f xs ++ f ys) (Interleaving-sort f c n m)
    ∙ sort_swap (f (y ∷ [])) (f xs) (f ys)
    ∙ ap (λ u. sort (f xs ++ u)) (sym (c y ys))
