-- ===== src/Queue.antt =====
-- `utils::sync_queue` of common/utils/sync_queue.h. Each operation runs under the mutex; one that
-- waits on the condition variable is `blocked` until another operation changes the queue.

mod Order
mod Runs
use wi_vrn.Common.{
  ℕ, ◌≡◌, ◌≢◌, refl, ap, sym, ◌∙◌, List, [], ◌∷◌, ◌++◌, Option, none, some, Bool, true, false,
  if◌then◌else◌, Bool-cases, inl, inr, ◌⊎◌, arith, All,
}
use wi_vrn.Common.{Result, ok, err, queue_closed}

pub record SyncQueue {ℓ} (A : Type ℓ) : Type ℓ where
  pub queue : List A
  pub closed : Bool

-- The state of a call that may wait.
pub data Wait {ℓ} (A : Type ℓ) : Type ℓ where
  blocked : Wait A
  done : A → Wait A

module _ {A : Type 0} where
  unfoldable pub push : A → SyncQueue A → SyncQueue A
  push a q = record q { queue = q.queue ++ (a ∷ []) }

  unfoldable pub close : SyncQueue A → SyncQueue A
  close q = record q { closed = true }

  -- The wait that `pop_if`, `pop` and `peek` begin with, then what they do with the first item
  -- and the rest.
  unfoldable pub with_front : {B : Type 0} → SyncQueue A → (A → List A → B) → Wait (Result B)
  with_front q f = elim (q.queue) [
    | [] ↦ if q.closed then done (err queue_closed) else blocked
    | a ∷ rest ↦ if q.closed then done (err queue_closed) else done (ok (f a rest))
  ]

  unfoldable pub pop_if : (A → Bool) → SyncQueue A → Wait (Result (Option A × SyncQueue A))
  unfolding with_front
  pop_if pred q =
      with_front q λ a rest. if pred a then (some a, record q { queue = rest }) else (none, q)

  unfoldable pub pop : SyncQueue A → Wait (Result (A × SyncQueue A))
  unfolding with_front
  pop q = with_front q λ a rest. (a, record q { queue = rest })

  unfoldable pub peek : SyncQueue A → Wait (Result A)
  unfolding with_front
  peek q = with_front q λ a rest. a

  unfoldable pub drop_items : (A → Bool) → List A → List A
  drop_items pred [] = []
  drop_items pred (a ∷ rest) = if pred a then a ∷ rest else drop_items pred rest

  unfoldable pub drop_until : (A → Bool) → SyncQueue A → SyncQueue A
  unfolding drop_items
  drop_until pred q = record q { queue = drop_items pred q.queue }

  -- Pushes of several items, the first one first.
  unfoldable pub push_all : List A → SyncQueue A → SyncQueue A
  push_all [] q = q
  push_all (a ∷ items) q = push_all items (push a q)

  -- As many calls of `pop`, one after the other, as items are listed, return these items in
  -- this order and leave the last queue.
  unfoldable pub Pops : List A → SyncQueue A → SyncQueue A → Type 0
  Pops [] q last = q ≡ last
  Pops (a ∷ items) q last =
      (rest : SyncQueue A) × ((pop q ≡ done (ok (a, rest))) × Pops items rest last)
