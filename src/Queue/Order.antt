-- ===== src/Queue/Order.antt =====
-- The order of items in `utils::sync_queue` of common/utils/sync_queue.h, and the queue after
-- `close`.

use wi_vrn.Common.{
  ◌≡◌, refl, ap, sym, ◌∙◌, List, [], ◌∷◌, ◌++◌, Bool, true, false, if◌then◌else◌, Bool-cases, inl,
  inr, some, none, append_assoc, append-nil, All, take, ◌⊎◌,
}
use wi_vrn.Common.{err, queue_closed}
use wi_vrn.Queue.{
  SyncQueue, done, push, close, pop_if, pop, peek, drop_items, drop_until, push_all, Pops,
  with_front,
}

module _ {A : Type 0} where
  push_all-queue :
      (items : List A) (q : SyncQueue A) → push_all items q ≡ record q { queue = q.queue ++ items }
  unfolding push_all push
  push_all-queue [] q = ap (λ l. record q { queue = l }) (sym (append-nil q.queue))
  push_all-queue (a ∷ items) q =
      push_all-queue items (push a q)
      ∙ ap (λ l. record q { queue = l }) (append_assoc q.queue (a ∷ []) items)

  pops :
      (items : List A) (q : SyncQueue A)
      → q.closed ≡ false
      → q.queue ≡ items
      → Pops items q (record q { queue = [] })
  unfolding Pops pop with_front
  pops [] q opened p = ap (λ l. record q { queue = l }) p
  pops (a ∷ items) q opened p = (
    record q { queue = items },
    (rw (p, opened) refl, pops items (record q { queue = items }) opened refl),
  )

  -- First in, first out: items pushed on an empty queue that is not closed come back from as many
  -- calls of `pop`, each without waiting, in the order they were pushed, and leave it empty.
  pub push_all-Pops :
      (items : List A) (q : SyncQueue A)
      → q.closed ≡ false
      → q.queue ≡ []
      → Pops items (push_all items q) (record q { queue = [] })
  push_all-Pops items q opened empty =
      rw (push_all-queue items q, empty) (pops items (record q { queue = items }) opened refl)

  List-cases : (l : List A) → (l ≡ []) ⊎ ((a : A) × (rest : List A) × (l ≡ a ∷ rest))
  List-cases [] = inl refl
  List-cases (a ∷ rest) = inr (a, rest, refl)

  with_front-closed :
      {B : Type 0} (q : SyncQueue A) (f : A → List A → B)
      → q.closed ≡ true
      → with_front q f ≡ done (err queue_closed)
  unfolding with_front
  with_front-closed q f h = elim (List-cases q.queue) [
    | inl p ↦ rw (p, h) refl
    | inr (a, rest, p) ↦ rw (p, h) refl
  ]

  -- After `close`, every call that takes or looks at an item throws `sync_queue_closed`, also if
  -- items are left, and none waits.
  pub close-refuses :
      (q : SyncQueue A) (pred : A → Bool)
      → (pop (close q) ≡ done (err queue_closed))
        × ((peek (close q) ≡ done (err queue_closed))
            × (pop_if pred (close q) ≡ done (err queue_closed)))
  unfolding close pop peek pop_if
  close-refuses q pred = (
    with_front-closed (close q) (λ a rest. (a, record q { queue = rest; closed = true })) refl,
    (
      with_front-closed (close q) (λ a rest. a) refl,
      with_front-closed (close q)
          (λ a rest.
            if pred a then (some a, record q { queue = rest; closed = true }) else (none, close q))
          refl,
    ),
  )

  drop_items-front :
      (pred : A → Bool) (items : List A)
      → (dropped : List A) × ((items ≡ dropped ++ drop_items pred items)
          × (All (λ a. pred a ≡ false) dropped
              × All (λ a. pred a ≡ true) (take 1 (drop_items pred items))))
  unfolding drop_items
  drop_items-front pred [] = ([], (refl, (tt, tt)))
  drop_items-front pred (a ∷ rest) = elim (Bool-cases (pred a)) [
    | inl t ↦ ([], rw t (refl, (tt, (t, tt))))
    | inr f ↦
        let (dropped, (p, (q, r))) = drop_items-front pred rest in
        (a ∷ dropped, rw f (ap (λ l. a ∷ l) p, ((refl, q), r)))
  ]

  -- What `drop_until` drops is a prefix of the queue no item of which satisfies the predicate, and
  -- the item left at the front, if there is one, satisfies it.
  pub drop_until-front :
      (pred : A → Bool) (q : SyncQueue A)
      → (dropped : List A) × ((q.queue ≡ dropped ++ (drop_until pred q).queue)
          × (All (λ a. pred a ≡ false) dropped
              × All (λ a. pred a ≡ true) (take 1 (drop_until pred q).queue)))
  unfolding drop_until
  drop_until-front pred q = drop_items-front pred q.queue
