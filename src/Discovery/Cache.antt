-- ===== src/Discovery/Cache.antt =====
-- What the cache of client/wivrn_discover.cpp knows after any responses and reads.

pub mod Known
use wi_vrn.Common.{
  ℕ, zero, suc, ◌+◌, ◌-◌, ◌*◌, ◌≤◌, ◌<◌, ◌≡◌, ◌≢◌, ◌↔◌, ◌⊎◌, refl, sym, ap, ◌∙◌, List, [], ◌∷◌,
  ◌++◌, Option, none, some, Bool, true, false, ltb, leb, ◌==◌, if◌then◌else◌, Bool-cases,
  Option-cases, inl, inr, arith, ltb→lt,
}
use wi_vrn.Discovery.{
  Key, same, CacheEntry, erase, refresh, timeout_from, update, erase_expired, same_iff,
}

-- The timeout of the first entry of a key.
unfoldable pub timeout_of : Key → List CacheEntry → Option ℕ
timeout_of k [] = none
timeout_of k (i ∷ cache) = if same i.key k then some i.timeout else timeout_of k cache

same_self : (k : Key) → same k k ≡ true
same_self k = (same_iff k k).1 refl

-- Two keys that are the same are not told apart from a third.
same-left : (k k' j : Key) → same k k' ≡ true → same k j ≡ same k' j
same-left k k' j h = ap (λ x. same x j) ((same_iff k k').0 h)

same-right : (i k j : Key) → same k j ≡ true → same i k ≡ same i j
same-right i k j h = ap (λ x. same i x) ((same_iff k j).0 h)

same-sym : (k j : Key) → same k j ≡ same j k
same-sym k j = ground (
  arith,
  same-right k k j,
  same-right j j k,
  same_self k,
  same_self j,
  same-right k j k,
  same-right j k j,
)

timeout_of-erase :
    (k j : Key) (cache : List CacheEntry)
    → timeout_of j (erase k cache) ≡ (if same k j then none else timeout_of j cache)
unfolding timeout_of erase
timeout_of-erase k j [] = ground arith
timeout_of-erase k j (i ∷ cache) =
    ground (arith, timeout_of-erase k j cache, same-left i.key k j, same-right i.key k j)

timeout_of-refresh :
    (e : CacheEntry) (j : Key) (cache : List CacheEntry)
    → timeout_of j (refresh e cache) ≡ (if same e.key j then some e.timeout else timeout_of j cache)
unfolding timeout_of refresh
timeout_of-refresh e j [] = refl
timeout_of-refresh e j (i ∷ cache) =
    ground (arith, timeout_of-refresh e j cache, same-left i.key e.key j, same-right i.key e.key j)

pub timeout_of-update :
    (now : ℕ) (k : Key) (ttl : ℕ) (j : Key) (cache : List CacheEntry)
    → timeout_of j (update now k ttl cache) ≡ (
        if same k j
        then (if ttl == 0 then none else some (timeout_from now ttl))
        else timeout_of j cache)
unfolding update
timeout_of-update now k ttl j cache = ground (
  arith,
  timeout_of-erase k j cache,
  timeout_of-refresh (record { timeout = timeout_from now ttl; key = k }) j cache,
)

-- No key stands twice in the cache.
unfoldable pub HasDistinctKeys : List CacheEntry → Type 0
HasDistinctKeys [] = Unit {0}
HasDistinctKeys (i ∷ cache) = (timeout_of i.key cache ≡ none) × HasDistinctKeys cache

-- A timeout, unless it is over.
abbrev pub unexpired : ℕ → Option ℕ → Option ℕ
unexpired now none = none
unexpired now (some t) = if ltb t now then none else some t

pub timeout_of-expired :
    (now : ℕ) (k : Key) (cache : List CacheEntry)
    → HasDistinctKeys cache
    → timeout_of k (erase_expired now cache) ≡ unexpired now (timeout_of k cache)
unfolding HasDistinctKeys timeout_of erase_expired
timeout_of-expired now k [] d = refl
timeout_of-expired now k (i ∷ cache) d =
    let ih = timeout_of-expired now k cache d.1 in
    elim (Bool-cases (same i.key k)) [
      | inl s ↦
          let gone : timeout_of k cache ≡ none =
            ap (λ x. timeout_of x cache) (sym ((same_iff i.key k).0 s)) ∙ d.0 in
          let ih' : timeout_of k (erase_expired now cache) ≡ none = rw gone at ih in
          elim (Bool-cases (ltb i.timeout now)) [
            | inl t ↦ rw (t, s) (rw t ih')
            | inr f ↦ rw (f, s) (rw f refl)
          ]
      | inr n ↦ elim (Bool-cases (ltb i.timeout now)) [
        | inl t ↦ rw (t, n) ih
        | inr f ↦ rw (f, n) ih
      ]
    ]

erase-distinct :
    (k : Key) (cache : List CacheEntry) → HasDistinctKeys cache → HasDistinctKeys (erase k cache)
unfolding HasDistinctKeys erase
erase-distinct k [] d = tt
erase-distinct k (i ∷ cache) d = elim (Bool-cases (same i.key k)) [
  | inl t ↦ rw t (erase-distinct k cache d.1)
  | inr f ↦ rw f (ground (arith, timeout_of-erase k i.key cache), erase-distinct k cache d.1)
]

refresh-distinct :
    (e : CacheEntry) (cache : List CacheEntry)
    → HasDistinctKeys cache
    → HasDistinctKeys (refresh e cache)
unfolding HasDistinctKeys refresh timeout_of
refresh-distinct e [] d = (refl, tt)
refresh-distinct e (i ∷ cache) d = elim (Bool-cases (same i.key e.key)) [
  | inl t ↦ rw t d
  | inr f ↦ rw f (
    ground (arith, timeout_of-refresh e i.key cache, same-sym i.key e.key),
    refresh-distinct e cache d.1,
  )
]

pub expired-distinct :
    (now : ℕ) (cache : List CacheEntry)
    → HasDistinctKeys cache
    → HasDistinctKeys (erase_expired now cache)
unfolding HasDistinctKeys erase_expired
expired-distinct now [] d = tt
expired-distinct now (i ∷ cache) d = elim (Bool-cases (ltb i.timeout now)) [
  | inl t ↦ rw t (expired-distinct now cache d.1)
  | inr f ↦ rw f (
    timeout_of-expired now i.key cache d.1 ∙ ap (unexpired now) d.0,
    expired-distinct now cache d.1,
  )
]

pub update-distinct :
    (now : ℕ) (k : Key) (ttl : ℕ) (cache : List CacheEntry)
    → HasDistinctKeys cache
    → HasDistinctKeys (update now k ttl cache)
unfolding update
update-distinct now k ttl cache d = elim (Bool-cases (ttl == 0)) [
  | inl t ↦ rw t (erase-distinct k cache d)
  | inr f ↦ rw f (refresh-distinct (record { timeout = timeout_from now ttl; key = k }) cache d)
]
