-- ===== src/Discovery/Cache/Known.antt =====
-- What the cache of client/wivrn_discover.cpp gives back, by the responses that came.

use wi_vrn.Common.{
  ℕ, ◌+◌, ◌*◌, ◌^◌, ◌≤◌, ◌<◌, ◌≡◌, ◌&&◌, leb, All, refl, sym, ap, ◌∙◌, List, [], ◌∷◌, Option, none,
  some, true, ltb, ◌==◌, if◌then◌else◌, Bool-cases, inl, inr, arith,
}
use wi_vrn.Discovery.{Key, same, CacheEntry, timeout_from, update, erase_expired}
use wi_vrn.Discovery.Cache.{
  timeout_of, HasDistinctKeys, unexpired, timeout_of-update, timeout_of-expired, expired-distinct,
  update-distinct,
}

-- A response about a key, with its time to live in seconds, or a `read`, at a time.
pub data CacheEvent : Type 0 where
  response : ℕ → Key → ℕ → CacheEvent
  reading : ℕ → CacheEvent

abbrev pub time_of : CacheEvent → ℕ
time_of (response now k ttl) = now
time_of (reading now) = now

unfoldable pub handle : CacheEvent → List CacheEntry → List CacheEntry
handle (response now k ttl) cache = update now k ttl cache
handle (reading now) cache = erase_expired now cache

unfoldable pub handle_all : List CacheEvent → List CacheEntry → List CacheEntry
unfolding handle
handle_all [] cache = cache
handle_all (e ∷ events) cache = handle_all events (handle e cache)

-- The times of the events ascend, from one time to another.
abbrev pub AreOrdered : ℕ → List CacheEvent → ℕ → Type 0
AreOrdered before [] now = before ≤ now
AreOrdered before (e ∷ events) now = (before ≤ time_of e) × AreOrdered (time_of e) events now

-- The end of a time to live of 32 bits, in seconds; one of 2^31 or more is over at once.
abbrev pub end_of : ℕ → ℕ → Option ℕ
end_of now ttl = if leb 1 ttl && ltb ttl (2 ^ 31) then some (now + 1000 * ttl) else none

-- The end of what the last response about a key said, if it did not take the key back.
abbrev pub told : Key → CacheEvent → Option ℕ → Option ℕ
told k (response now k' ttl) before = if same k' k then (end_of now ttl) else before
told k (reading now) before = before

abbrev pub last_told : Key → Option ℕ → List CacheEvent → Option ℕ
last_told k before [] = before
last_told k before (e ∷ events) = last_told k (told k e before) events

-- The time to live of a response has 32 bits.
abbrev pub IsWord : CacheEvent → Type 0
IsWord (response now k ttl) = ttl < 2 ^ 32
IsWord (reading now) = Unit {0}

-- What the cache has of a key is what was told, but for what is over.
Agrees : ℕ → Option ℕ → Option ℕ → Type 0
Agrees now has said = unexpired now has ≡ unexpired now said

unexpired-later :
    (now now' : ℕ) (x : Option ℕ) → now ≤ now' → unexpired now' (unexpired now x) ≡ unexpired now' x
unexpired-later now now' none h = refl
unexpired-later now now' (some t) h = elim (Bool-cases (ltb t now)) [
  | inl y ↦ let over : ltb t now' ≡ true = ground arith in rw (y, over) refl
  | inr n ↦ rw n refl
]

Agrees-expired :
    (now : ℕ) (has said : Option ℕ) → Agrees now has said → Agrees now (unexpired now has) said
unfolding Agrees
Agrees-expired now has said a = unexpired-later now now has (omega arith) ∙ a

Agrees-later :
    (now now' : ℕ) (has said : Option ℕ) → now ≤ now' → Agrees now has said → Agrees now' has said
unfolding Agrees
Agrees-later now now' has said h a =
    sym (unexpired-later now now' has h) ∙ ap (unexpired now') a ∙ unexpired-later now now' said h

-- The timeout that a response gives, and the end of its time to live.
told-Agrees :
    (now ttl : ℕ)
    → 1 ≤ now
    → ttl < 2 ^ 32
    → Agrees now (if ttl == 0 then none else some (timeout_from now ttl)) (end_of now ttl)
unfolding Agrees timeout_from
told-Agrees now ttl h w = ground arith

handle-Agrees :
    (k : Key) (e : CacheEvent) (now : ℕ) (cache : List CacheEntry) (said : Option ℕ)
    → 1 ≤ now
    → now ≤ time_of e
    → IsWord e
    → HasDistinctKeys cache
    → Agrees now (timeout_of k cache) said
    → HasDistinctKeys (handle e cache)
      × Agrees (time_of e) (timeout_of k (handle e cache)) (told k e said)
unfolding handle
handle-Agrees k (response now k' ttl) before cache said o h w d a = (
  update-distinct now k' ttl cache d,
  elim (Bool-cases (same k' k)) [
    | inl t ↦ rw (timeout_of-update now k' ttl k cache, t) (told-Agrees now ttl (omega arith) w)
    | inr f ↦
        rw (timeout_of-update now k' ttl k cache, f)
          (Agrees-later before now (timeout_of k cache) said h a)
  ],
)
handle-Agrees k (reading now) before cache said o h w d a = (
  expired-distinct now cache d,
  rw (timeout_of-expired now k cache d) (
      Agrees-expired now (timeout_of k cache) said
        (Agrees-later before now (timeout_of k cache) said h a)),
)

handle_all-Agrees :
    (k : Key) (events : List CacheEvent) (before now : ℕ) (cache : List CacheEntry)
    (said : Option ℕ)
    → 1 ≤ before
    → AreOrdered before events now
    → All IsWord events
    → HasDistinctKeys cache
    → Agrees before (timeout_of k cache) said
    → HasDistinctKeys (handle_all events cache)
      × Agrees now (timeout_of k (handle_all events cache)) (last_told k said events)
unfolding handle_all
handle_all-Agrees k [] before now cache said h o w d a =
    (d, Agrees-later before now (timeout_of k cache) said o a)
handle_all-Agrees k (e ∷ events) before now cache said h o w d a =
    let one = handle-Agrees k e before cache said h o.0 w.0 d a in
    handle_all-Agrees k events (time_of e) now (handle e cache) (told k e said) (omega (arith, o.0))
      o.1 w.1 one.0 one.1

-- After any responses and reads, in the order of time and not at the time 0, a read at a time not
-- before them finds of each key exactly what the last response about it said: nothing if there was
-- none, if its time to live was 0 or was 2^31 or more, which is negative there, or if that is over,
-- and otherwise its end; and no key twice.
pub read-told :
    (k : Key) (events : List CacheEvent) (now : ℕ)
    → AreOrdered 1 events now
    → All IsWord events
    → (timeout_of k (erase_expired now (handle_all events []))
        ≡ unexpired now (last_told k none events))
      × HasDistinctKeys (erase_expired now (handle_all events []))
unfolding Agrees
read-told k events now o w =
    let cache = handle_all events [] in
    let all =
      handle_all-Agrees k events 1 now [] none (omega arith) o w (unfold HasDistinctKeys in tt)
        (unfold timeout_of in refl) in
    (timeout_of-expired now k cache all.0 ∙ all.1, expired-distinct now cache all.0)
