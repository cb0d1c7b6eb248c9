-- ===== src/Discovery.antt =====
-- The discovery of servers on the headset: `dnssd_cache` and `wivrn_discover` of
-- client/wivrn_discover.cpp and .h. The sockets, and the parser of mDNS, are third-party code; times
-- are milliseconds.

pub mod Cache
pub mod Search
pub mod Servers
mod Runs
use Prim.Native.Nat.{max}
use native.Mathlib.Decide.{ℕ_discrete}
use wi_vrn.Common.{
  ℕ, zero, suc, ◌+◌, ◌-◌, ◌*◌, ◌^◌, ◌≡◌, refl, sym, ap, ◌↔◌, List, [], ◌∷◌, ◌++◌, Option, none,
  some, Bool, true, false, not, ◌&&◌, ◌||◌, ltb, leb, ◌==◌, if◌then◌else◌, min,
}

-- A text, by its bytes, and an address, by its number.
abbrev pub Text : Type 0
Text = List ℕ

pub data Record : Type 0 where
  ptr : Text → Record
  srv : Text → ℕ → Record
  a : ℕ → Record
  aaaa : ℕ → Record
  txt : Text → Text → Record

-- What two entries are compared by: the name and the record.
abbrev pub Key : Type 0
Key = Text × Record

-- The Boolean of a decision.
abbrev decided : {A : Type 0} → Dec A → Bool
decided (yes p) = true
decided (no n) = false

decided_iff : {A : Type 0} (d : Dec A) → (decided d ≡ true) ↔ A
decided_iff (yes p) = ((λ e. p), λ q. refl)
decided_iff (no n) = ((λ e. absurd (n (cc))), λ q. absurd (n q))

Key-discrete : Discrete Key
Key-discrete = hlevel ℕ_discrete

unfoldable pub same : Key → Key → Bool
unfolding Key-discrete
same k k' = decided (Key-discrete k k')

-- Two keys, texts or queries are the same exactly if the tests say so.
pub same_iff : (k k' : Key) → (same k k' ≡ true) ↔ (k ≡ k')
unfolding same
same_iff k k' = decided_iff (Key-discrete k k')

Text-discrete : Discrete Text
Text-discrete = hlevel ℕ_discrete

unfoldable pub same_text : Text → Text → Bool
unfolding Text-discrete
same_text t t' = decided (Text-discrete t t')

pub same_text_iff : (t t' : Text) → (same_text t t' ≡ true) ↔ (t ≡ t')
unfolding same_text
same_text_iff t t' = decided_iff (Text-discrete t t')

pub record CacheEntry : Type 0 where
  pub timeout : ℕ
  pub key : Key

-- `std::erase_if` of the entries that are equal to one.
unfoldable pub erase : Key → List CacheEntry → List CacheEntry
erase k [] = []
erase k (i ∷ cache) = if same i.key k then erase k cache else i ∷ erase k cache

-- `std::find`, then a new timeout or a new entry at the end.
unfoldable pub refresh : CacheEntry → List CacheEntry → List CacheEntry
refresh e [] = e ∷ []
refresh e (i ∷ cache) =
    if same i.key e.key then record i { timeout = e.timeout } ∷ cache else i ∷ refresh e cache

-- `now + seconds(ttl)` for a `uint32_t` that became an `int`: from 2^31 on it is negative. A time before
-- 0 is taken to be 0, which is before every time at which the cache is read.
unfoldable pub timeout_from : ℕ → ℕ → ℕ
timeout_from now ttl =
    if ltb ttl (2 ^ 31) then now + 1000 * ttl else now + 1000 * ttl - 1000 * 2 ^ 32

-- `update`, with the time to live in seconds.
unfoldable pub update : ℕ → Key → ℕ → List CacheEntry → List CacheEntry
unfolding erase refresh
update now key ttl cache =
    if ttl == 0
    then erase key cache
    else refresh (record { timeout = timeout_from now ttl; key = key }) cache

unfoldable pub erase_expired : ℕ → List CacheEntry → List CacheEntry
erase_expired now [] = []
erase_expired now (i ∷ cache) =
    if ltb i.timeout now then erase_expired now cache else i ∷ erase_expired now cache

-- The loop of `read`, for the entries that are left: `get` is `std::get` of the type asked for.
unfoldable pub matching : {A : Type 0} → (Record → Option A) → Text → List CacheEntry → List (A × ℕ)
matching get name [] = []
matching get name (i ∷ cache) = elim (get i.key.1) [
  | none ↦ matching get name cache
  | some r ↦
      if same_text i.key.0 name
      then (r, i.timeout) ∷ matching get name cache
      else matching get name cache
]

abbrev pub get_ptr : Record → Option Text
get_ptr (ptr name) = some name
get_ptr _ = none

abbrev pub get_srv : Record → Option (Text × ℕ)
get_srv (srv hostname port) = some (hostname, port)
get_srv _ = none

-- An address of either kind, with its version of the protocol.
pub data Address : Type 0 where
  v4 v6 : ℕ → Address

abbrev pub get_a : Record → Option Address
get_a (a n) = some (v4 n)
get_a _ = none

abbrev pub get_aaaa : Record → Option Address
get_aaaa (aaaa n) = some (v6 n)
get_aaaa _ = none

abbrev pub get_txt : Record → Option (Text × Text)
get_txt (txt key value) = some (key, value)
get_txt _ = none

pub data QueryType : Type 0 where
  ptr_query srv_query any_query : QueryType

QueryType-discrete : Discrete (QueryType × Text)
QueryType-discrete = hlevel ℕ_discrete

abbrev pub Query : Type 0
Query = QueryType × Text

unfoldable pub same_query : Query → Query → Bool
unfolding QueryType-discrete
same_query q q' = decided (QueryType-discrete q q')

pub same_query_iff : (q q' : Query) → (same_query q q' ≡ true) ↔ (q ≡ q')
unfolding same_query
same_query_iff q q' = decided_iff (QueryType-discrete q q')

-- The erasure of queries that were sent more than five seconds ago.
unfoldable pub forget_queries : ℕ → List (ℕ × Query) → List (ℕ × Query)
forget_queries now [] = []
forget_queries now (q ∷ queries) =
    if ltb 5000 (now - q.0) then forget_queries now queries else q ∷ forget_queries now queries

unfoldable pub was_sent : Query → List (ℕ × Query) → Bool
was_sent q [] = false
was_sent q (p ∷ queries) = same_query p.1 q || was_sent q queries

-- `send_query`: whether the query goes out, and what is kept of the last ones.
unfoldable pub send_query : ℕ → Query → List (ℕ × Query) → List (ℕ × Query) × Bool
unfolding forget_queries was_sent
send_query now q last_queries =
    let kept = forget_queries now last_queries in
    if was_sent q kept then (kept, false) else (kept ++ ((now, q) ∷ []), true)

pub record Service : Type 0 where
  pub name : Text
  pub hostname : Text
  pub port : ℕ
  pub addresses : List Address
  pub txts : List (Text × Text)
  pub ttl : ℕ

-- `s.txt[key] = value`, for a map that is only looked up in.
unfoldable pub set_txt : Text → Text → List (Text × Text) → List (Text × Text)
set_txt key value [] = (key, value) ∷ []
set_txt key value (e ∷ txts) =
    if same_text e.0 key then (key, value) ∷ txts else e ∷ set_txt key value txts

unfoldable pub set_txts : List ((Text × Text) × ℕ) → List (Text × Text) → List (Text × Text)
unfolding set_txt
set_txts [] txts = txts
set_txts (e ∷ more) txts = set_txts more (set_txt e.0.0 e.0.1 txts)

-- `std::map::find`.
unfoldable pub find_txt : Text → List (Text × Text) → Option Text
find_txt key [] = none
find_txt key (e ∷ txts) = if same_text e.0 key then some e.1 else find_txt key txts
