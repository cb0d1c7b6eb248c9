-- ===== src/Discovery/Search.antt =====
-- `wivrn_discover::discover` of client/wivrn_discover.cpp: what a turn finds in the cache. The calls of
-- one turn are taken to happen at one time.

pub mod Addresses
use wi_vrn.Common.{
  ℕ, zero, suc, ◌+◌, ◌-◌, ◌^◌, ◌≡◌, refl, List, [], ◌∷◌, ◌++◌, Option, none, some, Bool, true,
  false, not, ◌&&◌, ◌||◌, ltb, leb, ◌==◌, if◌then◌else◌, min, map, length, take, drop,
}
use Prim.Native.Nat.{max}
use wi_vrn.Discovery.{
  Text, CacheEntry, Key, erase_expired, matching, get_ptr, get_srv, get_a, get_aaaa, get_txt,
  Address, Query, ptr_query, srv_query, any_query, send_query, Service, set_txts, same_text, update,
}

abbrev pub poll_min_time : ℕ
poll_min_time = 500

abbrev pub poll_max_time : ℕ
poll_max_time = 10000

abbrev pub discover_period : ℕ
discover_period = 5000

-- `milliseconds::max()`.
abbrev pub longest : ℕ
longest = 2 ^ 63 - 1

pub record Discoverer : Type 0 where
  pub cache : List CacheEntry
  pub last_queries : List (ℕ × Query)
  pub services : List Service
  pub next_query : ℕ
  pub poll_timeout : ℕ

-- `ends_with`, then `substr`: the text without a suffix, or the text itself.
unfoldable pub strip_suffix : Text → Text → Text
strip_suffix suffix t =
    let kept = length t - length suffix in
    if leb (length suffix) (length t) && same_text (drop kept t) suffix then take kept t else t

-- ".local." and ".".
abbrev local_suffix : Text
local_suffix = 46 ∷ 108 ∷ 111 ∷ 99 ∷ 97 ∷ 108 ∷ 46 ∷ []

abbrev dot : Text
dot = 46 ∷ []

unfoldable pub strip_hostname : Text → Text
unfolding strip_suffix
strip_hostname t =
    let short = strip_suffix local_suffix t in
    if ltb (length short) (length t) then short else strip_suffix dot t

-- The variables of the loop over the SRV records of a pointer: `s`, which is declared outside of it,
-- `services_staging`, `srv_min_ttl`, `srv_found`, `poll_timeout` and the queries.
pub record Visit : Type 0 where
  pub service : Service
  pub staged : List Service
  pub srv_found : Bool
  pub srv_min_ttl : ℕ
  pub poll_timeout : ℕ
  pub last_queries : List (ℕ × Query)

-- The least time left of some answers.
unfoldable pub min_ttl : {A : Type 0} → ℕ → List (A × ℕ) → ℕ → ℕ
min_ttl now [] least = least
min_ttl now (e ∷ more) least = min_ttl now more (min (e.1 - now) least)

unfoldable pub addresses_of : ℕ → List CacheEntry → Text → List (Address × ℕ)
addresses_of now cache hostname = matching get_a hostname cache ++ matching get_aaaa hostname cache

unfoldable pub visit_srv : ℕ → List CacheEntry → Text → (Text × ℕ) × ℕ → Visit → Visit
unfolding min_ttl addresses_of strip_hostname
visit_srv now cache p ((hostname, port), ttl) v =
    let found = addresses_of now cache hostname in
    let least = min_ttl now found longest in
    let asks = (elim found [ [] ↦ true | f ∷ more ↦ false ]) || ltb least 5000 in
    let s = record v.service {
      hostname = strip_hostname hostname;
      port = port;
      ttl = ttl;
      addresses = v.service.addresses ++ map (λ (f : Address × ℕ). f.0) found;
      txts = set_txts (matching get_txt p cache) v.service.txts;
    } in
    record {
      service = s;
      staged = v.staged ++ (s ∷ []);
      srv_found = true;
      srv_min_ttl = min (ttl - now) v.srv_min_ttl;
      poll_timeout = if asks then v.poll_timeout else min v.poll_timeout (least - 4000);
      last_queries =
          if asks then (send_query now (any_query, hostname) v.last_queries).0 else v.last_queries;
    }

unfoldable pub visit_srvs : ℕ → List CacheEntry → Text → List ((Text × ℕ) × ℕ) → Visit → Visit
visit_srvs now cache p [] v = v
visit_srvs now cache p (r ∷ srvs) v = visit_srvs now cache p srvs (visit_srv now cache p r v)

abbrev pub new_service : Text → Service
new_service name = record {
  name = name;
  hostname = [];
  port = 0;
  addresses = [];
  txts = [];
  ttl = 0;
}

-- A turn of the loop over the pointers, for `services_staging`, `poll_timeout` and the queries.
unfoldable pub visit_ptr :
    ℕ
    → List CacheEntry
    → Text
    → Text
    → List Service × ℕ × List (ℕ × Query)
    → List Service × ℕ × List (ℕ × Query)
unfolding visit_srvs
visit_ptr now cache service_name p (staged, poll_timeout, last_queries) =
    let v = visit_srvs now cache p (matching get_srv p cache) (record {
      service = new_service (strip_suffix (dot ++ service_name) p);
      staged = staged;
      srv_found = false;
      srv_min_ttl = longest;
      poll_timeout = poll_timeout;
      last_queries = last_queries;
    }) in
    let asks = not v.srv_found || ltb v.srv_min_ttl 10000 in
    (
      v.staged,
      if asks then v.poll_timeout else min v.poll_timeout (v.srv_min_ttl - 9000),
      if asks then (send_query now (srv_query, p) v.last_queries).0 else v.last_queries,
    )

unfoldable pub visit_ptrs :
    ℕ
    → List CacheEntry
    → Text
    → List (Text × ℕ)
    → List Service × ℕ × List (ℕ × Query)
    → List Service × ℕ × List (ℕ × Query)
unfolding visit_ptr
visit_ptrs now cache service_name [] r = r
visit_ptrs now cache service_name (p ∷ ptrs) r =
    visit_ptrs now cache service_name ptrs (visit_ptr now cache service_name p.0 r)

-- What mDNS answered meanwhile: keys with their times to live.
unfoldable pub receive_responses : ℕ → List (Key × ℕ) → List CacheEntry → List CacheEntry
receive_responses now [] cache = cache
receive_responses now (r ∷ responses) cache =
    receive_responses now responses (update now r.0 r.1 cache)

-- How long the turn polls.
unfoldable pub clamp_timeout : ℕ → ℕ
clamp_timeout t = max poll_min_time (min t poll_max_time)

-- A turn of the loop, for the time at which polling ends.
unfoldable pub discover_turn : Text → ℕ → List (Key × ℕ) → Discoverer → Discoverer
unfolding visit_ptrs receive_responses
discover_turn service_name now responses d =
    let received = receive_responses now responses d.cache in
    let due = ltb d.next_query now in
    let queries =
      if due then (send_query now (ptr_query, service_name) d.last_queries).0 else d.last_queries in
    let next_query = if due then now + discover_period else d.next_query in
    let cache = erase_expired now received in
    let (staged, poll_timeout, last_queries) =
      visit_ptrs now cache service_name (matching get_ptr service_name cache)
        ([], min poll_max_time (next_query - now), queries) in
    record {
      cache = cache;
      last_queries = last_queries;
      services = staged;
      next_query = next_query;
      poll_timeout = clamp_timeout poll_timeout;
    }

-- `get_services`.
unfoldable pub get_services : ℕ → List Service → List Service
get_services now [] = []
get_services now (s ∷ services) =
    if ltb s.ttl now then get_services now services else s ∷ get_services now services
