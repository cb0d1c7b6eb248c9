-- ===== src/Discovery/Runs.antt =====
-- Concrete runs of the discovery.

use native.Mathlib.Decide.{ℕ_discrete}
use wi_vrn.Common.{◌≡◌, refl, List, [], ◌∷◌, none, some, Bool, true, false, arith}
use wi_vrn.Discovery.{
  Text, Key, srv, a, same, same_text, CacheEntry, erase_expired, Address, v4, Service, matching,
  find_txt, send_query, update, refresh, timeout_from,
}
use wi_vrn.Discovery.Cache.{timeout_of, HasDistinctKeys, unexpired}
use wi_vrn.Discovery.Cache.Known.{response, reading, CacheEvent, handle_all, last_told, read-told}
use wi_vrn.Discovery.Search.{visit_ptr, visit_srv}
use wi_vrn.Discovery.Search.Addresses.{all_addresses}
use wi_vrn.Discovery.Servers.{
  ServerData, update_server_list, auto_connect, connect_to_session, try_addresses, put_server,
}
use wi_vrn.Discovery.Servers.Announced.{Matches, auto_connect-announced}

abbrev host : Text
host = 104 ∷ []

abbrev other : Text
other = 111 ∷ []

abbrev pointer : Text
pointer = 112 ∷ []

abbrev address_key : Key
address_key = (host, a 7)

-- An address for two minutes, a read, another record, and the address once more.
abbrev events : List CacheEvent
events =
    response 1000 address_key 120
    ∷ reading 2000
    ∷ response 3000 (host, a 8) 1
    ∷ response 4000 address_key 60
    ∷ []

read-told_example :
    (timeout_of address_key (erase_expired 5000 (handle_all events []))
      ≡ unexpired 5000 (last_told address_key none events))
    × HasDistinctKeys (erase_expired 5000 (handle_all events []))
read-told_example = read-told address_key events 5000 (omega arith) (omega arith)

last_told_run : unexpired 5000 (last_told address_key none events) ≡ some 64000
unfolding same ℕ_discrete
last_told_run = refl

-- A time to live of 2^31 is over at once.
abbrev negative : List CacheEvent
negative = response 4000 address_key 0x80000000 ∷ []

negative_run : erase_expired 4000 (handle_all negative []) ≡ []
unfolding handle_all update erase_expired refresh timeout_from
negative_run = refl

-- A pointer with two SRV records on two hosts.
abbrev cache : List CacheEntry
cache =
    record { timeout = 90000; key = (pointer, srv host 9757) }
    ∷ record { timeout = 90000; key = (pointer, srv other 9757) }
    ∷ record { timeout = 90000; key = (host, a 7) }
    ∷ record { timeout = 90000; key = (other, a 8) }
    ∷ []

-- The service on the second host has the address of the first one, too.
second_host :
    all_addresses (visit_ptr 1000 cache (115 ∷ []) pointer ([], 10000, [])).0
    ≡ (v4 7 ∷ []) ∷ (v4 7 ∷ v4 8 ∷ []) ∷ []
unfolding visit_ptr visit_srv matching same_text send_query ℕ_discrete
second_host = refl

abbrev service : Service
service = record {
  name = [];
  hostname = host;
  port = 9757;
  addresses = v4 7 ∷ [];
  txts =
      (99 ∷ 111 ∷ 111 ∷ 107 ∷ 105 ∷ 101 ∷ [], 1 ∷ [])
      ∷ (112 ∷ 114 ∷ 111 ∷ 116 ∷ 111 ∷ 99 ∷ 111 ∷ 108 ∷ [], 5 ∷ [])
      ∷ [];
  ttl = 90000;
}

abbrev known : ServerData
known = record {
  autoconnect = true;
  manual = false;
  visible = true;
  compatible = true;
  service = service;
}

abbrev opens : Address → Bool
opens address = true

auto_connect-announced_example :
    Matches (5 ∷ []) (service ∷ []) service
    × (connect_to_session opens none (5 ∷ []) service false ≡ try_addresses opens (v4 7 ∷ []))
unfolding update_server_list auto_connect find_txt same_text put_server ℕ_discrete
auto_connect-announced_example =
    auto_connect-announced opens none false (5 ∷ []) (service ∷ []) ((1 ∷ [], known) ∷ [])
      ((1 ∷ [], known) ∷ []) known refl refl
