-- ===== src/Discovery/Servers.antt =====
-- The list of servers in the lobby: `update_server_list`, the connection that `render` makes by itself,
-- and `connect_to_session`, of client/scenes/lobby.cpp. Opening a session and resolving a name are
-- seen by their outcome.

pub mod Announced
use wi_vrn.Common.{
  ◌≡◌, ◌⊎◌, refl, ap, ◌∙◌, inl, inr, List, [], ◌∷◌, ◌++◌, Option, none, some, Bool, true, false,
  ◌&&◌, ◌||◌, ltb, ◌==◌, if◌then◌else◌, Bool-cases, Option-cases, All, arith,
}
use mathlib.Core.Path.{subst}
use wi_vrn.Discovery.{Text, Address, Service, find_txt, same_text, same_text_iff}

-- "cookie" and "protocol".
abbrev cookie_field : Text
cookie_field = 99 ∷ 111 ∷ 111 ∷ 107 ∷ 105 ∷ 101 ∷ []

abbrev pub protocol_field : Text
protocol_field = 112 ∷ 114 ∷ 111 ∷ 116 ∷ 111 ∷ 99 ∷ 111 ∷ 108 ∷ []

pub record ServerData : Type 0 where
  pub autoconnect : Bool
  pub manual : Bool
  pub visible : Bool
  pub compatible : Bool
  pub service : Service

-- `servers`, by the cookies, in the order of `std::map`.
abbrev pub Servers : Type 0
Servers = List (Text × ServerData)

unfoldable pub hide_all : Servers → Servers
hide_all [] = []
hide_all (e ∷ servers) = (e.0, record e.1 { visible = false }) ∷ hide_all servers

abbrev pub cookie_of : Service → Text
cookie_of s = elim (find_txt cookie_field s.txts) [ none ↦ s.hostname | some c ↦ c ]

abbrev pub has_cookie : Service → Bool
has_cookie s = elim (find_txt cookie_field s.txts) [ none ↦ false | some c ↦ true ]

-- The order of texts.
unfoldable pub comes_before : Text → Text → Bool
comes_before [] [] = false
comes_before [] (b ∷ t') = true
comes_before (a ∷ t) [] = false
comes_before (a ∷ t) (b ∷ t') = ltb a b || (a == b && comes_before t t')

abbrev discovered : Bool → Service → ServerData
discovered compatible s = record {
  autoconnect = false;
  manual = false;
  visible = true;
  compatible = compatible;
  service = s;
}

-- A new entry in its place, or what is known of the server now.
unfoldable pub put_server : Text → Bool → Service → Servers → Servers
unfolding comes_before
put_server cookie compatible s [] = (cookie, discovered compatible s) ∷ []
put_server cookie compatible s (e ∷ servers) =
    if same_text e.0 cookie
    then (e.0, record e.1 { visible = true; service = s; compatible = compatible }) ∷ servers
    else if comes_before cookie e.0
    then (cookie, discovered compatible s) ∷ (e ∷ servers)
    else e ∷ put_server cookie compatible s servers

-- The loop over the services; `none` where the code reads through the end iterator, since it looks
-- at the protocol of a service that has none.
unfoldable pub put_services : Text → List Service → Servers → Option Servers
put_services version [] servers = some servers
put_services version (s ∷ services) servers = elim (find_txt protocol_field s.txts) [
  | none ↦ none
  | some p ↦
      put_services version services
        (put_server (cookie_of s) (has_cookie s && same_text p version) s servers)
]

unfoldable pub update_server_list : Text → List Service → Servers → Option Servers
unfolding put_services hide_all
update_server_list version services servers = put_services version services (hide_all servers)

-- The server that `render` connects to by itself.
unfoldable pub auto_connect : Bool → Servers → Option ServerData
auto_connect force [] = none
auto_connect force (e ∷ servers) =
    if e.1.visible && ((e.1.autoconnect || force) && e.1.compatible)
    then some e.1
    else auto_connect force servers

-- What comes of connecting: a session with an address, or an error.
pub data Connecting : Type 0 where
  connected : Address → Connecting
  no_protocol incompatible unresolved refused : Connecting

-- The loop over the addresses. `opens` is whether a session is made with one.
unfoldable pub try_addresses : (Address → Bool) → List Address → Connecting
try_addresses opens [] = refused
try_addresses opens (address ∷ more) =
    if opens address then connected address else try_addresses opens more

-- `resolved` is what `getaddrinfo` gives, which is asked for servers that were entered by hand.
unfoldable pub connect_to_session :
    (Address → Bool) → Option (List Address) → Text → Service → Bool → Connecting
unfolding try_addresses
connect_to_session opens resolved version s true = elim resolved [
  | none ↦ unresolved
  | some addresses ↦ try_addresses opens (s.addresses ++ addresses)
]
connect_to_session opens resolved version s false = elim (find_txt protocol_field s.txts) [
  | none ↦ no_protocol
  | some p ↦ if same_text p version then try_addresses opens s.addresses else incompatible
]
