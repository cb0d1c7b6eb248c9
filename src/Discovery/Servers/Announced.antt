-- ===== src/Discovery/Servers/Announced.antt =====
-- The servers that the lobby of client/scenes/lobby.cpp connects to by itself, and those that were
-- discovered.

use wi_vrn.Common.{
  ◌≡◌, ◌⊎◌, refl, ap, ◌∙◌, inl, inr, List, [], ◌∷◌, Option, none, some, Bool, true, false, ◌&&◌,
  ◌||◌, Bool-cases, Option-cases, All, arith,
}
use mathlib.Core.Path.{subst}
use wi_vrn.Discovery.{Text, Address, Service, find_txt, same_text, same_text_iff}
use wi_vrn.Discovery.Servers.{
  protocol_field, ServerData, Servers, hide_all, cookie_of, has_cookie, put_server, put_services,
  comes_before, update_server_list, auto_connect, try_addresses, connect_to_session,
}

-- A service is among some.
abbrev pub IsAmong : Service → List Service → Type 0
IsAmong s [] = ⊥
IsAmong s (t ∷ services) = (s ≡ t) ⊎ IsAmong s services

-- A service with a cookie of its own and the protocol of the client.
pub record Matches (version : Text) (services : List Service) (s : Service) : Type 0 where
  pub among : IsAmong s services
  pub cookie : has_cookie s ≡ true
  pub protocol : find_txt protocol_field s.txts ≡ some version

abbrev IsBacked : Text → List Service → Text × ServerData → Type 0
IsBacked version services e =
    ((e.1.visible && e.1.compatible) ≡ false) ⊎ Matches version services e.1.service

hide_all-IsBacked :
    (version : Text) (services : List Service) (servers : Servers)
    → All (IsBacked version services) (hide_all servers)
unfolding hide_all
hide_all-IsBacked version services [] = tt
hide_all-IsBacked version services (e ∷ servers) =
    (inl refl, hide_all-IsBacked version services servers)

new-IsBacked :
    (version : Text) (all : List Service) (s : Service) (p cookie : Text)
    (autoconnect manual : Bool)
    → IsAmong s all
    → find_txt protocol_field s.txts ≡ some p
    → IsBacked version all (
      cookie,
      record {
        autoconnect = autoconnect;
        manual = manual;
        visible = true;
        compatible = has_cookie s && same_text p version;
        service = s;
      },
    )
new-IsBacked version all s p cookie autoconnect manual m e =
    elim (Bool-cases (has_cookie s && same_text p version)) [
      | inr n ↦ inl n
      | inl y ↦
          let both : (has_cookie s ≡ true) × (same_text p version ≡ true) = ground arith in
          inr (record {
            among = m;
            cookie = both.0;
            protocol = e ∙ ap (λ (t : Text). some t) ((same_text_iff p version).0 both.1);
          })
    ]

put_server-IsBacked :
    (version : Text) (all : List Service) (s : Service) (p : Text) (servers : Servers)
    → IsAmong s all
    → find_txt protocol_field s.txts ≡ some p
    → All (IsBacked version all) servers
    → All
        (IsBacked version all)
        (put_server (cookie_of s) (has_cookie s && same_text p version) s servers)
unfolding put_server
put_server-IsBacked version all s p [] m e b =
    (new-IsBacked version all s p (cookie_of s) false false m e, tt)
put_server-IsBacked version all s p (i ∷ servers) m e b =
    elim (Bool-cases (same_text i.0 (cookie_of s))) [
      | inl y ↦ rw y (new-IsBacked version all s p i.0 i.1.autoconnect i.1.manual m e, b.1)
      | inr n ↦ rw n (elim (Bool-cases (comes_before (cookie_of s) i.0)) [
        | inl y ↦ rw y (new-IsBacked version all s p (cookie_of s) false false m e, b)
        | inr n' ↦ rw n' (b.0, put_server-IsBacked version all s p servers m e b.1)
      ])
    ]

put_services-IsBacked :
    (version : Text) (all services : List Service) (servers last : Servers)
    → ((s : Service) → IsAmong s services → IsAmong s all)
    → put_services version services servers ≡ some last
    → All (IsBacked version all) servers
    → All (IsBacked version all) last
unfolding put_services
put_services-IsBacked version all [] servers last sub e b =
    let p : servers ≡ last = cc in rw (← p) b
put_services-IsBacked version all (s ∷ services) servers last sub e b =
    elim (Option-cases (find_txt protocol_field s.txts)) [
      | inl n ↦ let e' : none ≡ some last = rw (n, put_services) at e in cc
      | inr (p, h) ↦
          let servers' = put_server (cookie_of s) (has_cookie s && same_text p version) s servers in
          let e' : put_services version services servers' ≡ some last = rw (h, put_services) at e in
          put_services-IsBacked version all services servers' last (λ t m. sub t (inr m)) e'
            (put_server-IsBacked version all s p servers (sub s (inl refl)) h b)
    ]

auto_connect-backed :
    (force : Bool) (version : Text) (all : List Service) (servers : Servers) (data' : ServerData)
    → All (IsBacked version all) servers
    → auto_connect force servers ≡ some data'
    → Matches version all data'.service
unfolding auto_connect
auto_connect-backed force version all [] data' b e = cc
auto_connect-backed force version all (i ∷ servers) data' b e =
    elim (Bool-cases (i.1.visible && ((i.1.autoconnect || force) && i.1.compatible))) [
      | inr n ↦ auto_connect-backed force version all servers data' b.1 (rw (n, auto_connect) at e)
      | inl y ↦
          let e' : some i.1 ≡ some data' = rw (y, auto_connect) at e in
          let same : i.1 ≡ data' = cc in
          elim (b.0) [
            | inl n ↦ absurd (ground arith)
            | inr m ↦ subst (λ (d : ServerData). Matches version all d.service) same m
          ]
    ]

connect-Matches :
    (opens : Address → Bool) (resolved : Option (List Address)) (version : Text)
    (services : List Service) (s : Service)
    → Matches version services s
    → connect_to_session opens resolved version s false ≡ try_addresses opens s.addresses
unfolding connect_to_session
connect-Matches opens resolved version services s m =
    rw (m.protocol, connect_to_session) (rw ((same_text_iff version version).1 refl) refl)

-- When the list of servers was updated from the services that were discovered, whatever the list was
-- before: a server that the lobby connects to by itself is at one of these services, which has a
-- cookie and the protocol of the client, so that connecting to it as a discovered server tries all
-- addresses of the service, in their order.
pub auto_connect-announced :
    (opens : Address → Bool) (resolved : Option (List Address)) (force : Bool) (version : Text)
    (services : List Service) (servers last : Servers) (data' : ServerData)
    → update_server_list version services servers ≡ some last
    → auto_connect force last ≡ some data'
    → Matches version services data'.service
      × (connect_to_session opens resolved version data'.service false
          ≡ try_addresses opens data'.service.addresses)
unfolding update_server_list
auto_connect-announced opens resolved force version services servers last data' u e =
    let backed =
      put_services-IsBacked version services services (hide_all servers) last (λ s m. m) u
        (hide_all-IsBacked version services servers) in
    let m = auto_connect-backed force version services last data' backed e in
    (m, connect-Matches opens resolved version services data'.service m)

-- A service without a protocol makes the update read through the end iterator of its map.
pub update_server_list-faulty :
    (version : Text) (s : Service) (services : List Service) (servers : Servers)
    → find_txt protocol_field s.txts ≡ none
    → update_server_list version (s ∷ services) servers ≡ none
unfolding update_server_list put_services
update_server_list-faulty version s services servers e = rw (e, put_services) refl
