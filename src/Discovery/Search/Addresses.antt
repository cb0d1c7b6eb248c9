-- ===== src/Discovery/Search/Addresses.antt =====
-- The addresses of the services that `discover` of client/wivrn_discover.cpp finds.

use wi_vrn.Common.{ℕ, ◌≡◌, refl, sym, ap, ◌∙◌, List, [], ◌∷◌, ◌++◌, append_assoc, append-nil, map}
use wi_vrn.Discovery.{Text, CacheEntry, matching, get_srv, Address, Query, Service}
use wi_vrn.Discovery.Search.{Visit, addresses_of, visit_srv, visit_srvs, visit_ptr}

-- What `read` gives for the addresses of a host.
abbrev pub host_addresses : ℕ → List CacheEntry → (Text × ℕ) × ℕ → List Address
host_addresses now cache r = map (λ (f : Address × ℕ). f.0) (addresses_of now cache r.0.0)

-- The lists joined with all that stand before them.
abbrev pub cumulative : List Address → List (List Address) → List (List Address)
cumulative before [] = []
cumulative before (l ∷ more) = (before ++ l) ∷ cumulative (before ++ l) more

abbrev pub all_addresses : List Service → List (List Address)
all_addresses services = map (λ (s : Service). s.addresses) services

map-append_addresses :
    (xs ys : List Service) → all_addresses (xs ++ ys) ≡ all_addresses xs ++ all_addresses ys
map-append_addresses [] ys = refl
map-append_addresses (x ∷ xs) ys = ap (◌∷◌ x.addresses) (map-append_addresses xs ys)

visit_srv-joins :
    (now : ℕ) (cache : List CacheEntry) (p : Text) (r : (Text × ℕ) × ℕ) (v : Visit)
    (more : List (List Address))
    → all_addresses (visit_srv now cache p r v).staged
        ++ cumulative (visit_srv now cache p r v).service.addresses more
      ≡ all_addresses v.staged ++ cumulative v.service.addresses (host_addresses now cache r ∷ more)
unfolding visit_srv
visit_srv-joins now cache p r v more =
    let joined = v.service.addresses ++ host_addresses now cache r in
    ap (λ l. l ++ cumulative joined more)
      (map-append_addresses v.staged ((visit_srv now cache p r v).service ∷ []))
    ∙ append_assoc (all_addresses v.staged) (joined ∷ []) (cumulative joined more)

visit_srvs-addresses :
    (now : ℕ) (cache : List CacheEntry) (p : Text) (srvs : List ((Text × ℕ) × ℕ)) (v : Visit)
    → all_addresses (visit_srvs now cache p srvs v).staged
      ≡ all_addresses v.staged
        ++ cumulative v.service.addresses (map (host_addresses now cache) srvs)
unfolding visit_srvs
visit_srvs-addresses now cache p [] v = sym (append-nil (all_addresses v.staged))
visit_srvs-addresses now cache p (r ∷ srvs) v =
    visit_srvs-addresses now cache p srvs (visit_srv now cache p r v)
    ∙ visit_srv-joins now cache p r v (map (host_addresses now cache) srvs)

-- The services that are found for a pointer are one for each of its SRV records, and have the addresses
-- of the record's host, behind those of the hosts of all records before it: only the first
-- has the addresses of its own host alone.
pub visit_ptr-addresses :
    (now : ℕ) (cache : List CacheEntry) (service_name p : Text) (staged : List Service)
    (poll_timeout : ℕ) (last_queries : List (ℕ × Query))
    → all_addresses (visit_ptr now cache service_name p (staged, poll_timeout, last_queries)).0
      ≡ all_addresses staged
        ++ cumulative [] (map (host_addresses now cache) (matching get_srv p cache))
unfolding visit_ptr
visit_ptr-addresses now cache service_name p staged poll_timeout last_queries =
    visit_srvs-addresses now cache p (matching get_srv p cache) _
