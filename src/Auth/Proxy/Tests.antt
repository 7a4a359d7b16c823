-- ===== src/Auth/Proxy/Tests.antt =====
-- A forged header, and other runs of fastapi_admin_kit/auth/proxy.py.
use fastapi_admin_kit.Fixtures.{ascii}
use fastapi_admin_kit.Base.{ℕ, false, none, some, List, [], ◌∷◌, codes, ◌≡◌, refl, ◌⊎◌}
use fastapi_admin_kit.Base.Text.{eq_codes, starts_with, split, strip, lstrip, is_infix}
use fastapi_admin_kit.Auth.Proxy.{
  IpAddress, Request, wired, peer_of, candidates, get_trusted_proxies, parse_trusted_proxies,
  parse_each, parse_entry, is_trusted, first_untrusted, get_client_ip,
}
use fastapi_admin_kit.Auth.Proxy.Chain.{with_forwarded, get_client_ip-forged}

-- Addresses are texts, and a network is a prefix.
abbrev texts : IpAddress
texts = record {
  Address = List ℕ;
  Network = List ℕ;
  ip_address = λ s. some s;
  ip_network = λ s. some s;
  in_network = λ a n. starts_with n a;
  eq_address = λ a b. eq_codes a b;
}

abbrev behind : Request
behind = record {
  client = some (codes "10.0.0.1");
  forwarded = none;
  admin_config = wired (("trusted_proxies", codes "10.0.0.1" ∷ codes "10.0.0.2" ∷ []) ∷ []);
}

client_found :
    get_client_ip ascii texts (with_forwarded (codes "6.6.6.6, 1.2.3.4, 10.0.0.2") behind)
    ≡ codes "1.2.3.4"
unfolding get_client_ip get_trusted_proxies parse_trusted_proxies parse_each parse_entry is_trusted
    candidates peer_of first_untrusted split strip lstrip is_infix eq_codes starts_with
client_found = refl

get_client_ip-forged_example :
    (get_client_ip ascii texts (with_forwarded (codes "6.6.6.6, 1.2.3.4, 10.0.0.2") behind)
      ≡ get_client_ip ascii texts (with_forwarded (codes " 1.2.3.4, 10.0.0.2") behind))
    × ((get_client_ip ascii texts (with_forwarded (codes " 1.2.3.4, 10.0.0.2") behind)
          ≡ peer_of ascii texts behind)
        ⊎ (is_trusted ascii texts
              (get_client_ip ascii texts (with_forwarded (codes " 1.2.3.4, 10.0.0.2") behind))
              (get_trusted_proxies ascii texts behind)
            ≡ false))
unfolding get_trusted_proxies parse_trusted_proxies parse_each parse_entry is_trusted candidates
    split strip lstrip is_infix eq_codes starts_with
get_client_ip-forged_example =
    get_client_ip-forged ascii texts behind (codes "6.6.6.6") (codes " 1.2.3.4, 10.0.0.2") refl
