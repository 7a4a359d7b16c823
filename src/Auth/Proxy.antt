-- ===== src/Auth/Proxy.antt =====
-- Client addresses behind reverse proxies, fastapi_admin_kit/auth/proxy.py. `IpAddress` stands for the
-- module `ipaddress`; texts are lists of code points.
pub mod Chain
mod Tests
use fastapi_admin_kit.Base.{
  ℕ, Bool, true, false, not, ◌&&◌, ◌||◌, Option, none, some, List, [], ◌∷◌, map, reverse, keep,
  find, any, codes, if◌then◌else◌,
}
use fastapi_admin_kit.Base.Dict.{Dict, lookup}
use fastapi_admin_kit.Base.Text.{Unicode, split, strip, is_infix}

-- `ip_address`, `ip_network(strict=False)`, `in` and `==`; `none` is a `ValueError`.
pub record IpAddress : Type 1 where
  pub Address : Type 0
  pub Network : Type 0
  pub ip_address : List ℕ → Option Address
  pub ip_network : List ℕ → Option Network
  pub in_network : Address → Network → Bool
  pub eq_address : Address → Address → Bool

-- `app.state.admin_config`: the wired dict, an `AdminConfig` with its `auth`, or neither.
pub data AdminConfig : Type 0 where
  wired : Dict (List (List ℕ)) → AdminConfig
  raw : Option (List (List ℕ)) → AdminConfig
  missing : AdminConfig

pub record Request : Type 0 where
  pub client : Option (List ℕ)
  pub forwarded : Option (List ℕ)
  pub admin_config : AdminConfig

abbrev pub unknown_ip : List ℕ
unknown_ip = codes "unknown"

-- `not s` for a text
abbrev pub is_empty : List ℕ → Bool
is_empty [] = true
is_empty (_ ∷ _) = false

abbrev pub or_empty : Option (List (List ℕ)) → List (List ℕ)
or_empty none = []
or_empty (some entries) = entries

module _ (u : Unicode) (ip : IpAddress) where
  pub data Proxy : Type 0 where
    network : ip.Network → Proxy
    address : ip.Address → Proxy

  abbrev parse_network : List ℕ → Option Proxy
  parse_network text = elim (ip.ip_network text) [ some n ↦ some (network n) | none ↦ none ]

  abbrev parse_address : List ℕ → Option Proxy
  parse_address text = elim (ip.ip_address text) [ some a ↦ some (address a) | none ↦ none ]

  -- One entry; `none` is an entry that is skipped.
  unfoldable pub parse_entry : List ℕ → Option Proxy
  parse_entry entry =
      let text = strip u.is_space entry in
      if is_empty text
      then none
      else (if is_infix (codes "/") text then parse_network text else parse_address text)

  unfoldable pub parse_each : List (List ℕ) → List Proxy
  unfolding parse_entry
  parse_each [] = []
  parse_each (entry ∷ entries) =
      let rest = parse_each entries in
      elim (parse_entry entry) [ some proxy ↦ proxy ∷ rest | none ↦ rest ]

  unfoldable pub parse_trusted_proxies : Option (List (List ℕ)) → List Proxy
  unfolding parse_each
  parse_trusted_proxies entries = parse_each (or_empty entries)

  unfoldable pub get_trusted_proxies : Request → List Proxy
  unfolding parse_trusted_proxies
  get_trusted_proxies r = parse_trusted_proxies (elim r.admin_config [
    | wired config ↦ lookup "trusted_proxies" config
    | raw entries ↦ entries
    | missing ↦ none
  ])

  abbrev pub is_match : ip.Address → Proxy → Bool
  is_match addr (network n) = ip.in_network addr n
  is_match addr (address a) = ip.eq_address addr a

  unfoldable pub is_trusted : List ℕ → List Proxy → Bool
  is_trusted host trusted = elim (ip.ip_address host) [
    | none ↦ false
    | some addr ↦ any (is_match addr) trusted
  ]

  -- `[c.strip() for c in forwarded.split(",") if c.strip()]`
  unfoldable pub candidates : List ℕ → List (List ℕ)
  candidates forwarded =
      keep (λ c. not (is_empty c)) (map (strip u.is_space) (split b',' forwarded))

  unfoldable pub peer_of : Request → List ℕ
  peer_of r = elim r.client [ some host ↦ host | none ↦ unknown_ip ]

  abbrev pub no_proxies : List Proxy → Bool
  no_proxies [] = true
  no_proxies (_ ∷ _) = false

  -- The loop over the chain from the right, and the fallback behind it.
  unfoldable pub first_untrusted : List Proxy → List ℕ → List (List ℕ) → List ℕ
  unfolding is_trusted
  first_untrusted trusted peer chain = elim (find (λ c. not (is_trusted c trusted)) chain) [
    | some candidate ↦ candidate
    | none ↦ peer
  ]

  unfoldable pub get_client_ip : Request → List ℕ
  unfolding get_trusted_proxies is_trusted candidates peer_of first_untrusted
  get_client_ip r =
      let peer = peer_of r in
      let trusted = get_trusted_proxies r in
      elim r.forwarded [
        | none ↦ peer
        | some forwarded ↦
            if is_empty forwarded || no_proxies trusted || not (is_trusted peer trusted)
            then peer
            else first_untrusted trusted peer (reverse (candidates forwarded))
      ]
