-- ===== src/Config/Cache/Settings.antt =====
-- Where the settings of fastapi_admin_kit/config/cache.py come from.
use fastapi_admin_kit.Base.{
  String, false, Option, none, some, All, ◌≡◌, ◌⊎◌, inl, inr, refl, arith, ◌↔◌, Option-cases,
}
use fastapi_admin_kit.Base.Int.{ℤ, pos, ltb_ℤ}
use fastapi_admin_kit.Base.Result.{ok, bind-eq-ok}
use fastapi_admin_kit.Base.Text.{Unicode}
use fastapi_admin_kit.Config.Cache.{
  Environ, CacheArguments, CacheConfig, limits, default_cache_ttl, default_rate_limit,
  default_rate_window, env_int, int_setting, new_cache_config, validate_cache_config,
}

-- A setting is the argument, or else the number that the variable holds, or else the default.
module _ (u : Unicode) (env : Environ) where
  abbrev pub IsSetting : Option ℤ → String → ℤ → ℤ → Type 0
  IsSetting (some n) name default v = v ≡ n
  IsSetting none name default v =
      ((env name ≡ none) × (v ≡ default))
      ⊎ ((s : String) × (env name ≡ some s) × (u.parse_int s ≡ some v))

  int_setting-IsSetting :
      (argument : Option ℤ) (name : String) (default v : ℤ)
      → int_setting u env argument name default ≡ ok v
      → IsSetting argument name default v
  unfolding int_setting env_int
  int_setting-IsSetting (some n) name default v e = ground (arith, e)
  int_setting-IsSetting none name default v e = elim (Option-cases (env name)) [
    | inl f ↦ inl (f, ground (arith, e, f))
    | inr (s, f) ↦ inr (s, f, ground (arith, e, f))
  ]

  move :
      (argument : Option ℤ) (name : String) {default default' v v' : ℤ}
      → default ≡ default'
      → v ≡ v'
      → IsSetting argument name default v
      → IsSetting argument name default' v'
  move argument name e f h = rw (← e, ← f) h

  -- A configuration that is built takes each number from its argument, or else from its variable, or
  -- else from its default; the defaults of the login limit and of its window are the limit and the
  -- window of the lists.
  pub new_cache_config-IsSetting :
      (a : CacheArguments) (c : CacheConfig)
      → new_cache_config u env a ≡ ok c
      → IsSetting a.ttl "FASTAPI_ADMIN_KIT_CACHE_TTL" default_cache_ttl c.ttl
        × IsSetting a.rate_limit "FASTAPI_ADMIN_KIT_RATE_LIMIT_LIMIT" default_rate_limit
            c.rate_limit
        × IsSetting a.rate_window "FASTAPI_ADMIN_KIT_RATE_LIMIT_WINDOW" default_rate_window
            c.rate_window
        × IsSetting a.login_rate_limit "FASTAPI_ADMIN_KIT_LOGIN_RATE_LIMIT" c.rate_limit
            c.login_rate_limit
        × IsSetting a.login_rate_window "FASTAPI_ADMIN_KIT_LOGIN_RATE_WINDOW" c.rate_window
            c.login_rate_window
  unfolding new_cache_config
  new_cache_config-IsSetting a c e =
      let (ttl, e1, f1) =
        bind-eq-ok (int_setting u env a.ttl "FASTAPI_ADMIN_KIT_CACHE_TTL" default_cache_ttl) _ e in
      let (limit, e2, f2) =
        bind-eq-ok
          (int_setting u env a.rate_limit "FASTAPI_ADMIN_KIT_RATE_LIMIT_LIMIT" default_rate_limit) _
          f1 in
      let (window, e3, f3) =
        bind-eq-ok
          (int_setting u env a.rate_window "FASTAPI_ADMIN_KIT_RATE_LIMIT_WINDOW"
            default_rate_window)
          _ f2 in
      let (login, e4, f4) =
        bind-eq-ok (int_setting u env a.login_rate_limit "FASTAPI_ADMIN_KIT_LOGIN_RATE_LIMIT" limit)
          _ f3 in
      let (span, e5, f5) =
        bind-eq-ok
          (int_setting u env a.login_rate_window "FASTAPI_ADMIN_KIT_LOGIN_RATE_WINDOW" window) _
          f4 in
      let same_ttl : ttl ≡ c.ttl = ground (arith, f5) in
      let same_limit : limit ≡ c.rate_limit = ground (arith, f5) in
      let same_window : window ≡ c.rate_window = ground (arith, f5) in
      let same_login : login ≡ c.login_rate_limit = ground (arith, f5) in
      let same_span : span ≡ c.login_rate_window = ground (arith, f5) in
      (
        move a.ttl "FASTAPI_ADMIN_KIT_CACHE_TTL" refl same_ttl
            (int_setting-IsSetting a.ttl "FASTAPI_ADMIN_KIT_CACHE_TTL" default_cache_ttl ttl e1),
        move a.rate_limit "FASTAPI_ADMIN_KIT_RATE_LIMIT_LIMIT" refl same_limit (
            int_setting-IsSetting a.rate_limit "FASTAPI_ADMIN_KIT_RATE_LIMIT_LIMIT"
              default_rate_limit limit e2),
        move a.rate_window "FASTAPI_ADMIN_KIT_RATE_LIMIT_WINDOW" refl same_window (
            int_setting-IsSetting a.rate_window "FASTAPI_ADMIN_KIT_RATE_LIMIT_WINDOW"
              default_rate_window window e3),
        move a.login_rate_limit "FASTAPI_ADMIN_KIT_LOGIN_RATE_LIMIT" same_limit same_login (
            int_setting-IsSetting a.login_rate_limit "FASTAPI_ADMIN_KIT_LOGIN_RATE_LIMIT" limit
              login e4),
        move a.login_rate_window "FASTAPI_ADMIN_KIT_LOGIN_RATE_WINDOW" same_window same_span (
            int_setting-IsSetting a.login_rate_window "FASTAPI_ADMIN_KIT_LOGIN_RATE_WINDOW" window
              span e5),
      )

-- A configuration passes exactly if its time to live is not negative and its limits and windows are
-- positive.
pub validate_cache_config_iff :
    (c : CacheConfig)
    → (validate_cache_config c ≡ ok tt)
      ↔ ((ltb_ℤ c.ttl (pos 0) ≡ false) × All (λ n. ltb_ℤ n (pos 1) ≡ false) (limits c))
unfolding validate_cache_config
validate_cache_config_iff c = (
  λ e. (
    ground (arith, e),
    (ground (arith, e), (ground (arith, e), (ground (arith, e), (ground (arith, e), tt)))),
  ),
  λ (t, (a, (b, (p, (q, rest))))). ground (arith, t, a, b, p, q),
)
