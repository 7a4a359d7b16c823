-- ===== src/Config/Cache.antt =====
-- The cache and rate-limit settings of fastapi_admin_kit/config/cache.py. The environment is a function
-- from names to texts.
pub mod Settings
mod Tests
use fastapi_admin_kit.Base.{
  ℕ, String, Bool, true, false, ◌||◌, ◌&&◌, Option, none, some, List, [], ◌∷◌, any, ◌==◌,
  if◌then◌else◌, codes,
}
use fastapi_admin_kit.Base.Int.{ℤ, pos, ltb_ℤ}
use fastapi_admin_kit.Base.Result.{Result, ok, err, config_error, ◌>>=◌}
use fastapi_admin_kit.Base.Text.{Unicode, strip, eq_codes}

abbrev pub Environ : Type 0
Environ = String → Option String

abbrev pub default_cache_ttl : ℤ
default_cache_ttl = pos 300

abbrev pub default_rate_limit : ℤ
default_rate_limit = pos 5

abbrev pub default_rate_window : ℤ
default_rate_window = pos 900

-- The texts, lower case and stripped, that switch a flag on.
abbrev pub true_words : List String
true_words = "true" ∷ "1" ∷ "yes" ∷ "on" ∷ []

-- The arguments of `__init__` that may be left out.
pub record CacheArguments : Type 0 where
  pub enabled : Option Bool
  pub ttl : Option ℤ
  pub prefix : String
  pub rate_limit : Option ℤ
  pub rate_window : Option ℤ
  pub login_rate_limit : Option ℤ
  pub login_rate_window : Option ℤ

pub record CacheConfig : Type 0 where
  pub enabled : Bool
  pub ttl : ℤ
  pub prefix : String
  pub rate_limit : ℤ
  pub rate_window : ℤ
  pub login_rate_limit : ℤ
  pub login_rate_window : ℤ

module _ (u : Unicode) (env : Environ) where
  -- `value.strip().lower() in (…)`
  unfoldable pub is_true_word : String → Bool
  is_true_word s = any (λ w. eq_codes (codes w) (u.lower (strip u.is_space (codes s)))) true_words

  unfoldable pub env_bool : String → Bool → Bool
  unfolding is_true_word
  env_bool name default = elim (env name) [ none ↦ default | some s ↦ is_true_word s ]

  abbrev pub parsed : Option ℤ → Result ℤ
  parsed none = err config_error
  parsed (some n) = ok n

  unfoldable pub env_int : String → ℤ → Result ℤ
  env_int name default = elim (env name) [ none ↦ ok default | some s ↦ parsed (u.parse_int s) ]

  -- `if value is None: value = _env_int(name, default)`
  unfoldable pub int_setting : Option ℤ → String → ℤ → Result ℤ
  unfolding env_int
  int_setting (some n) name default = ok n
  int_setting none name default = env_int name default

  unfoldable pub bool_setting : Option Bool → String → Bool → Bool
  unfolding env_bool
  bool_setting (some b) name default = b
  bool_setting none name default = env_bool name default

  unfoldable pub new_cache_config : CacheArguments → Result CacheConfig
  unfolding int_setting bool_setting
  new_cache_config a = do
    ttl ← int_setting a.ttl "FASTAPI_ADMIN_KIT_CACHE_TTL" default_cache_ttl
    limit ← int_setting a.rate_limit "FASTAPI_ADMIN_KIT_RATE_LIMIT_LIMIT" default_rate_limit
    window ← int_setting a.rate_window "FASTAPI_ADMIN_KIT_RATE_LIMIT_WINDOW" default_rate_window
    login_limit ← int_setting a.login_rate_limit "FASTAPI_ADMIN_KIT_LOGIN_RATE_LIMIT" limit
    login_window ← int_setting a.login_rate_window "FASTAPI_ADMIN_KIT_LOGIN_RATE_WINDOW" window
    ok (record {
      enabled = bool_setting a.enabled "FASTAPI_ADMIN_KIT_CACHE_ENABLED" false;
      ttl = ttl;
      prefix = a.prefix;
      rate_limit = limit;
      rate_window = window;
      login_rate_limit = login_limit;
      login_rate_window = login_window;
    })

-- The values of the loop, in its order.
abbrev pub limits : CacheConfig → List ℤ
limits c = c.rate_limit ∷ c.rate_window ∷ c.login_rate_limit ∷ c.login_rate_window ∷ []

unfoldable pub validate_cache_config : CacheConfig → Result (Unit {0})
validate_cache_config c =
    if ltb_ℤ c.ttl (pos 0) || any (λ n. ltb_ℤ n (pos 1)) (limits c) then err config_error else ok tt
