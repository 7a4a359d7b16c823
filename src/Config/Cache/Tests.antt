-- ===== src/Config/Cache/Tests.antt =====
-- Configurations that fastapi_admin_kit/config/cache.py builds.
use fastapi_admin_kit.Base.{true, false, none, some, ◌≡◌, refl, ◌==◌, if◌then◌else◌}
use fastapi_admin_kit.Base.Int.{pos}
use fastapi_admin_kit.Base.Result.{ok}
use fastapi_admin_kit.Base.Text.{Unicode}
use fastapi_admin_kit.Config.Cache.{
  Environ, CacheArguments, CacheConfig, env_int, int_setting, bool_setting, new_cache_config,
}

-- Characters as they are, and `int` of two texts.
abbrev plain : Unicode
plain = record {
  lower = λ s. s;
  upper = λ s. s;
  is_space = λ c. false;
  parse_int = λ s. if s == "60" then some (pos 60) else none;
}

abbrev env : Environ
env s = if s == "FASTAPI_ADMIN_KIT_RATE_LIMIT_LIMIT" then some "60" else none

abbrev arguments : CacheArguments
arguments = record {
  enabled = some true;
  ttl = some (pos 30);
  prefix = "fak";
  rate_limit = none;
  rate_window = none;
  login_rate_limit = none;
  login_rate_window = some (pos 10);
}

abbrev built : CacheConfig
built = record {
  enabled = true;
  ttl = pos 30;
  prefix = "fak";
  rate_limit = pos 60;
  rate_window = pos 900;
  login_rate_limit = pos 60;
  login_rate_window = pos 10;
}

built_runs : new_cache_config plain env arguments ≡ ok built
unfolding new_cache_config int_setting env_int bool_setting
built_runs = refl
