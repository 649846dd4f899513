-- ===== src/Auth/Setup.antt =====
-- auth/src/createApp.ts: the service's configuration and the context that it is built into.
use aocr.Prelude.{ℕ, Option}
use aocr.Text.{Str, codes}
use aocr.JsMap.{JsMap, get}
use aocr.Auth.Credentials.{build_static_pat_config, build_cluster_pat_config}
use aocr.Auth.Validation.{Context}
use aocr.Upstream.ProofCache.{ProofCache, new_cache, default_ttl_ms, default_max_entries}
use aocr.Upstream.Wrap.{Crypto, Json, parse_wrap_key_ring}

record AuthServiceConfig : Type 0 where
  pub validation_service_url : Option Str
  pub auth_pat_token : Option Str
  pub auth_pat_tokens : Option Str
  pub auth_cluster_pat_tokens : Option Str
  pub jwt_private_key : Option Str
  pub issuer : Option Str
  pub default_registry_service : Option Str
  pub upstream_auth_wrap_keys : Option Str

-- The environment is a map of its variables.
unfoldable config_from_env : JsMap Str → AuthServiceConfig
unfolding get
config_from_env env = record {
  validation_service_url = get env (codes "VALIDATION_SERVICE_URL");
  auth_pat_token = get env (codes "AUTH_PAT_TOKEN");
  auth_pat_tokens = get env (codes "AUTH_PAT_TOKENS");
  auth_cluster_pat_tokens = get env (codes "AUTH_CLUSTER_PAT_TOKENS");
  jwt_private_key = get env (codes "JWT_PRIVATE_KEY");
  issuer = get env (codes "AUTH_ISSUER");
  default_registry_service = get env (codes "REGISTRY_SERVICE");
  upstream_auth_wrap_keys = get env (codes "UPSTREAM_AUTH_WRAP_KEYS");
}

-- The context, with the proof cache that belongs to it; `show` is decimal notation, `axios_get`
-- and `to_string` are the runtime's.
unfoldable build_validation_context :
    Crypto
    → (ℕ → Str)
    → (Str → Str → Option Json)
    → (Json → Str)
    → AuthServiceConfig
    → Context × ProofCache
unfolding build_static_pat_config build_cluster_pat_config parse_wrap_key_ring
build_validation_context crypto show axios_get to_string config = (
  record {
    static_pat_config = build_static_pat_config config.auth_pat_token config.auth_pat_tokens;
    cluster_pat_config = build_cluster_pat_config config.auth_cluster_pat_tokens;
    validation_service_url = config.validation_service_url;
    key_ring = parse_wrap_key_ring crypto show config.upstream_auth_wrap_keys;
    axios_get = axios_get;
    to_string = to_string;
  },
  new_cache default_ttl_ms default_max_entries,
)
