-- ===== src/Auth/Validation.antt =====
-- auth/src/serverHelpers.ts: the strategies that validate a token, in their order.
pub mod Dispatch
use aocr.Prelude.{Bool, true, false, ◌||◌, List, [], ◌∷◌, Option, none, some, if◌then◌else◌, ◌>>=◌}
use aocr.Text.{Str}
use aocr.Text.Utf8.{Utf8}
use aocr.Auth.Scope.{ScopeParam}
use aocr.Auth.ClusterPat.{ClusterPatEntry}
use aocr.Auth.Credentials.{
  ValidationUserProfile, StaticPatConfig, tokens_match, build_cluster_pat_profile,
  build_wrapped_upstream_profile,
}
use aocr.Upstream.ProofCache.{ProofCache}
use aocr.Upstream.Wrap.{WrapKey, Json}
use aocr.Auth.Profile.{get_validation_info_url, normalize_validation_profile}
use aocr.Upstream.Strategy.{
  World, Success, Code, Outcome, done, failed, is_wrapped_upstream_token, validate_wrapped_upstream,
}

pub data Strategy : Type 0 where
  api pat cluster_pat wrapped_upstream : Strategy

pub record ValidationResult : Type 0 where
  pub strategy : Strategy
  pub user_profile : ValidationUserProfile
  pub cluster_id : Option Str
  pub cred_identity : Option Str

pub data ValidationError : Type 0 where
  invalid_pat_token no_validation_method api_error : ValidationError
  wrapped_error : Code → ValidationError

pub data Validated : Type 0 where
  valid : ValidationResult → Validated
  invalid : ValidationError → Validated

-- `axios_get url token` is the body that the validation service answers with, `none` where the
-- call throws, and `to_string` is `String` on a value that is no string.
pub record Context : Type 0 where
  pub static_pat_config : Option StaticPatConfig
  pub cluster_pat_config : Option (List ClusterPatEntry)
  pub validation_service_url : Option Str
  pub key_ring : List WrapKey
  pub axios_get : Str → Str → Option Json
  pub to_string : Json → Str

unfoldable pub static_result : ValidationUserProfile → ValidationResult
static_result profile = record {
  strategy = pat;
  user_profile = profile;
  cluster_id = none;
  cred_identity = none;
}

unfoldable pub match_static :
    Utf8 → Str → ValidationUserProfile → List Str → Option ValidationResult
unfolding tokens_match static_result
match_static utf8 token profile [] = none
match_static utf8 token profile (t ∷ ts) =
    if tokens_match utf8 t token
    then some (static_result profile)
    else match_static utf8 token profile ts

unfoldable pub validate_using_static_pat :
    Utf8 → Str → Option StaticPatConfig → Option ValidationResult
unfolding match_static
validate_using_static_pat utf8 token none = none
validate_using_static_pat utf8 token (some config) =
    match_static utf8 token config.user_profile config.tokens

unfoldable pub cluster_result : ClusterPatEntry → ValidationResult
unfolding build_cluster_pat_profile
cluster_result entry = record {
  strategy = cluster_pat;
  user_profile = build_cluster_pat_profile entry.cluster_id;
  cluster_id = some entry.cluster_id;
  cred_identity = none;
}

unfoldable pub match_cluster : Utf8 → Str → List ClusterPatEntry → Option ValidationResult
unfolding tokens_match cluster_result
match_cluster utf8 token [] = none
match_cluster utf8 token (e ∷ es) =
    if tokens_match utf8 e.token token then some (cluster_result e) else match_cluster utf8 token es

unfoldable pub validate_using_cluster_pat :
    Utf8 → Str → Option (List ClusterPatEntry) → Option ValidationResult
unfolding match_cluster
validate_using_cluster_pat utf8 token none = none
validate_using_cluster_pat utf8 token (some entries) = match_cluster utf8 token entries

unfoldable pub wrapped_result : Success → ValidationResult
unfolding build_wrapped_upstream_profile
wrapped_result s = record {
  strategy = wrapped_upstream;
  user_profile = build_wrapped_upstream_profile s.identity;
  cluster_id = none;
  cred_identity = some s.identity;
}

unfoldable pub api_result : ValidationUserProfile → ValidationResult
api_result profile = record {
  strategy = api;
  user_profile = profile;
  cluster_id = none;
  cred_identity = none;
}

abbrev pub of_outcome : Outcome Success → Validated
of_outcome (done s) = valid (wrapped_result s)
of_outcome (failed e) = invalid (wrapped_error e)

abbrev pub of_api : Option ValidationUserProfile → Validated
of_api none = invalid api_error
of_api (some profile) = valid (api_result profile)

unfoldable pub validate_using_api : Context → Str → Option Str → Validated
unfolding get_validation_info_url normalize_validation_profile api_result
validate_using_api ctx token url = of_api (do
  info_url ← get_validation_info_url url
  body ← ctx.axios_get info_url token
  normalize_validation_profile ctx.to_string body)

abbrev pub is_some {ℓ} : {A : Type ℓ} → Option A → Bool
is_some none = false
is_some (some a) = true

-- the validation service, or the error that says what is missing
abbrev pub is_set : Option Str → Option Str
is_set (some (c ∷ url)) = some (c ∷ url)
is_set _ = none

unfoldable pub validate_remote : Context → Str → Validated
unfolding validate_using_api
validate_remote ctx token = elim (is_set ctx.validation_service_url) [
  | some url ↦ validate_using_api ctx token (some url)
  | none ↦
      if is_some ctx.static_pat_config || is_some ctx.cluster_pat_config
      then invalid invalid_pat_token
      else invalid no_validation_method
]

unfoldable pub validate_local : Utf8 → Context → Str → Validated
unfolding validate_using_static_pat validate_using_cluster_pat validate_remote
validate_local utf8 ctx token = elim (validate_using_static_pat utf8 token ctx.static_pat_config) [
  | some r ↦ valid r
  | none ↦ elim (validate_using_cluster_pat utf8 token ctx.cluster_pat_config) [
    | some r ↦ valid r
    | none ↦ validate_remote ctx token
  ]
]

-- Only the wrapped strategy reads or writes the proof cache.
unfoldable pub validate_presented_token :
    World → Context → ProofCache → Str → ScopeParam → Validated × ProofCache
unfolding is_wrapped_upstream_token validate_local validate_wrapped_upstream wrapped_result
validate_presented_token w ctx c token scope =
    let (outcome, c') = validate_wrapped_upstream w ctx.key_ring c token scope in
    if is_wrapped_upstream_token token
    then (of_outcome outcome, c')
    else (validate_local w.utf8 ctx token, c)
