-- ===== src/Auth/Token.antt =====
-- auth/src/createApp.ts: the handler of /v2/token.
pub mod Grants
pub mod Guards
pub mod Issued
use aocr.Prelude.{
  ℕ, ◌+◌, Bool, true, false, not, ◌&&◌, List, [], ◌∷◌, ◌++◌, ◌==◌, Option, none, some, ltb,
  if◌then◌else◌, length,
}
use aocr.Text.{Str, codes, str_eq, is_empty, split_on}
use aocr.Auth.Scope.{ScopeParam, RequestedScope, parse_requested_scopes, max_requested_scopes}
use aocr.Auth.ClusterPat.{ClusterPatScopeDecision, evaluate_cluster_pat_scope}
use aocr.Auth.Credentials.{
  ValidationUserProfile, PresentedCredentials, Extracted, extracted, refused,
  extract_presented_credentials, presented_identity_matches_user,
}
use aocr.Auth.Validation.{
  Context, Strategy, api, pat, cluster_pat, wrapped_upstream, ValidationResult, Validated, valid,
  invalid, validate_presented_token,
}
use aocr.Upstream.ProofCache.{ProofCache}
use aocr.Upstream.Strategy.{World, wrapped_upstream_token_ttl_seconds}

pub record Request : Type 0 where
  pub account : Option Str
  pub service : Option Str
  pub scope : ScopeParam
  pub authorization : Option Str

pub record TokenContext : Type 0 where
  pub external_id : Str
  pub username : Option Str
  pub email : Option Str
  pub display_name : Option Str
  pub avatar_url : Option Str
  pub auth_provider : Option Str

pub record Payload : Type 0 where
  pub iss : Str
  pub sub : Str
  pub aud : Str
  pub iat : ℕ
  pub exp : ℕ
  pub access : List RequestedScope
  pub context : TokenContext

-- The statements of the database sync, in order.
pub data Query : Type 0 where
  begin commit : Query
  upsert_user : ValidationUserProfile → Query
  upsert_repository : Str → Str → Query

-- Why the loop over the scopes of a cluster PAT ends.
pub data Refusal : Type 0 where
  missing_cluster_id : Refusal
  scope_rejected : Str → Refusal

pub data Response : Type 0 where
  too_many_scopes identity_mismatch invalid_token : Response
  forbidden : Refusal → Response
  issued : Payload → Str → ℕ → Response

-- The process: its configuration, its libraries, and what it meets while a request runs. `connects`
-- says whether the pool gives a client, and `rolls_back` is false where a statement of the sync fails
-- and its ROLLBACK throws too; `sign` is `computeLibtrustKeyId` and `jwt.sign`, `none`
-- where they throw; `issues_at` and `expires_from` are the clock in seconds at its two reads.
pub record Env : Type 0 where
  pub world : World
  pub context : Context
  pub standard_module_namespace : Option Str
  pub issuer : Str
  pub default_registry_service : Str
  pub jwt_private_key : Option Str
  pub base64_text : Str → Str
  pub connects : Bool
  pub rolls_back : Bool
  pub sign : Str → Payload → Option Str
  pub issues_at : ℕ
  pub expires_from : ℕ

abbrev is_slash : ℕ → Bool
is_slash c = c == b'/'

-- `const [org, repo] = name.split('/')`, with the test that both are there
abbrev org_and_repo : List Str → List Query
org_and_repo (org ∷ repo ∷ rest) =
    if not (is_empty org) && not (is_empty repo) then upsert_repository org repo ∷ [] else []
org_and_repo _ = []

repository_queries : List RequestedScope → List Query
unfolding str_eq split_on
repository_queries [] = []
repository_queries (r ∷ rs) =
    let rest = repository_queries rs in
    if str_eq r.type (codes "repository")
    then org_and_repo (split_on is_slash r.name) ++ rest
    else rest

-- What the sync sends while no statement fails; a failure that is rolled back changes no answer.
unfoldable sync_queries : ValidationUserProfile → List RequestedScope → List Query
unfolding repository_queries
sync_queries profile requested =
    begin ∷ upsert_user profile ∷ (repository_queries requested ++ commit ∷ [])

pub data Access : Type 0 where
  granted : List RequestedScope → Access
  denied : Refusal → Access

abbrev pub grant : RequestedScope → List Str → Access → Access
grant r actions (granted rs) =
    granted (record { type = r.type; name = r.name; actions = actions } ∷ rs)
grant r actions (denied e) = denied e

abbrev rejection : Option Str → Refusal
rejection (some (c ∷ reason)) = scope_rejected (c ∷ reason)
rejection _ = scope_rejected (codes "cluster PAT scope rejected")

-- The loop over the requested scopes.
unfoldable pub access_of : Option Str → ValidationResult → List RequestedScope → Access
unfolding evaluate_cluster_pat_scope
access_of env result [] = granted []
access_of env result (r ∷ rs) =
    let rest = access_of env result rs in
    elim result.strategy [
      | cluster_pat ↦ elim result.cluster_id [
        | none ↦ denied missing_cluster_id
        | some id ↦
            if is_empty id
            then denied missing_cluster_id
            else let decision = evaluate_cluster_pat_scope env id r.type r.name r.actions in
              if decision.allowed
              then grant r decision.allowed_actions rest
              else denied (rejection decision.reason)
      ]
      | _ ↦ grant r r.actions rest
    ]

unfoldable pub ttl_seconds : Strategy → ℕ
ttl_seconds wrapped_upstream = wrapped_upstream_token_ttl_seconds
ttl_seconds _ = 3600

abbrev audience : Option Str → Str → Str
audience (some (c ∷ service)) default = c ∷ service
audience _ default = default

unfoldable pub payload_of : Env → Request → ValidationResult → List RequestedScope → Payload
unfolding ttl_seconds
payload_of env req result access = record {
  iss = env.issuer;
  sub = result.user_profile.external_id;
  aud = audience req.service env.default_registry_service;
  iat = env.issues_at;
  exp = env.expires_from + ttl_seconds result.strategy;
  access = access;
  context = record {
    external_id = result.user_profile.external_id;
    username = result.user_profile.username;
    email = result.user_profile.email;
    display_name = result.user_profile.display_name;
    avatar_url = result.user_profile.avatar_url;
    auth_provider = result.user_profile.auth_provider;
  };
}

unfoldable pub sign_payload : Env → Payload → ℕ → Response
sign_payload env payload ttl = elim env.jwt_private_key [
  | none ↦ invalid_token
  | some key ↦ if is_empty key then invalid_token else elim (env.sign key payload) [
    | none ↦ invalid_token
    | some token ↦ issued payload token ttl
  ]
]

unfoldable pub respond : Env → Request → ValidationResult → Access → Response
unfolding payload_of sign_payload ttl_seconds
respond env req result (denied e) = forbidden e
respond env req result (granted access) =
    sign_payload env (payload_of env req result access) (ttl_seconds result.strategy)

-- A validated request: the check of the presented identity, the sync, and the answer.
unfoldable pub serve : Env → Request → Option Str → ValidationResult → Response × List Query
unfolding presented_identity_matches_user sync_queries access_of respond parse_requested_scopes
serve env req presented result =
    let requested = parse_requested_scopes req.scope in
    let response =
      respond env req result (access_of env.standard_module_namespace result requested) in
    elim result.strategy [
      | api ↦
          if not (
            presented_identity_matches_user env.world.to_lower presented req.account
              result.user_profile)
          then (identity_mismatch, [])
          else if not env.connects
          then (invalid_token, [])
          else if env.rolls_back
          then (response, sync_queries result.user_profile requested)
          else (invalid_token, sync_queries result.user_profile requested)
      | _ ↦ (response, [])
    ]

abbrev after_validation : Env → Request → Option Str → Validated → Response × List Query
after_validation env req presented (invalid e) = (invalid_token, [])
after_validation env req presented (valid result) = serve env req presented result

unfoldable pub handle_token : Env → ProofCache → Request → (Response × List Query) × ProofCache
unfolding parse_requested_scopes extract_presented_credentials validate_presented_token serve
handle_token env c req =
    if ltb max_requested_scopes (length (parse_requested_scopes req.scope))
    then ((too_many_scopes, []), c)
    else elim (extract_presented_credentials env.base64_text req.authorization) [
      | refused e ↦ ((invalid_token, []), c)
      | extracted creds ↦
          let (outcome, c') =
            validate_presented_token env.world env.context c creds.validation_token req.scope in
          (after_validation env req creds.presented_identity outcome, c')
    ]
