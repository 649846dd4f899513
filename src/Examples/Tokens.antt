-- ===== src/Examples/Tokens.antt =====
-- Requests to /v2/token, from the header to the signed answer.
use aocr.Prelude.{◌+◌, ◌*◌, ◌≤◌, ◌≡◌, refl, false, List, ◌++◌, none, some, All, map, length}
use aocr.Text.{Str, codes, slice_from}
use aocr.Auth.Token.{Payload, Request, issued, handle_token, payload_of}
use aocr.Auth.Token.Guards.{response}
use aocr.Auth.Token.Issued.{handle_token_proves, handle_token-IsPermitted, handle_token-resources}
use aocr.Auth.Credentials.{PresentedCredentials, extract_presented_credentials}
use aocr.Auth.Scope.{parse_requested_scopes, scope_key}
use aocr.Auth.Validation.{ValidationResult, wrapped_result}
use aocr.Upstream.Wrap.{UnwrapResult, unwrap, ok, cred_identity, envelope_json}
use aocr.JsMap.{get}
use aocr.Auth.ClusterPat.{ClusterPatEntry}
use aocr.Auth.Token.Grants.{IsPermitted}
use aocr.Auth.Validation.{cluster_result, valid, validate_presented_token}
use aocr.Auth.Validation.Dispatch.{ConfiguredFor}
use aocr.Upstream.Strategy.{is_wrapped_upstream_token, too_old, wrapped_upstream_token_prefix}
use aocr.Upstream.Strategy.Soundness.{IsProved}
use aocr.Upstream.ProofCache.Honest.{IsHonest}
use aocr.Examples.Setup.{
  env, context, utf8, cache, request, token, world, crypto, creds, IsKnown, probe-IsKnown,
}

abbrev pull_request : Request
pull_request = request (codes "repository:library/alpine:pull") (codes "Bearer " ++ token)

wrapped_user : ValidationResult
unfolding wrapped_result cred_identity
wrapped_user = wrapped_result (record { identity = cred_identity crypto creds; cache_hit = false })

minted : Payload
unfolding payload_of wrapped_user parse_requested_scopes
minted = payload_of env pull_request wrapped_user (parse_requested_scopes pull_request.scope)

bearer : PresentedCredentials
bearer = record { validation_token = token; presented_identity = none }

empty-IsHonest : IsHonest IsKnown cache
empty-IsHonest = record { distinct = tt; backed = λ i e h. absurd (unfold get in cc h) }

run : response (handle_token env cache pull_request) ≡ issued minted (codes "jwt") 900
unfolding handle_token minted envelope_json
run = refl

handle_token_proves_example :
    (u : UnwrapResult) × (unwrap crypto context.key_ring world.now
        (slice_from (length wrapped_upstream_token_prefix) bearer.validation_token)
      ≡ ok u)
    × (too_old world u ≡ false)
    × All (λ r. IsProved world IsKnown u.creds r.name) minted.access
    × (minted.exp ≡ 100 + 15 * 60)
unfolding bearer
handle_token_proves_example =
    handle_token_proves env cache pull_request minted (codes "jwt") 900 IsKnown probe-IsKnown
      (λ i c h. h) bearer empty-IsHonest (unfold extract_presented_credentials in refl)
      (unfold is_wrapped_upstream_token in refl) run

abbrev push_request : Request
push_request = request (codes "repository:cluster/blue/app:pull,push") (codes "Bearer secret")

blue_user : ValidationResult
unfolding cluster_result
blue_user = cluster_result (record { cluster_id = codes "blue"; token = codes "secret" })

blue_minted : Payload
unfolding payload_of blue_user parse_requested_scopes
blue_minted = payload_of env push_request blue_user (parse_requested_scopes push_request.scope)

secret : PresentedCredentials
secret = record { validation_token = codes "secret"; presented_identity = none }

run_blue : response (handle_token env cache push_request) ≡ issued blue_minted (codes "jwt") 3600
unfolding handle_token blue_minted
run_blue = refl

validated_blue :
    (validate_presented_token world context cache secret.validation_token push_request.scope).0
    ≡ valid blue_user
unfolding validate_presented_token blue_user secret
validated_blue = refl

handle_token-IsPermitted_example :
    (id : Str) × (entries : List ClusterPatEntry) × (context.cluster_pat_config ≡ some entries)
    × ConfiguredFor utf8 secret.validation_token id entries
    × All (IsPermitted none id) blue_minted.access
handle_token-IsPermitted_example =
    handle_token-IsPermitted env cache push_request blue_minted (codes "jwt") 3600 secret blue_user
      (unfold extract_presented_credentials secret in refl) validated_blue
      (unfold blue_user in refl) run_blue

handle_token-resources_example :
    (map scope_key blue_minted.access ≡ map scope_key (parse_requested_scopes push_request.scope))
    × (length blue_minted.access ≤ 20)
handle_token-resources_example =
    handle_token-resources env cache push_request blue_minted (codes "jwt") 3600 run_blue
