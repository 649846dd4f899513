-- ===== src/Examples/Access.antt =====
-- Validation and the policies on concrete tokens.
use aocr.Prelude.{◌≡◌, ◌≢◌, ◌↔◌, refl, Bool, true, false, List, [], ◌∷◌, none, some, All, map}
use aocr.Text.{Str, codes, index_of, contains, split_on}
use aocr.Text.Laws.{IsUnique, Lacks, index_of-none}
use aocr.JsMap.{get}
use aocr.Auth.Scope.{ScopeParam, one}
use aocr.Auth.ClusterPat.{evaluate_cluster_pat_scope, parse_cluster_pat_entries, is_separator}
use aocr.Auth.ClusterPat.Policy.{MayAct, evaluate_cluster_pat_scope_iff}
use aocr.Auth.ClusterPat.Entries.{
  IsValidEntry, token_of, last_token, parse_cluster_pat_entries-IsValid,
  token_of-parse_cluster_pat_entries,
}
use aocr.Auth.Validation.{valid, static_result, validate_presented_token}
use aocr.Auth.Validation.Dispatch.{IsAccepted, validate_presented_token_sound}
use aocr.Upstream.Route.{UpstreamRoute}
use aocr.Upstream.ProofCache.Honest.{IsHonest}
use aocr.Upstream.Wrap.{cred_identity, envelope_json}
use aocr.Upstream.Strategy.{Success, done, failed, route_mismatch, validate_wrapped_upstream}
use aocr.Upstream.Strategy.Soundness.{IsValidated, validate_wrapped_upstream_sound}
use aocr.Upstream.Strategy.Refusals.{validate_wrapped_upstream-early}
use aocr.Examples.Setup.{
  context, static_config, cache, key, token, alpine, world, crypto, creds, IsKnown, probe-IsKnown,
}

no_proofs : IsHonest IsKnown cache
no_proofs = record { distinct = tt; backed = λ i e h. absurd (unfold get in cc h) }

success : Success
unfolding cred_identity
success = record { identity = cred_identity crypto creds; cache_hit = false }

proves_alpine : (validate_wrapped_upstream world (key ∷ []) cache token alpine).0 ≡ done success
unfolding validate_wrapped_upstream success envelope_json
proves_alpine = refl

validate_wrapped_upstream_sound_example :
    IsValidated world IsKnown probe-IsKnown
      (λ i c h. h)
      (key ∷ [])
      token
      alpine
      (validate_wrapped_upstream world (key ∷ []) cache token alpine)
      success
validate_wrapped_upstream_sound_example =
    validate_wrapped_upstream_sound world IsKnown probe-IsKnown (λ i c h. h) (key ∷ []) cache token
      alpine success no_proofs proves_alpine

abbrev reserved : ScopeParam
reserved = one (codes "repository:aocr/other/app:pull")

refuses_reserved :
    (validate_wrapped_upstream world (key ∷ []) cache token reserved).0 ≡ failed route_mismatch
unfolding validate_wrapped_upstream envelope_json
refuses_reserved = refl

validate_wrapped_upstream-early_example :
    (validate_wrapped_upstream world (key ∷ []) cache token reserved).1 ≡ cache
validate_wrapped_upstream-early_example =
    validate_wrapped_upstream-early world (key ∷ []) cache token reserved route_mismatch
      refuses_reserved tt

abbrev routes : List UpstreamRoute
routes =
    record { host = codes "docker.io"; upstream_repo = codes "library/alpine" }
    ∷ record { host = codes "docker.io"; upstream_repo = codes "library/secret" }
    ∷ []

identity : Str
unfolding cred_identity
identity = cred_identity crypto creds

second :
    (validate_presented_token world context cache (codes "second") alpine).0
    ≡ valid (static_result static_config.user_profile)
unfolding validate_presented_token static_result
second = refl

validate_presented_token_sound_example :
    IsAccepted world context cache
      (codes "second")
      alpine
      (static_result static_config.user_profile)
validate_presented_token_sound_example =
    validate_presented_token_sound world context cache (codes "second") alpine
      (static_result static_config.user_profile) second

abbrev both : List Str
both = codes "pull" ∷ codes "push" ∷ []

evaluate_cluster_pat_scope_iff_example :
    (contains
        (evaluate_cluster_pat_scope none
          (codes "blue")
          (codes "repository")
          (codes "mirror/app")
          both).allowed_actions
        (codes "pull")
      ≡ true)
    ↔ ((codes "repository" ≡ codes "repository")
        × (codes "mirror/app" ≢ [])
        × (contains both (codes "pull") ≡ true)
        × MayAct none (codes "blue") (codes "mirror/app") (codes "pull"))
evaluate_cluster_pat_scope_iff_example =
    evaluate_cluster_pat_scope_iff none (codes "blue") (codes "repository") (codes "mirror/app")
      both (codes "pull")

apart : ◌≢◌ {A = Bool} false true
apart h = cc h

no_slash_in_blue : Lacks b'/' (codes "blue")
no_slash_in_blue = index_of-none b'/' (codes "blue") (unfold index_of in refl)

no_slash_in_green : Lacks b'/' (codes "green")
no_slash_in_green = index_of-none b'/' (codes "green") (unfold index_of in refl)

abbrev pats : Str
pats = codes "blue=one,green=two,blue=three"

parse_cluster_pat_entries-IsValid_example :
    All IsValidEntry (parse_cluster_pat_entries (some pats))
    × IsUnique (map (λ e. e.cluster_id) (parse_cluster_pat_entries (some pats)))
parse_cluster_pat_entries-IsValid_example = parse_cluster_pat_entries-IsValid pats

token_of-parse_cluster_pat_entries_example :
    token_of (codes "blue") (parse_cluster_pat_entries (some pats))
    ≡ last_token (codes "blue") (split_on is_separator pats)
token_of-parse_cluster_pat_entries_example =
    token_of-parse_cluster_pat_entries pats (codes "blue") (λ q. cc q)
