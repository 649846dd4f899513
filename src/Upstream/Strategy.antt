-- ===== src/Upstream/Strategy.antt =====
-- auth/src/upstreamAuth/strategy.ts: validating a wrapped token for the requested repositories.
-- What the request meets while it runs (the clock, the probes' answers, other requests that use
-- the cache while a probe is awaited) is a parameter.
pub mod Loop
pub mod Soundness
pub mod Refusals
use aocr.Prelude.{
  ℕ, zero, suc, ◌+◌, ◌*◌, Bool, true, false, ◌&&◌, not, List, [], ◌∷◌, ◌++◌, Option, none, some,
  if◌then◌else◌, map, length,
}
use aocr.Prelude.Int.{ℤ, pos, ◌-ℤ◌, ltb_ℤ}
use aocr.Text.{Str, codes, is_empty, starts_with, slice_from, unique}
use aocr.Text.Utf8.{Utf8}
use aocr.Auth.Scope.{ScopeParam, RequestedScope, parse_requested_scopes}
use aocr.Upstream.Route.{UpstreamRoute, route_mirror_repo_to_upstream, route_matches_wrapped_host}
use aocr.Upstream.ProofCache.{ProofCache, ProofLookup, lookup_proof, record_proof, invalidate}
use aocr.Upstream.Wrap.{
  Crypto, WrapKey, UpstreamCredentials, UnwrapResult, unwrap, cred_identity, ok, err,
}

abbrev pub wrapped_upstream_token_ttl_seconds : ℕ
wrapped_upstream_token_ttl_seconds = 15 * 60

abbrev wrapped_upstream_max_age_ms : ℕ
wrapped_upstream_max_age_ms = 10 * 60 * 1000

abbrev pub wrapped_upstream_token_prefix : Str
wrapped_upstream_token_prefix = codes "aocrwrap:"

-- index.ts: why a probe fails
pub data Reason : Type 0 where
  unauthorized unreachable unsupported : Reason

pub data ProbeResult : Type 0 where
  probe_ok : Str → ProbeResult
  probe_err : Reason → ProbeResult

pub data Code : Type 0 where
  not_configured invalid_blob expired route_mismatch : Code
  probe_failed : Reason → Code

pub record Success : Type 0 where
  pub identity : Str
  pub cache_hit : Bool

pub data Outcome {ℓ} (A : Type ℓ) : Type ℓ where
  done : A → Outcome A
  failed : Code → Outcome A

-- `looks_at i` and `records_at i` are the clock's values at the lookup and the record of the i-th
-- route, `probe i` is the answer of its upstream, and `others i` is what other requests did to the
-- cache while that probe was awaited.
pub record World : Type 0 where
  pub crypto : Crypto
  pub utf8 : Utf8
  pub to_lower : Str → Str
  pub now : ℤ
  pub looks_at : ℕ → ℕ
  pub records_at : ℕ → ℕ
  pub probe : ℕ → Str → UpstreamCredentials → Str → ProbeResult
  pub others : ℕ → ProofCache → ProofCache

unfoldable pub is_wrapped_upstream_token : Str → Bool
unfolding starts_with
is_wrapped_upstream_token token = starts_with token wrapped_upstream_token_prefix

unfoldable pub extract_repos_from_scope : ScopeParam → List Str
unfolding parse_requested_scopes unique
extract_repos_from_scope scope = unique (map (λ e. e.name) (parse_requested_scopes scope))

-- One repository: its route, or the error that the mapping throws.
unfoldable pub route_one : World → Str → Str → Outcome UpstreamRoute
unfolding route_mirror_repo_to_upstream route_matches_wrapped_host
route_one w upstream_host mirror_repo = elim (route_mirror_repo_to_upstream mirror_repo) [
  | none ↦ failed route_mismatch
  | some route ↦
      if route_matches_wrapped_host w.to_lower route upstream_host
      then done route
      else failed route_mismatch
]

abbrev prepend : UpstreamRoute → Outcome (List UpstreamRoute) → Outcome (List UpstreamRoute)
prepend r (done rs) = done (r ∷ rs)
prepend r (failed e) = failed e

unfoldable pub route_all : World → Str → List Str → Outcome (List UpstreamRoute)
unfolding route_one
route_all w upstream_host [] = done []
route_all w upstream_host (repo ∷ repos) = elim (route_one w upstream_host repo) [
  | failed e ↦ failed e
  | done route ↦ prepend route (route_all w upstream_host repos)
]

-- An unauthorized probe drops the proofs of the identity.
unfoldable pub after_failure : Reason → Str → ProofCache → ProofCache
unfolding invalidate
after_failure unauthorized identity c = invalidate identity c
after_failure unreachable identity c = c
after_failure unsupported identity c = c

-- The loop over the routes, from the i-th on.
unfoldable pub prove_routes :
    World
    → ℕ
    → Str
    → UpstreamCredentials
    → Bool
    → ProofCache
    → List UpstreamRoute
    → Outcome Success × ProofCache
unfolding lookup_proof record_proof after_failure
prove_routes w i identity creds hit c [] =
    (done (record { identity = identity; cache_hit = hit }), c)
prove_routes w i identity creds hit c (route ∷ routes) =
    let (found, c') = lookup_proof w.utf8 (w.looks_at i) identity route.upstream_repo c in
    elim found [
      | some proof ↦ prove_routes w (i + 1) identity creds hit c' routes
      | none ↦
          let c'' = w.others i c' in
          elim (w.probe i route.host creds route.upstream_repo) [
            | probe_err reason ↦ (failed (probe_failed reason), after_failure reason identity c'')
            | probe_ok bearer ↦
                prove_routes w (i + 1) identity creds false
                  (record_proof w.utf8 (w.records_at i) identity route.upstream_repo bearer c'')
                  routes
          ]
    ]

abbrev is_empty_list : List Str → Bool
is_empty_list [] = true
is_empty_list (x ∷ xs) = false

-- What is proved once the envelope is open.
unfoldable pub prove_repos :
    World → UpstreamCredentials → ProofCache → List Str → Outcome Success × ProofCache
unfolding route_all prove_routes cred_identity
prove_repos w creds c repos =
    if is_empty_list repos
    then (failed route_mismatch, c)
    else elim (route_all w creds.upstream_host repos) [
      | failed e ↦ (failed e, c)
      | done routes ↦ prove_routes w 0 (cred_identity w.crypto creds) creds true c routes
    ]

pub too_old : World → UnwrapResult → Bool
too_old w u = ltb_ℤ (pos wrapped_upstream_max_age_ms) (w.now -ℤ u.wrapped_at)

unfoldable pub validate_wrapped_upstream :
    World → List WrapKey → ProofCache → Str → ScopeParam → Outcome Success × ProofCache
unfolding is_wrapped_upstream_token unwrap too_old prove_repos extract_repos_from_scope
validate_wrapped_upstream w [] c token scope = (failed not_configured, c)
validate_wrapped_upstream w (key ∷ keys) c token scope =
    if not (is_wrapped_upstream_token token)
    then (failed invalid_blob, c)
    else elim (unwrap w.crypto (key ∷ keys) w.now
        (slice_from (length wrapped_upstream_token_prefix) token)) [
          | err e ↦ (failed invalid_blob, c)
          | ok u ↦
              if too_old w u
              then (failed expired, c)
              else prove_repos w u.creds c (extract_repos_from_scope scope)
        ]
