-- ===== src/Examples/Texts.antt =====
-- Scopes, routes, headers and envelopes on concrete texts.
use aocr.Prelude.{
  ◌≡◌, ◌↔◌, refl, any, [], ◌∷◌, some, map, filter_map, arith, ℕ, ◌<◌, List, Option, All, length,
  take,
}
use aocr.Prelude.Int.{pos}
use aocr.Text.{Str, codes, unique, trim, index_of, str_eq}
use aocr.Text.Laws.{index_of-none}
use aocr.Auth.Scope.{
  ScopeParam, RequestedScope, one, parse_scope, parse_requested_scopes, scope_values, scope_key,
}
use aocr.Auth.Scope.Parse.{IsScope, parse_scope_iff}
use aocr.Auth.Scope.Merge.{offers, asks, offers-parse_requested_scopes}
use aocr.Auth.Scope.Order.{key_of, scope_key-parse_requested_scopes}
use aocr.Auth.Credentials.{extracted, extract_presented_credentials}
use aocr.Auth.KeyId.{compute_libtrust_key_id}
use aocr.Auth.KeyId.Base32.{number}
use aocr.Auth.KeyId.Reading.{read_id, read_id-compute_libtrust_key_id}
use aocr.Auth.Credentials.Laws.{extract-basic}
use aocr.Upstream.Route.{UpstreamRoute, prefix_table, route_mirror_repo_to_upstream}
use aocr.Upstream.Route.Laws.{IsRoute, route_mirror_repo_to_upstream_iff}
use aocr.Upstream.Wrap.{ok, wrap, unwrap}
use aocr.Upstream.Wrap.RoundTrip.{unwrap-wrap}
use aocr.Examples.Setup.{crypto, creds, key, old_key, nonce}

abbrev scope_text : Str
scope_text = codes "repository:library/alpine:pull,push"

abbrev alpine_scope : RequestedScope
alpine_scope = record {
  type = codes "repository";
  name = codes "library/alpine";
  actions = codes "pull" ∷ codes "push" ∷ [];
}

parse_scope_iff_example :
    (parse_scope scope_text ≡ some alpine_scope) ↔ IsScope scope_text alpine_scope
parse_scope_iff_example = parse_scope_iff scope_text alpine_scope

abbrev two_scopes : ScopeParam
two_scopes = one (codes "repository:a:pull repository:a:push")

offers-parse_requested_scopes_example :
    any (offers (codes "repository") (codes "a") (codes "push")) (parse_requested_scopes two_scopes)
    ≡ any (asks (codes "repository") (codes "a") (codes "push")) (scope_values two_scopes)
offers-parse_requested_scopes_example =
    offers-parse_requested_scopes two_scopes (codes "repository") (codes "a") (codes "push")

scope_key-parse_requested_scopes_example :
    map scope_key (parse_requested_scopes two_scopes)
    ≡ unique (filter_map key_of (scope_values two_scopes))
scope_key-parse_requested_scopes_example = scope_key-parse_requested_scopes two_scopes

extract-basic_example :
    extract_presented_credentials (λ s. s) (some (codes "Basic alice: p:w "))
    ≡ extracted
        (record { validation_token = codes "p:w"; presented_identity = some (codes "alice") })
unfolding trim
extract-basic_example =
    extract-basic (λ s. s) (codes "alice: p:w ") (codes "alice") (codes " p:w")
      (index_of-none b':' (codes "alice") (unfold index_of in refl)) (λ q. cc q) refl

abbrev app_route : UpstreamRoute
app_route = record { host = codes "ghcr.io"; upstream_repo = codes "org/app" }

route_mirror_repo_to_upstream_iff_example :
    (route_mirror_repo_to_upstream (codes "aocr/ghcr/org/app") ≡ some app_route)
    ↔ IsRoute (codes "aocr/ghcr/org/app") prefix_table app_route
route_mirror_repo_to_upstream_iff_example =
    route_mirror_repo_to_upstream_iff (codes "aocr/ghcr/org/app") app_route (λ q. cc q)

unwrap-wrap_example :
    (blob : Str) × (wrap crypto (key ∷ []) creds (pos 5000) nonce ≡ ok blob)
    × (unwrap crypto (old_key ∷ key ∷ []) (pos 6000) blob
        ≡ ok (record {
          creds = creds;
          wrapped_at = pos 5000;
          age_ms = pos 1000;
          key_id = codes "k0";
        }))
unfolding str_eq
unwrap-wrap_example =
    unwrap-wrap crypto key (old_key ∷ []) [] [] creds (pos 5000) (pos 6000) nonce refl
      (record { opens = refl; tag = refl; some_text = ground arith }) refl (λ b. refl) (refl, tt)

-- A hash of 32 bytes.
abbrev thirty_two : List ℕ
thirty_two =
    0 ∷ 255 ∷ 17 ∷ 34 ∷ 51 ∷ 68 ∷ 85 ∷ 102 ∷ 119 ∷ 136 ∷ 153 ∷ 170 ∷ 187 ∷ 204 ∷ 221 ∷ 238 ∷ 1 ∷ 2
    ∷ 4 ∷ 8 ∷ 16 ∷ 32 ∷ 64 ∷ 128 ∷ 3 ∷ 5 ∷ 7 ∷ 11 ∷ 13 ∷ 19 ∷ 23 ∷ 29 ∷ []

abbrev sha256 : Str → Option (List ℕ)
sha256 pem = some thirty_two

bytes_32 : All (λ b. b < 256) thirty_two
bytes_32 = ground arith

read_id-compute_libtrust_key_id_example :
    (id : Str) × (compute_libtrust_key_id sha256 (codes "key") ≡ some id)
    × (length id ≡ 59)
    × (read_id 0 id ≡ number 256 0 (take 30 thirty_two))
read_id-compute_libtrust_key_id_example =
    read_id-compute_libtrust_key_id sha256 (codes "key") thirty_two refl refl bytes_32
