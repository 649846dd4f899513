-- ===== src/Auth/Validation/Dispatch.antt =====
-- Which strategy accepts which token.
use aocr.Prelude.{
  ◌≡◌, refl, sym, ap, ◌∙◌, ◌⊎◌, inl, inr, true, false, ◌||◌, List, [], ◌∷◌, Option, none, some,
  Bool-cases, Option-cases,
}
use aocr.Text.{Str}
use aocr.Text.Utf8.{Utf8}
use aocr.Auth.Scope.{ScopeParam}
use aocr.Auth.ClusterPat.{ClusterPatEntry}
use aocr.Auth.Credentials.{ValidationUserProfile, StaticPatConfig, tokens_match}
use aocr.Auth.Credentials.Laws.{tokens_match_iff}
use aocr.Auth.Validation.{
  api, ValidationResult, valid, Context, static_result, cluster_result, wrapped_result, api_result,
  match_static, match_cluster, validate_using_static_pat, validate_using_cluster_pat,
  validate_using_api, validate_remote, validate_local, validate_presented_token, of_outcome, of_api,
  is_some, is_set,
}
use aocr.Upstream.ProofCache.{ProofCache}
use aocr.Upstream.Strategy.{
  World, Success, Outcome, done, failed, is_wrapped_upstream_token, validate_wrapped_upstream,
}

-- One of the configured tokens has the bytes of the presented one.
abbrev Configured : Utf8 → Str → List Str → Type 0
Configured utf8 token [] = ⊥
Configured utf8 token (t ∷ ts) = (utf8.encode t ≡ utf8.encode token) ⊎ Configured utf8 token ts

-- One of the entries is the cluster's, and its token has the bytes of the presented one.
abbrev pub ConfiguredFor : Utf8 → Str → Str → List ClusterPatEntry → Type 0
ConfiguredFor utf8 token id [] = ⊥
ConfiguredFor utf8 token id (e ∷ es) =
    ((e.cluster_id ≡ id) × (utf8.encode e.token ≡ utf8.encode token))
    ⊎ ConfiguredFor utf8 token id es

module _ (utf8 : Utf8) (token : Str) (r : ValidationResult) where
  match_static_sound :
      (profile : ValidationUserProfile) (ts : List Str)
      → match_static utf8 token profile ts ≡ some r
      → (r ≡ static_result profile) × Configured utf8 token ts
  unfolding match_static
  match_static_sound profile [] h = absurd (cc h)
  match_static_sound profile (t ∷ ts) h = elim (Bool-cases (tokens_match utf8 t token)) [
    | inl e ↦ (cc (e, h), inl ((tokens_match_iff utf8 t token).0 e))
    | inr e ↦ let (same, c) = match_static_sound profile ts (cc (e, h)) in (same, inr c)
  ]

  match_cluster_sound :
      (es : List ClusterPatEntry)
      → match_cluster utf8 token es ≡ some r
      → (e : ClusterPatEntry) × (r ≡ cluster_result e) × ConfiguredFor utf8 token e.cluster_id es
  unfolding match_cluster
  match_cluster_sound [] h = absurd (cc h)
  match_cluster_sound (e ∷ es) h = elim (Bool-cases (tokens_match utf8 e.token token)) [
    | inl m ↦ (e, cc (m, h), inl (refl, (tokens_match_iff utf8 e.token token).0 m))
    | inr m ↦ let (e', same, c) = match_cluster_sound es (cc (m, h)) in (e', same, inr c)
  ]

match_static_complete :
    (utf8 : Utf8) (token : Str) (profile : ValidationUserProfile) (ts : List Str)
    → Configured utf8 token ts
    → match_static utf8 token profile ts ≡ some (static_result profile)
unfolding match_static
match_static_complete utf8 token profile [] x = elim x [ ]
match_static_complete utf8 token profile (t ∷ ts) (inl e) =
    rw ((tokens_match_iff utf8 t token).1 e) refl
match_static_complete utf8 token profile (t ∷ ts) (inr c) =
    elim (Bool-cases (tokens_match utf8 t token)) [
      | inl e ↦ rw e refl
      | inr e ↦ rw e (match_static_complete utf8 token profile ts c)
    ]

-- Why a result came about.
pub data IsAccepted (w : World) (ctx : Context) (c : ProofCache) (token : Str) (scope : ScopeParam)
    (r : ValidationResult) : Type 0 where
  by_envelope :
      is_wrapped_upstream_token token ≡ true
      → (s : Success) → (validate_wrapped_upstream w ctx.key_ring c token scope).0 ≡ done s
      → r ≡ wrapped_result s
      → IsAccepted w ctx c token scope r
  by_pat :
      is_wrapped_upstream_token token ≡ false
      → (config : StaticPatConfig) → ctx.static_pat_config ≡ some config
      → Configured w.utf8 token config.tokens
      → r ≡ static_result config.user_profile
      → IsAccepted w ctx c token scope r
  by_cluster_pat :
      is_wrapped_upstream_token token ≡ false
      → (entries : List ClusterPatEntry) → ctx.cluster_pat_config ≡ some entries
      → (e : ClusterPatEntry) → ConfiguredFor w.utf8 token e.cluster_id entries
      → r ≡ cluster_result e
      → IsAccepted w ctx c token scope r
  by_service :
      is_wrapped_upstream_token token ≡ false
      → (url : Str) → ctx.validation_service_url ≡ some url
      → validate_using_api ctx token (some url) ≡ valid r
      → IsAccepted w ctx c token scope r

is_set-some : (o : Option Str) (url : Str) → is_set o ≡ some url → o ≡ some url
is_set-some none url h = absurd (cc h)
is_set-some (some []) url h = absurd (cc h)
is_set-some (some (c ∷ s)) url h = h

module _ (w : World) (ctx : Context) (token : Str) where
  static_sound :
      (r : ValidationResult) (o : Option StaticPatConfig)
      → validate_using_static_pat w.utf8 token o ≡ some r
      → (config : StaticPatConfig) × (o ≡ some config)
        × (r ≡ static_result config.user_profile)
        × Configured w.utf8 token config.tokens
  static_sound r none h = absurd (unfold validate_using_static_pat in cc h)
  static_sound r (some config) h =
      let (same, c) =
        match_static_sound w.utf8 token r config.user_profile config.tokens
          (unfold validate_using_static_pat in h) in
      (config, refl, same, c)

  cluster_sound :
      (r : ValidationResult) (o : Option (List ClusterPatEntry))
      → validate_using_cluster_pat w.utf8 token o ≡ some r
      → (entries : List ClusterPatEntry) × (o ≡ some entries)
        × (e : ClusterPatEntry) × (r ≡ cluster_result e)
        × ConfiguredFor w.utf8 token e.cluster_id entries
  cluster_sound r none h = absurd (unfold validate_using_cluster_pat in cc h)
  cluster_sound r (some entries) h =
      let (e, same, c) =
        match_cluster_sound w.utf8 token r entries (unfold validate_using_cluster_pat in h) in
      (entries, refl, e, same, c)

  remote_sound :
      (r : ValidationResult)
      → validate_remote ctx token ≡ valid r
      → (url : Str) × (ctx.validation_service_url ≡ some url)
        × (validate_using_api ctx token (some url) ≡ valid r)
  unfolding validate_remote
  remote_sound r h = elim (Option-cases (is_set ctx.validation_service_url)) [
    | inr (url, e) ↦ (url, is_set-some ctx.validation_service_url url e, cc (e, h))
    | inl e ↦ elim (Bool-cases (is_some ctx.static_pat_config || is_some ctx.cluster_pat_config)) [
      | inl f ↦ absurd (cc (e, f, h))
      | inr f ↦ absurd (cc (e, f, h))
    ]
  ]

  module _ (c : ProofCache) (scope : ScopeParam) (r : ValidationResult)
      (plain : is_wrapped_upstream_token token ≡ false) where
    local_sound : validate_local w.utf8 ctx token ≡ valid r → IsAccepted w ctx c token scope r
    unfolding validate_local
    local_sound h =
        elim (Option-cases (validate_using_static_pat w.utf8 token ctx.static_pat_config)) [
          | inr (r', e) ↦
              let same : r' ≡ r = cc (e, h) in
              let (config, set, result, found) =
                static_sound r ctx.static_pat_config (e ∙ ap (λ x. some x) same) in
              IsAccepted.by_pat plain config set found result
          | inl e ↦
              elim (Option-cases (validate_using_cluster_pat w.utf8 token ctx.cluster_pat_config)) [
                | inr (r', f) ↦
                    let same : r' ≡ r = cc (e, f, h) in
                    let (entries, set, entry, result, found) =
                      cluster_sound r ctx.cluster_pat_config (f ∙ ap (λ x. some x) same) in
                    IsAccepted.by_cluster_pat plain entries set entry found result
                | inl f ↦
                    let (url, set, answer) = remote_sound r (cc (e, f, h)) in
                    IsAccepted.by_service plain url set answer
              ]
        ]

of_outcome_sound :
    (o : Outcome Success) (r : ValidationResult)
    → of_outcome o ≡ valid r
    → (s : Success) × (o ≡ done s) × (r ≡ wrapped_result s)
of_outcome_sound (done s) r h = (s, refl, cc h)
of_outcome_sound (failed e) r h = absurd (cc h)

-- A token is accepted for one reason only: it has the prefix of an envelope and the wrapped
-- strategy succeeds; or it has not, and its bytes are those of a configured token, or those of the
-- token of the cluster whose profile is given, or the validation service vouches for it.
pub validate_presented_token_sound :
    (w : World) (ctx : Context) (c : ProofCache) (token : Str) (scope : ScopeParam)
    (r : ValidationResult)
    → (validate_presented_token w ctx c token scope).0 ≡ valid r
    → IsAccepted w ctx c token scope r
unfolding validate_presented_token
validate_presented_token_sound w ctx c token scope r h =
    elim (Bool-cases (is_wrapped_upstream_token token)) [
      | inr e ↦ local_sound w ctx token c scope r e (cc (e, h))
      | inl e ↦
          let (s, d, same) =
            of_outcome_sound (validate_wrapped_upstream w ctx.key_ring c token scope).0 r
              (cc (e, h)) in
          IsAccepted.by_envelope e s d same
    ]

local_static :
    (utf8 : Utf8) (ctx : Context) (token : Str) (r : ValidationResult)
    → validate_using_static_pat utf8 token ctx.static_pat_config ≡ some r
    → validate_local utf8 ctx token ≡ valid r
unfolding validate_local
local_static utf8 ctx token r e = rw (e, validate_local) refl

-- A token without the prefix whose bytes are those of a configured static token gives the static
-- profile and leaves the proof cache alone, whatever clusters and services are configured.
validate_presented_token-Configured :
    (w : World) (ctx : Context) (c : ProofCache) (token : Str) (scope : ScopeParam)
    (config : StaticPatConfig)
    → is_wrapped_upstream_token token ≡ false
    → ctx.static_pat_config ≡ some config
    → Configured w.utf8 token config.tokens
    → validate_presented_token w ctx c token scope ≡ (valid (static_result config.user_profile), c)
unfolding validate_presented_token
validate_presented_token-Configured w ctx c token scope config plain set found =
    rw
      (
        plain,
        local_static w.utf8 ctx token _ (
            ap (validate_using_static_pat w.utf8 token) set
            ∙ unfold validate_using_static_pat in
              match_static_complete w.utf8 token config.user_profile config.tokens found),
      )
      refl

of_api_sound :
    (o : Option ValidationUserProfile) (r : ValidationResult)
    → of_api o ≡ valid r
    → r.strategy ≡ api
unfolding api_result
of_api_sound none r h = absurd (cc h)
of_api_sound (some profile) r h =
    let e : api_result profile ≡ r = cc h in ap (λ x. x.strategy) (sym e)

pub service_strategy :
    (ctx : Context) (token : Str) (url : Option Str) (r : ValidationResult)
    → validate_using_api ctx token url ≡ valid r
    → r.strategy ≡ api
unfolding validate_using_api
service_strategy ctx token url r h = of_api_sound _ r h
