-- ===== src/Upstream/Strategy/Refusals.antt =====
-- What a refusal leaves behind, and what a hit saves.
use aocr.Prelude.{
  ℕ, ◌+◌, ◌≡◌, refl, ◌∙◌, sym, ap, inl, inr, Bool, true, false, List, [], ◌∷◌, none, Bool-cases,
  Option-cases,
}
use aocr.Text.{Str}
use aocr.Text.Laws.{str_eq_refl}
use aocr.Auth.Scope.{ScopeParam}
use aocr.JsMap.{get}
use aocr.Upstream.Route.{UpstreamRoute}
use aocr.Upstream.ProofCache.{ProofCache, lookup_proof}
use aocr.Upstream.ProofCache.Eviction.{get-invalidate_distinct}
use aocr.Upstream.ProofCache.Honest.{IsHonest, lookup_proof-IsHonest, record_proof-IsHonest}
use aocr.Upstream.Wrap.{UpstreamCredentials, WrapKey, unwrap, cred_identity}
use aocr.Upstream.Strategy.{
  World, Outcome, Code, not_configured, invalid_blob, expired, route_mismatch, Success, Reason,
  failed, probe_failed, probe_ok, unauthorized, route_all, prove_routes, prove_repos, after_failure,
  too_old, validate_wrapped_upstream, extract_repos_from_scope, is_wrapped_upstream_token,
}
use aocr.Upstream.Strategy.Loop.{prove-cached, prove-refused, prove-probed, probe_cases}
use aocr.Upstream.Strategy.Soundness.{
  Outcome-cases, Result-cases, prove_repos-failed, prove_repos-routed, validate-plain,
  validate-shut, validate-old, validate-recent, blob,
}

-- A failure that no probe gave.
abbrev IsEarly : Code → Type 0
IsEarly (probe_failed reason) = ⊥
IsEarly _ = Unit

early_probe :
    (reason : Reason) (code : Code)
    → ◌≡◌ {A = Outcome Success} (failed (probe_failed reason)) (failed code)
    → IsEarly code
    → ⊥
early_probe reason (probe_failed r) e h = h
early_probe reason not_configured e h = cc e
early_probe reason invalid_blob e h = cc e
early_probe reason expired e h = cc e
early_probe reason route_mismatch e h = cc e

-- The loop fails by a probe only.
prove_routes-probe :
    (w : World) (i : ℕ) (identity : Str) (creds : UpstreamCredentials) (hit : Bool) (c : ProofCache)
    (routes : List UpstreamRoute) (code : Code)
    → (prove_routes w i identity creds hit c routes).0 ≡ failed code
    → IsEarly code
    → ⊥
prove_routes-probe w i identity creds hit c [] code e h = unfold prove_routes in cc e
prove_routes-probe w i identity creds hit c (r ∷ routes) code e h =
    let look = lookup_proof w.utf8 (w.looks_at i) identity r.upstream_repo c in
    elim (Option-cases look.0) [
      | inr (l, f) ↦
          prove_routes-probe w (i + 1) identity creds hit look.1 routes code
            (sym (ap (λ x. x.0) (prove-cached w i identity creds hit c r routes l f)) ∙ e) h
      | inl f ↦ elim (probe_cases (w.probe i r.host creds r.upstream_repo)) [
        | inl (bearer, p) ↦
            prove_routes-probe w (i + 1) identity creds false _ routes code
              (sym (ap (λ x. x.0) (prove-probed w i identity creds hit c r routes bearer f p)) ∙ e)
              h
        | inr (reason, p) ↦
            let same : ◌≡◌ {A = Outcome Success} (failed (probe_failed reason)) (failed code) =
              sym (ap (λ x. x.0) (prove-refused w i identity creds hit c r routes reason f p))
              ∙ e in
            early_probe reason code same h
      ]
    ]

prove_repos-early :
    (w : World) (creds : UpstreamCredentials) (c : ProofCache) (repos : List Str) (code : Code)
    → (prove_repos w creds c repos).0 ≡ failed code
    → IsEarly code
    → (prove_repos w creds c repos).1 ≡ c
prove_repos-early w creds c [] code e h = unfold prove_repos in refl
prove_repos-early w creds c (repo ∷ repos) code e h =
    elim (Outcome-cases (route_all w creds.upstream_host (repo ∷ repos))) [
      | inr (k, f) ↦ ap (λ x. x.1) (prove_repos-failed w creds c repo repos k f)
      | inl (routes, f) ↦ absurd (
          prove_routes-probe w 0 (cred_identity w.crypto creds) creds true c routes code
            (sym (ap (λ x. x.0) (prove_repos-routed w creds c repo repos routes f)) ∙ e) h)
    ]

-- A refusal that no probe gave leaves the cache as it was: a token that is refused for its form,
-- its age or its scope costs no round trip and no proof.
pub validate_wrapped_upstream-early :
    (w : World) (keys : List WrapKey) (c : ProofCache) (token : Str) (scope : ScopeParam)
    (code : Code)
    → (validate_wrapped_upstream w keys c token scope).0 ≡ failed code
    → IsEarly code
    → (validate_wrapped_upstream w keys c token scope).1 ≡ c
validate_wrapped_upstream-early w [] c token scope code e h =
    unfold validate_wrapped_upstream in refl
validate_wrapped_upstream-early w (key ∷ keys) c token scope code e h =
    elim (Bool-cases (is_wrapped_upstream_token token)) [
      | inr plain ↦ ap (λ x. x.1) (validate-plain w key keys c token scope plain)
      | inl prefixed ↦ elim (Result-cases (unwrap w.crypto (key ∷ keys) w.now (blob token))) [
        | inr (k, f) ↦ ap (λ x. x.1) (validate-shut w key keys c token scope k prefixed f)
        | inl (u, f) ↦ elim (Bool-cases (too_old w u)) [
          | inl old ↦ ap (λ x. x.1) (validate-old w key keys c token scope u prefixed f old)
          | inr recent ↦
              let eq = validate-recent w key keys c token scope u prefixed f recent in
              ap (λ x. x.1) eq
              ∙ prove_repos-early w u.creds c (extract_repos_from_scope scope) code
                  (sym (ap (λ x. x.0) eq) ∙ e) h
        ]
      ]
    ]

unauthorized_drops :
    (P : Str → Str → Type 0) (identity : Str) (c : ProofCache)
    → IsHonest P c
    → get (after_failure unauthorized identity c).entries identity ≡ none
unfolding after_failure
unauthorized_drops P identity c h =
    get-invalidate_distinct identity identity c h.distinct ∙ rw (str_eq_refl identity)

module _ (w : World) (P : Str → Str → Type 0) (creds : UpstreamCredentials) (identity : Str)
    (answers : (i : ℕ) (host repo bearer : Str)
      → w.probe i host creds repo ≡ probe_ok bearer
      → P identity repo)
    (quiet : (i : ℕ) (c : ProofCache) → IsHonest P c → IsHonest P (w.others i c)) where
  -- The loop over the routes that ends on an unauthorized answer leaves no proof of the identity in
  -- the cache. Here `P` is any property of the proofs in the cache that every positive probe gives
  -- and that other requests keep while a probe is awaited.
  prove_routes-unauthorized :
      (i : ℕ) (hit : Bool) (c : ProofCache) (routes : List UpstreamRoute)
      → IsHonest P c
      → (prove_routes w i identity creds hit c routes).0 ≡ failed (probe_failed unauthorized)
      → get (prove_routes w i identity creds hit c routes).1.entries identity ≡ none
  prove_routes-unauthorized i hit c [] h e = absurd (unfold prove_routes in cc e)
  prove_routes-unauthorized i hit c (r ∷ routes) h e =
      let look = lookup_proof w.utf8 (w.looks_at i) identity r.upstream_repo c in
      let h' = lookup_proof-IsHonest P w.utf8 (w.looks_at i) identity r.upstream_repo c h in
      elim (Option-cases look.0) [
        | inr (l, f) ↦
            let eq = prove-cached w i identity creds hit c r routes l f in
            ap (λ x. get x.1.entries identity) eq
            ∙ prove_routes-unauthorized (i + 1) hit look.1 routes h' (sym (ap (λ x. x.0) eq) ∙ e)
        | inl f ↦ elim (probe_cases (w.probe i r.host creds r.upstream_repo)) [
          | inl (bearer, p) ↦
              let eq = prove-probed w i identity creds hit c r routes bearer f p in
              ap (λ x. get x.1.entries identity) eq
              ∙ prove_routes-unauthorized (i + 1) false _ routes
                  (record_proof-IsHonest P w.utf8 (w.records_at i) identity r.upstream_repo bearer
                    (w.others i look.1) (quiet i look.1 h')
                    (answers i r.host r.upstream_repo bearer p))
                  (sym (ap (λ x. x.0) eq) ∙ e)
          | inr (reason, p) ↦
              let eq = prove-refused w i identity creds hit c r routes reason f p in
              let why : reason ≡ unauthorized = cc (sym (ap (λ x. x.0) eq) ∙ e) in
              ap (λ x. get x.1.entries identity) eq
              ∙ ap (λ x. get (after_failure x identity (w.others i look.1)).entries identity) why
              ∙ unauthorized_drops P identity (w.others i look.1) (quiet i look.1 h')
        ]
      ]
