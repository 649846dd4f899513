-- ===== src/Upstream/Strategy/Soundness.antt =====
-- Success means that every requested repository is proved for the credentials of the envelope.
use aocr.Prelude.{
  ℕ, ◌≡◌, ◌≢◌, refl, ◌∙◌, sym, ap, subst, ◌⊎◌, inl, inr, true, false, List, [], ◌∷◌, some,
  Bool-cases, Option-cases, All, All-imp, length,
}
use aocr.Text.{Str, slice_from}
use aocr.Auth.Scope.{ScopeParam}
use aocr.Upstream.Route.{UpstreamRoute, route_mirror_repo_to_upstream, route_matches_wrapped_host}
use aocr.Upstream.ProofCache.{ProofCache}
use aocr.Upstream.ProofCache.Honest.{IsHonest}
use aocr.Upstream.Wrap.{
  UpstreamCredentials, UnwrapResult, WrapKey, WrapError, unwrap, cred_identity, ok, err, Result,
}
use aocr.Upstream.Strategy.{
  World, Outcome, Code, done, invalid_blob, expired, failed, Success, probe_ok, route_one,
  route_all, prove_routes, prove_repos, too_old, validate_wrapped_upstream,
  extract_repos_from_scope, is_wrapped_upstream_token, prepend, wrapped_upstream_token_prefix,
}
use aocr.Upstream.Strategy.Loop.{prove_routes-Sound}

-- The repository's route, which the envelope's host allows, and for which `P` holds.
pub record IsProved (w : World) (P : Str → Str → Type 0) (creds : UpstreamCredentials) (repo : Str)
    : Type 0 where
  pub route : UpstreamRoute
  pub routed : route_mirror_repo_to_upstream repo ≡ some route
  pub host : route_matches_wrapped_host w.to_lower route creds.upstream_host ≡ true
  pub proved : P (cred_identity w.crypto creds) route.upstream_repo

pub Outcome-cases {ℓ} :
    {A : Type ℓ} (o : Outcome A) → ((a : A) × (o ≡ done a)) ⊎ ((e : Code) × (o ≡ failed e))
Outcome-cases (done a) = inl (a, refl)
Outcome-cases (failed e) = inr (e, refl)

pub Result-cases {ℓ} :
    {A : Type ℓ} (o : Result A) → ((a : A) × (o ≡ ok a)) ⊎ ((e : WrapError) × (o ≡ err e))
Result-cases (ok a) = inl (a, refl)
Result-cases (err e) = inr (e, refl)

module _ (w : World) (host : Str) where
  route_one_sound :
      (repo : Str) (r : UpstreamRoute)
      → route_one w host repo ≡ done r
      → (route_mirror_repo_to_upstream repo ≡ some r)
        × (route_matches_wrapped_host w.to_lower r host ≡ true)
  unfolding route_one
  route_one_sound repo r h = elim (Option-cases (route_mirror_repo_to_upstream repo)) [
    | inl e ↦ absurd (cc (e, h))
    | inr (r', e) ↦ elim (Bool-cases (route_matches_wrapped_host w.to_lower r' host)) [
      | inl m ↦
          let same : r' ≡ r = cc (e, m, h) in
          (
            e ∙ ap (λ x. some x) same,
            subst (λ x. route_matches_wrapped_host w.to_lower x host ≡ true) same m,
          )
      | inr m ↦ absurd (cc (e, m, h))
    ]
  ]

  route_all-failed :
      (repo : Str) (repos : List Str) (e : Code)
      → route_one w host repo ≡ failed e
      → route_all w host (repo ∷ repos) ≡ failed e
  unfolding route_all
  route_all-failed repo repos e h = rw (h, route_all)

  route_all-cons :
      (repo : Str) (repos : List Str) (r : UpstreamRoute)
      → route_one w host repo ≡ done r
      → route_all w host (repo ∷ repos) ≡ prepend r (route_all w host repos)
  unfolding route_all
  route_all-cons repo repos r h = rw (h, route_all)

  -- The routes stand in the order of the repositories.
  route_all_sound :
      (Q : UpstreamRoute → Type 0) (repos : List Str) (routes : List UpstreamRoute)
      → route_all w host repos ≡ done routes
      → All Q routes
      → All
          (λ repo.
            (r : UpstreamRoute) × (route_mirror_repo_to_upstream repo ≡ some r)
            × (route_matches_wrapped_host w.to_lower r host ≡ true)
            × Q r)
          repos
  route_all_sound Q [] routes h q = tt
  route_all_sound Q (repo ∷ repos) routes h q = elim (Outcome-cases (route_one w host repo)) [
    | inr (e, f) ↦ absurd (cc (sym (route_all-failed repo repos e f) ∙ h))
    | inl (r, f) ↦
        let rest = sym (route_all-cons repo repos r f) ∙ h in
        elim (Outcome-cases (route_all w host repos)) [
          | inr (e, g) ↦ absurd (cc (sym (ap (prepend r) g) ∙ rest))
          | inl (rs, g) ↦
              let split : routes ≡ r ∷ rs = cc (sym (ap (prepend r) g) ∙ rest) in
              let q' = subst (All Q) split q in
              let (routed, matches) = route_one_sound repo r f in
              ((r, routed, matches, q'.0), route_all_sound Q repos rs g q'.1)
        ]
  ]

module _ (w : World) (creds : UpstreamCredentials) (c : ProofCache) where
  pub prove_repos-failed :
      (repo : Str) (repos : List Str) (e : Code)
      → route_all w creds.upstream_host (repo ∷ repos) ≡ failed e
      → prove_repos w creds c (repo ∷ repos) ≡ (failed e, c)
  unfolding prove_repos
  prove_repos-failed repo repos e h = rw (h, prove_repos)

  pub prove_repos-routed :
      (repo : Str) (repos : List Str) (routes : List UpstreamRoute)
      → route_all w creds.upstream_host (repo ∷ repos) ≡ done routes
      → prove_repos w creds c (repo ∷ repos)
        ≡ prove_routes w 0 (cred_identity w.crypto creds) creds true c routes
  unfolding prove_repos
  prove_repos-routed repo repos routes h = rw (h, prove_repos)

abbrev pub blob : Str → Str
blob token = slice_from (length wrapped_upstream_token_prefix) token

-- The branches of `validateWrappedUpstream`.
module _ (w : World) (key : WrapKey) (keys : List WrapKey) (c : ProofCache) (token : Str)
    (scope : ScopeParam) where
  pub validate-plain :
      is_wrapped_upstream_token token ≡ false
      → validate_wrapped_upstream w (key ∷ keys) c token scope ≡ (failed invalid_blob, c)
  unfolding validate_wrapped_upstream
  validate-plain e = rw (e, validate_wrapped_upstream)

  pub validate-shut :
      (code : WrapError)
      → is_wrapped_upstream_token token ≡ true
      → unwrap w.crypto (key ∷ keys) w.now (blob token) ≡ err code
      → validate_wrapped_upstream w (key ∷ keys) c token scope ≡ (failed invalid_blob, c)
  unfolding validate_wrapped_upstream
  validate-shut code e f = rw (e, f, validate_wrapped_upstream)

  pub validate-old :
      (u : UnwrapResult)
      → is_wrapped_upstream_token token ≡ true
      → unwrap w.crypto (key ∷ keys) w.now (blob token) ≡ ok u
      → too_old w u ≡ true
      → validate_wrapped_upstream w (key ∷ keys) c token scope ≡ (failed expired, c)
  unfolding validate_wrapped_upstream
  validate-old u e f old = rw (e, f, old, validate_wrapped_upstream)

  pub validate-recent :
      (u : UnwrapResult)
      → is_wrapped_upstream_token token ≡ true
      → unwrap w.crypto (key ∷ keys) w.now (blob token) ≡ ok u
      → too_old w u ≡ false
      → validate_wrapped_upstream w (key ∷ keys) c token scope
        ≡ prove_repos w u.creds c (extract_repos_from_scope scope)
  unfolding validate_wrapped_upstream
  validate-recent u e f recent = rw (e, f, recent, validate_wrapped_upstream)

-- What a success on some repositories says.
record Proves (w : World) (P : Str → Str → Type 0) (creds : UpstreamCredentials) (repos : List Str)
    (res : Outcome Success × ProofCache) (s : Success) : Type 0 where
  some_repo : repos ≢ []
  each : All (IsProved w P creds) repos
  identity : s.identity ≡ cred_identity w.crypto creds
  honest : IsHonest P res.1

module _ (w : World) (P : Str → Str → Type 0)
    (answers : (i : ℕ) (host repo bearer : Str) (creds : UpstreamCredentials)
      → w.probe i host creds repo ≡ probe_ok bearer
      → P (cred_identity w.crypto creds) repo)
    (quiet : (i : ℕ) (c : ProofCache) → IsHonest P c → IsHonest P (w.others i c)) where
  prove_repos-Proves :
      (creds : UpstreamCredentials) (c : ProofCache) (repos : List Str) (s : Success)
      → IsHonest P c
      → (prove_repos w creds c repos).0 ≡ done s
      → Proves w P creds repos (prove_repos w creds c repos) s
  prove_repos-Proves creds c [] s h e = absurd (unfold prove_repos in cc e)
  prove_repos-Proves creds c (repo ∷ repos) s h e =
      elim (Outcome-cases (route_all w creds.upstream_host (repo ∷ repos))) [
        | inr (code, f) ↦
            absurd (cc (sym (ap (λ x. x.0) (prove_repos-failed w creds c repo repos code f)) ∙ e))
        | inl (routes, f) ↦
            let id = cred_identity w.crypto creds in
            let eq = prove_repos-routed w creds c repo repos routes f in
            let sound =
              prove_routes-Sound w P creds id (λ i host r b p. answers i host r b creds p) quiet 0
                true c routes h in
            let (all, same) = sound.proved s (sym (ap (λ x. x.0) eq) ∙ e) in
            record {
              some_repo = λ q. cc q;
              each =
                  All-imp
                    (λ r (route, routed, host, p). record {
                      route = route;
                      routed = routed;
                      host = host;
                      proved = p;
                    })
                    (repo ∷ repos)
                    (route_all_sound w creds.upstream_host (λ r. P id r.upstream_repo)
                      (repo ∷ repos) routes f all);
              identity = same;
              honest = subst (λ x. IsHonest P x.1) (sym eq) sound.honest;
            }
      ]

  -- What a validated token says of the request.
  pub record IsValidated (keys : List WrapKey) (token : Str) (scope : ScopeParam)
      (res : Outcome Success × ProofCache) (s : Success) : Type 0 where
    pub envelope : UnwrapResult
    pub prefixed : is_wrapped_upstream_token token ≡ true
    pub opened :
        unwrap w.crypto keys w.now (slice_from (length wrapped_upstream_token_prefix) token)
        ≡ ok envelope
    pub recent : too_old w envelope ≡ false
    pub some_repo : extract_repos_from_scope scope ≢ []
    pub each : All (IsProved w P envelope.creds) (extract_repos_from_scope scope)
    pub identity : s.identity ≡ cred_identity w.crypto envelope.creds
    pub honest : IsHonest P res.1

  -- A success means that the token is an envelope that a key of the ring opens and that is not too
  -- old, and that each requested repository, of which there is one at least, has a route that the
  -- envelope's host allows and for which the credentials were proved. Here `P` is any property
  -- that every positive probe of the credentials gives, that the proofs in the cache have, and
  -- that other requests keep while a probe is awaited; the cache has it afterwards too.
  pub validate_wrapped_upstream_sound :
      (keys : List WrapKey) (c : ProofCache) (token : Str) (scope : ScopeParam) (s : Success)
      → IsHonest P c
      → (validate_wrapped_upstream w keys c token scope).0 ≡ done s
      → IsValidated keys token scope (validate_wrapped_upstream w keys c token scope) s
  validate_wrapped_upstream_sound [] c token scope s h e =
      absurd (unfold validate_wrapped_upstream in cc e)
  validate_wrapped_upstream_sound (key ∷ keys) c token scope s h e =
      elim (Bool-cases (is_wrapped_upstream_token token)) [
        | inr plain ↦
            absurd (cc (sym (ap (λ x. x.0) (validate-plain w key keys c token scope plain)) ∙ e))
        | inl prefixed ↦ elim (Result-cases (unwrap w.crypto (key ∷ keys) w.now (blob token))) [
          | inr (code, f) ↦ absurd (
              cc (sym (ap (λ x. x.0) (validate-shut w key keys c token scope code prefixed f)) ∙ e))
          | inl (u, f) ↦ elim (Bool-cases (too_old w u)) [
            | inl old ↦ absurd (
                cc (
                  sym (ap (λ x. x.0) (validate-old w key keys c token scope u prefixed f old)) ∙ e))
            | inr recent ↦
                let eq = validate-recent w key keys c token scope u prefixed f recent in
                let p =
                  prove_repos-Proves u.creds c (extract_repos_from_scope scope) s h
                    (sym (ap (λ x. x.0) eq) ∙ e) in
                record {
                  envelope = u;
                  prefixed = prefixed;
                  opened = f;
                  recent = recent;
                  some_repo = p.some_repo;
                  each = p.each;
                  identity = p.identity;
                  honest = subst (λ x. IsHonest P x.1) (sym eq) p.honest;
                }
          ]
        ]
      ]
