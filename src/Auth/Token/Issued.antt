-- ===== src/Auth/Token/Issued.antt =====
-- What a token lets its bearer do, for the whole request.
use aocr.Prelude.{
  ℕ, ◌+◌, ◌*◌, ◌≡◌, ◌≢◌, refl, sym, ap, ◌∙◌, subst, true, false, List, [], ◌∷◌, some, map, length,
  ◌≤◌, length-map, ltb, arith, All,
}
use aocr.Text.{Str, unique, slice_from}
use aocr.Text.Laws.{contains-unique, contains_All, All-contains}
use aocr.Auth.Scope.{
  ScopeParam, RequestedScope, scope_key, max_requested_scopes, parse_requested_scopes,
}
use aocr.Auth.ClusterPat.{ClusterPatEntry}
use aocr.Auth.Credentials.{PresentedCredentials, extracted, extract_presented_credentials}
use aocr.Auth.Validation.{
  Context, ValidationResult, Strategy, cluster_pat, wrapped_upstream, cluster_result,
  wrapped_result, static_result, valid, validate_presented_token,
}
use aocr.Auth.Validation.Dispatch.{
  IsAccepted, ConfiguredFor, validate_presented_token_sound, service_strategy,
}
use aocr.Auth.Token.{Env, Request, issued, Payload, handle_token, granted, payload_of, ttl_seconds}
use aocr.Auth.Token.Guards.{response, Passed, handle_token-Passed}
use aocr.Auth.Token.Grants.{IsPermitted, access_of-plain, access_of_permits, access_of-resources}
use aocr.Upstream.ProofCache.{ProofCache}
use aocr.Upstream.ProofCache.Honest.{IsHonest}
use aocr.Upstream.Wrap.{UpstreamCredentials, UnwrapResult, unwrap, ok, cred_identity}
use aocr.Upstream.Strategy.{
  World, Success, done, probe_ok, is_wrapped_upstream_token, validate_wrapped_upstream,
  extract_repos_from_scope, too_old, wrapped_upstream_token_prefix,
}
use aocr.Upstream.Strategy.Soundness.{IsProved, validate_wrapped_upstream_sound}

-- A property of the deduplicated names holds for each scope's name.
All-names :
    (P : Str → Type 0) (rs : List RequestedScope)
    → All P (unique (map (λ r. r.name) rs))
    → All (λ r. P r.name) rs
All-names P rs h = back rs (
    All-contains P (map (λ r. r.name) rs) (λ s k.
      contains_All P (unique (map (λ r. r.name) rs)) s
        (contains-unique (map (λ r. r.name) rs) s ∙ k) h))
  where
    back : (rs : List RequestedScope) → All P (map (λ r. r.name) rs) → All (λ r. P r.name) rs
    back [] h = tt
    back (r ∷ rs) (p, h) = (p, back rs h)

bound : (k : ℕ) → ltb max_requested_scopes k ≡ false → k ≤ max_requested_scopes
bound k h = ground arith

cluster_entry :
    (w : World) (ctx : Context) (c : ProofCache) (token : Str) (scope : ScopeParam)
    (r : ValidationResult)
    → r.strategy ≡ cluster_pat
    → IsAccepted w ctx c token scope r
    → (id : Str) × (entries : List ClusterPatEntry) × (ctx.cluster_pat_config ≡ some entries)
      × ConfiguredFor w.utf8 token id entries
      × (r.cluster_id ≡ some id)
unfolding cluster_result wrapped_result static_result
cluster_entry w ctx c token scope r s (IsAccepted.by_envelope e x d same) =
    absurd (cc (s, ap (λ x. x.strategy) same))
cluster_entry w ctx c token scope r s (IsAccepted.by_pat plain config set found same) =
    absurd (cc (s, ap (λ x. x.strategy) same))
cluster_entry w ctx c token scope r s (IsAccepted.by_service plain url set answer) =
    absurd (cc (s, service_strategy ctx token (some url) r answer))
cluster_entry w ctx c token scope r s (IsAccepted.by_cluster_pat plain es set e found same) =
    (e.cluster_id, es, set, found, ap (λ x. x.cluster_id) same)

not_cluster : (s : Strategy) → s ≡ wrapped_upstream → s ≢ cluster_pat
not_cluster s e h = absurd (cc (e, h))

module _ (env : Env) (c : ProofCache) (req : Request) (p : Payload) (t : Str) (n : ℕ) where
  abbrev requested : List RequestedScope
  requested = parse_requested_scopes req.scope

  -- An access list that was not cut down by a policy is the requested one.
  access_requested :
      (passed : Passed env c req p t n)
      → passed.result.strategy ≢ cluster_pat
      → p.access ≡ requested
  access_requested passed ne =
      let same : granted passed.access ≡ granted requested =
        sym passed.accepted
        ∙ access_of-plain env.standard_module_namespace passed.result ne requested in
      let eq : passed.access ≡ requested = cc same in
      ap (λ x. x.access) passed.minted ∙ (unfold payload_of in eq)

  envelope_result :
      (passed : Passed env c req p t n)
      → is_wrapped_upstream_token passed.creds.validation_token ≡ true
      → (s : Success) × ((validate_wrapped_upstream env.world env.context.key_ring c
            passed.creds.validation_token req.scope).0
          ≡ done s)
        × (passed.result ≡ wrapped_result s)
  envelope_result passed prefixed =
      elim (validate_presented_token_sound env.world env.context c passed.creds.validation_token
        req.scope passed.result passed.validated_as) [
          | IsAccepted.by_envelope e s d same ↦ (s, d, same)
          | IsAccepted.by_pat plain config set found same ↦ absurd (cc (plain, prefixed))
          | IsAccepted.by_cluster_pat plain es set e found same ↦ absurd (cc (plain, prefixed))
          | IsAccepted.by_service plain url set answer ↦ absurd (cc (plain, prefixed))
        ]

  -- Every token issued lists the requested resources, each once and in the order of the request,
  -- and there are no more than the bound on a request.
  pub handle_token-resources :
      response (handle_token env c req) ≡ issued p t n
      → (map scope_key p.access ≡ map scope_key requested)
        × (length p.access ≤ max_requested_scopes)
  handle_token-resources h =
      let passed = handle_token-Passed env c req p t n h in
      let access : p.access ≡ passed.access =
        ap (λ x. x.access) passed.minted ∙ (unfold payload_of in refl) in
      let same =
        ap (map scope_key) access
        ∙ access_of-resources env.standard_module_namespace passed.result requested passed.access
            passed.accepted in
      (
        same,
        subst (λ k. k ≤ max_requested_scopes)
            (sym (
              sym (length-map scope_key p.access)
              ∙ ap (λ ks. length ks) same
              ∙ length-map scope_key requested))
            (bound (length requested) passed.few),
      )

  -- A token issued for a cluster's PAT: the PAT has the bytes of a configured token of the
  -- cluster, and every action listed is one that the policy opens to that cluster.
  pub handle_token-IsPermitted :
      (creds : PresentedCredentials) (result : ValidationResult)
      → extract_presented_credentials env.base64_text req.authorization ≡ extracted creds
      → (validate_presented_token env.world env.context c creds.validation_token req.scope).0
        ≡ valid result
      → result.strategy ≡ cluster_pat
      → response (handle_token env c req) ≡ issued p t n
      → (id : Str) × (entries : List ClusterPatEntry) × (env.context.cluster_pat_config
          ≡ some entries)
        × ConfiguredFor env.world.utf8 creds.validation_token id entries
        × All (IsPermitted env.standard_module_namespace id) p.access
  handle_token-IsPermitted creds result presented validated_as strategy h =
      let passed = handle_token-Passed env c req p t n h in
      let same : creds ≡ passed.creds = cc (presented, passed.presented) in
      let v : valid result ≡ valid passed.result =
        sym validated_as
        ∙ ap
            (λ x. (validate_presented_token env.world env.context c x.validation_token req.scope).0)
            same
        ∙ passed.validated_as in
      let result_eq : result ≡ passed.result = cc v in
      let is_cluster = ap (λ x. x.strategy) (sym result_eq) ∙ strategy in
      let (id, entries, set, found, named) =
        cluster_entry env.world env.context c creds.validation_token req.scope result strategy (
          validate_presented_token_sound env.world env.context c creds.validation_token req.scope
            result validated_as) in
      (
        id,
        entries,
        set,
        found,
        subst (λ x. All (IsPermitted env.standard_module_namespace id) x.access) (sym passed.minted)
            (unfold payload_of in
              access_of_permits env.standard_module_namespace passed.result is_cluster id requested
                passed.access (ap (λ x. x.cluster_id) (sym result_eq) ∙ named) passed.accepted),
      )

  module _ (P : Str → Str → Type 0)
      (answers : (i : ℕ) (host repo bearer : Str) (creds : UpstreamCredentials)
        → env.world.probe i host creds repo ≡ probe_ok bearer
        → P (cred_identity env.world.crypto creds) repo)
      (quiet : (i : ℕ) (c : ProofCache) → IsHonest P c → IsHonest P (env.world.others i c)) where
    -- A token issued for an envelope: a key of the ring opens the presented envelope, which is not
    -- too old, every repository listed is proved for the credentials inside it, by its own route,
    -- and the token expires a quarter of an hour after the clock was read. Here `P` is any property
    -- that every positive probe gives, that the proofs in the cache have, and that other requests
    -- keep while a probe is awaited.
    pub handle_token_proves :
        (creds : PresentedCredentials)
        → IsHonest P c
        → extract_presented_credentials env.base64_text req.authorization ≡ extracted creds
        → is_wrapped_upstream_token creds.validation_token ≡ true
        → response (handle_token env c req) ≡ issued p t n
        → (u : UnwrapResult) × (unwrap env.world.crypto env.context.key_ring env.world.now
              (slice_from (length wrapped_upstream_token_prefix) creds.validation_token)
            ≡ ok u)
          × (too_old env.world u ≡ false)
          × All (λ r. IsProved env.world P u.creds r.name) p.access
          × (p.exp ≡ env.expires_from + 15 * 60)
    handle_token_proves creds honest presented prefixed h =
        let passed = handle_token-Passed env c req p t n h in
        let same : creds ≡ passed.creds = cc (presented, passed.presented) in
        let (s, success, result) =
          envelope_result passed
            (subst (λ x. is_wrapped_upstream_token x.validation_token ≡ true) same prefixed) in
        let valid =
          validate_wrapped_upstream_sound env.world P answers quiet env.context.key_ring c
            passed.creds.validation_token req.scope s honest success in
        let wrapped : passed.result.strategy ≡ wrapped_upstream =
          ap (λ x. x.strategy) result ∙ (unfold wrapped_result in refl) in
        (
          valid.envelope,
          subst
              (λ (x : PresentedCredentials).
                unwrap env.world.crypto env.context.key_ring env.world.now
                  (slice_from (length wrapped_upstream_token_prefix) x.validation_token)
                ≡ ok valid.envelope)
              (sym same) valid.opened,
          valid.recent,
          subst (All (λ r. IsProved env.world P valid.envelope.creds r.name))
              (sym (access_requested passed (not_cluster _ wrapped)))
              (All-names (IsProved env.world P valid.envelope.creds) requested
                (unfold extract_repos_from_scope in valid.each)),
          ap (λ x. x.exp) passed.minted
              ∙ unfold payload_of ttl_seconds in
                (ap (λ x. env.expires_from + ttl_seconds x) wrapped),
        )
