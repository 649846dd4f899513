-- ===== src/Auth/Token/Guards.antt =====
-- What an issued token has passed on its way.
use aocr.Prelude.{
  ℕ, ◌≡◌, refl, sym, ap, ◌∙◌, ◌⊎◌, inl, inr, true, false, List, [], Option, ltb, length, Bool-cases,
  Option-cases,
}
use aocr.Text.{Str, is_empty}
use aocr.Auth.Scope.{RequestedScope, parse_requested_scopes, max_requested_scopes}
use aocr.Auth.Credentials.{
  PresentedCredentials, Extracted, AuthError, extracted, refused, extract_presented_credentials,
  presented_identity_matches_user,
}
use aocr.Auth.Validation.{
  ValidationResult, Strategy, api, pat, cluster_pat, wrapped_upstream, ValidationError, Validated,
  valid, invalid, validate_presented_token,
}
use aocr.Auth.Token.{
  Env, Request, Response, issued, too_many_scopes, invalid_token, Query, Payload, Access, granted,
  denied, access_of, payload_of, sign_payload, respond, serve, after_validation, handle_token,
  ttl_seconds,
}
use aocr.Upstream.ProofCache.{ProofCache}

abbrev pub response : (Response × List Query) × ProofCache → Response
response r = r.0.0

Extracted-cases :
    (e : Extracted)
    → ((c : PresentedCredentials) × (e ≡ extracted c)) ⊎ ((r : AuthError) × (e ≡ refused r))
Extracted-cases (extracted c) = inl (c, refl)
Extracted-cases (refused r) = inr (r, refl)

Validated-cases :
    (v : Validated)
    → ((r : ValidationResult) × (v ≡ valid r)) ⊎ ((e : ValidationError) × (v ≡ invalid e))
Validated-cases (valid r) = inl (r, refl)
Validated-cases (invalid e) = inr (e, refl)

pub Strategy-cases :
    (s : Strategy) → (s ≡ api) ⊎ ((s ≡ pat) ⊎ ((s ≡ cluster_pat) ⊎ (s ≡ wrapped_upstream)))
Strategy-cases api = inl refl
Strategy-cases pat = inr (inl refl)
Strategy-cases cluster_pat = inr (inr (inl refl))
Strategy-cases wrapped_upstream = inr (inr (inr refl))

module _ (env : Env) (c : ProofCache) (req : Request) where
  abbrev validated : PresentedCredentials → Validated × ProofCache
  validated creds =
      validate_presented_token env.world env.context c creds.validation_token req.scope

  handle-oversized :
      ltb max_requested_scopes (length (parse_requested_scopes req.scope)) ≡ true
      → handle_token env c req ≡ ((too_many_scopes, []), c)
  unfolding handle_token
  handle-oversized h = rw (h, handle_token)

  handle-refused :
      (r : AuthError)
      → ltb max_requested_scopes (length (parse_requested_scopes req.scope)) ≡ false
      → extract_presented_credentials env.base64_text req.authorization ≡ refused r
      → handle_token env c req ≡ ((invalid_token, []), c)
  unfolding handle_token
  handle-refused r h e = rw (h, e, handle_token)

  handle-extracted :
      (creds : PresentedCredentials)
      → ltb max_requested_scopes (length (parse_requested_scopes req.scope)) ≡ false
      → extract_presented_credentials env.base64_text req.authorization ≡ extracted creds
      → handle_token env c req ≡ (
        after_validation env req creds.presented_identity (validated creds).0,
        (validated creds).1,
      )
  unfolding handle_token
  handle-extracted creds h e = rw (h, e, handle_token)

-- A signed answer is about the payload that was signed, with its own lifetime.
sign_payload_sound :
    (env : Env) (payload p : Payload) (ttl n : ℕ) (t : Str)
    → sign_payload env payload ttl ≡ issued p t n
    → (p ≡ payload) × (n ≡ ttl)
unfolding sign_payload
sign_payload_sound env payload p ttl n t h = elim (Option-cases env.jwt_private_key) [
  | inl e ↦ absurd (cc (e, h))
  | inr (key, e) ↦ elim (Bool-cases (is_empty key)) [
    | inl f ↦ absurd (cc (e, f, h))
    | inr f ↦ elim (Option-cases (env.sign key payload)) [
      | inl g ↦ absurd (cc (e, f, g, h))
      | inr (token, g) ↦ (cc (e, f, g, h), cc (e, f, g, h))
    ]
  ]
]

module _ (env : Env) (req : Request) (result : ValidationResult) (p : Payload) (t : Str)
    (n : ℕ) where
  respond_sound :
      (access : Access)
      → respond env req result access ≡ issued p t n
      → (rs : List RequestedScope) × (access ≡ granted rs)
        × (p ≡ payload_of env req result rs)
        × (n ≡ ttl_seconds result.strategy)
  respond_sound (denied e) h = absurd (unfold respond in cc h)
  respond_sound (granted rs) h =
      let (same, ttl) =
        sign_payload_sound env (payload_of env req result rs) p (ttl_seconds result.strategy) n t
          (unfold respond in h) in
      (rs, refl, same, ttl)

  abbrev answer : Response
  answer =
      respond env req result
        (access_of env.standard_module_namespace result (parse_requested_scopes req.scope))

  -- Every served response with a token is the answer for the validated user.
  answer-serve :
      (presented : Option Str)
      → (serve env req presented result).0 ≡ issued p t n
      → answer ≡ issued p t n
  unfolding serve
  answer-serve presented h = elim (Strategy-cases result.strategy) [
    | inr (inl e) ↦ cc (e, h)
    | inr (inr (inl e)) ↦ cc (e, h)
    | inr (inr (inr e)) ↦ cc (e, h)
    | inl e ↦
        elim (Bool-cases (
          presented_identity_matches_user env.world.to_lower presented req.account
            result.user_profile)) [
              | inr f ↦ absurd (cc (e, f, h))
              | inl f ↦ elim (Bool-cases env.connects) [
                | inr g ↦ absurd (cc (e, f, g, h))
                | inl g ↦ elim (Bool-cases env.rolls_back) [
                  | inl r ↦ cc (e, f, g, r, h)
                  | inr r ↦ absurd (cc (e, f, g, r, h))
                ]
              ]
            ]
  ]

module _ (env : Env) (c : ProofCache) (req : Request) (p : Payload) (t : Str) (n : ℕ) where
  -- What an answer with a token went through.
  pub record Passed : Type 0 where
    pub creds : PresentedCredentials
    pub result : ValidationResult
    pub access : List RequestedScope
    pub few : ltb max_requested_scopes (length (parse_requested_scopes req.scope)) ≡ false
    pub presented :
        extract_presented_credentials env.base64_text req.authorization ≡ extracted creds
    pub validated_as : (validated env c req creds).0 ≡ valid result
    pub accepted :
        access_of env.standard_module_namespace result (parse_requested_scopes req.scope)
        ≡ granted access
    pub minted : p ≡ payload_of env req result access
    pub lifetime : n ≡ ttl_seconds result.strategy

  passed_valid :
      (creds : PresentedCredentials) (result : ValidationResult)
      → ltb max_requested_scopes (length (parse_requested_scopes req.scope)) ≡ false
      → extract_presented_credentials env.base64_text req.authorization ≡ extracted creds
      → (validated env c req creds).0 ≡ valid result
      → response (handle_token env c req) ≡ issued p t n
      → Passed
  passed_valid creds result few presented v h =
      let served : (serve env req creds.presented_identity result).0 ≡ issued p t n =
        ap (λ o. (after_validation env req creds.presented_identity o).0) (sym v)
        ∙ sym (ap response (handle-extracted env c req creds few presented))
        ∙ h in
      let (access, accepted, minted, lifetime) =
        respond_sound env req result p t n _
          (answer-serve env req result p t n creds.presented_identity served) in
      record {
        creds = creds;
        result = result;
        access = access;
        few = few;
        presented = presented;
        validated_as = v;
        accepted = accepted;
        minted = minted;
        lifetime = lifetime;
      }

  pub handle_token-Passed : response (handle_token env c req) ≡ issued p t n → Passed
  handle_token-Passed h =
      elim (Bool-cases (ltb max_requested_scopes (length (parse_requested_scopes req.scope)))) [
        | inl many ↦ absurd (cc (sym (ap response (handle-oversized env c req many)) ∙ h))
        | inr few ↦
            elim (Extracted-cases
              (extract_presented_credentials env.base64_text req.authorization)) [
                | inr (r, e) ↦
                    absurd (cc (sym (ap response (handle-refused env c req r few e)) ∙ h))
                | inl (creds, e) ↦ elim (Validated-cases (validated env c req creds).0) [
                  | inl (result, v) ↦ passed_valid creds result few e v h
                  | inr (code, v) ↦ absurd (
                      cc (
                        ap (λ o. (after_validation env req creds.presented_identity o).0) (sym v)
                        ∙ sym (ap response (handle-extracted env c req creds few e))
                        ∙ h))
                ]
              ]
      ]
