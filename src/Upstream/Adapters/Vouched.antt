-- ===== src/Upstream/Adapters/Vouched.antt =====
-- What a positive probe says of the upstream.
use aocr.Prelude.{
  ℕ, ◌≡◌, ◌≢◌, refl, sym, ap, ◌∙◌, ◌⊎◌, inl, inr, true, [], ◌∷◌, ◌++◌, Option, none, some,
  Bool-cases, ◌==◌, ==_iff,
}
use aocr.Text.{Str, codes, is_empty}
use aocr.JsMap.{get}
use aocr.Upstream.Wrap.{UpstreamCredentials}
use aocr.Upstream.Strategy.{Reason, probe_ok}
use aocr.Upstream.Adapters.{
  Http, TokenExchangeConfig, TokenResponse, Adapter, token_exchange, anonymous, Exchanged, got,
  missed, exchange, manifest_url, read_manifest_status, read_token_answer, token_exchange_probe,
  anonymous_probe, run_probe, probes, probe_host, is_accepted, is_denied, validate_status, basic,
  pull_scope, bearer_of_body, non_blank,
}

-- The manifest endpoint answers with a status that shows read access.
abbrev Reads : Http → Str → Option Str → Str → Type 0
Reads http base authorization repo =
    (s : ℕ) × (http.head (manifest_url base repo) authorization ≡ some s)
    × ((s ≡ 200) ⊎ ((s ≡ 202) ⊎ (s ≡ 404)))

-- The upstream vouches for the credentials on a repository, with a bearer.
pub data Vouches (http : Http) (creds : UpstreamCredentials) (repo bearer : Str)
    : Adapter → Type 0 where
  by_token :
      (config : TokenExchangeConfig) (body : TokenResponse)
      → http.request_token config.token_endpoint config.service (pull_scope repo) (basic http creds)
        ≡ some (200, body)
      → bearer_of_body body ≡ some bearer
      → bearer ≢ []
      → Reads http config.manifest_base (some (codes "Bearer " ++ bearer)) repo
      → Vouches http creds repo bearer (token_exchange config)
  openly :
      (base : Str)
      → bearer ≡ []
      → Reads http base none repo
      → Vouches http creds repo bearer (anonymous base)

accepted_cases : (s : ℕ) → is_accepted s ≡ true → (s ≡ 200) ⊎ ((s ≡ 202) ⊎ (s ≡ 404))
accepted_cases s h = elim (Bool-cases (s == 200)) [
  | inl e ↦ inl ((==_iff s 200).0 e)
  | inr e ↦ elim (Bool-cases (s == 202)) [
    | inl f ↦ inr (inl ((==_iff s 202).0 f))
    | inr f ↦ elim (Bool-cases (s == 404)) [
      | inl g ↦ inr (inr ((==_iff s 404).0 g))
      | inr g ↦ absurd (cc (e, f, g, h))
    ]
  ]
]

read_manifest_status_sound :
    (b bearer : Str) (o : Option ℕ)
    → read_manifest_status b o ≡ probe_ok bearer
    → (s : ℕ) × (o ≡ some s) × ((s ≡ 200) ⊎ ((s ≡ 202) ⊎ (s ≡ 404))) × (b ≡ bearer)
unfolding read_manifest_status
read_manifest_status_sound b bearer none h = absurd (cc h)
read_manifest_status_sound b bearer (some s) h = elim (Bool-cases (validate_status s)) [
  | inr e ↦ absurd (cc (e, h))
  | inl e ↦ elim (Bool-cases (is_denied s)) [
    | inl f ↦ absurd (cc (e, f, h))
    | inr f ↦ elim (Bool-cases (is_accepted s)) [
      | inr g ↦ absurd (cc (e, f, g, h))
      | inl g ↦ (s, refl, accepted_cases s g, cc (e, f, g, h))
    ]
  ]
]

non_blank_sound :
    (o : Option Str) (bearer : Str) → non_blank o ≡ got bearer → (o ≡ some bearer) × (bearer ≢ [])
non_blank_sound none bearer h = absurd (cc h)
non_blank_sound (some []) bearer h = absurd (cc h)
non_blank_sound (some (c ∷ t)) bearer h =
    let e : c ∷ t ≡ bearer = cc h in (ap (λ x. some x) e, λ q. absurd (cc (e, q)))

read_token_answer_sound :
    (o : Option (ℕ × TokenResponse)) (bearer : Str)
    → read_token_answer o ≡ got bearer
    → (body : TokenResponse) × (o ≡ some (200, body))
      × (bearer_of_body body ≡ some bearer)
      × (bearer ≢ [])
unfolding read_token_answer
read_token_answer_sound none bearer h = absurd (cc h)
read_token_answer_sound (some (s, body)) bearer h = elim (Bool-cases (validate_status s)) [
  | inr e ↦ absurd (cc (e, h))
  | inl e ↦ elim (Bool-cases (is_denied s)) [
    | inl f ↦ absurd (cc (e, f, h))
    | inr f ↦ elim (Bool-cases (s == 200)) [
      | inr g ↦ absurd (cc (e, f, g, h))
      | inl g ↦
          let (found, full) = non_blank_sound (bearer_of_body body) bearer (cc (e, f, g, h)) in
          (body, ap (λ x. some (x, body)) ((==_iff s 200).0 g), found, full)
    ]
  ]
]

Exchanged-cases : (x : Exchanged) → ((b : Str) × (x ≡ got b)) ⊎ ((r : Reason) × (x ≡ missed r))
Exchanged-cases (got b) = inl (b, refl)
Exchanged-cases (missed r) = inr (r, refl)

module _ (http : Http) (creds : UpstreamCredentials) (repo bearer : Str) where
  token_exchange_probe_sound :
      (config : TokenExchangeConfig)
      → token_exchange_probe http config creds repo ≡ probe_ok bearer
      → (repo ≢ []) × Vouches http creds repo bearer (token_exchange config)
  unfolding token_exchange_probe
  token_exchange_probe_sound config h = elim (Bool-cases (is_empty repo)) [
    | inl e ↦ absurd (cc (e, h))
    | inr e ↦ elim (Exchanged-cases (exchange http config creds repo)) [
      | inr (r, f) ↦ absurd (cc (e, f, h))
      | inl (b, f) ↦
          let (s, answer, accepted, same) =
            read_manifest_status_sound b bearer
              (http.head (manifest_url config.manifest_base repo) (some (codes "Bearer " ++ b)))
              (cc (e, f, h)) in
          let (body, asked, found, full) =
            read_token_answer_sound
              (http.request_token config.token_endpoint config.service (pull_scope repo)
                (basic http creds))
              bearer (unfold exchange in (f ∙ ap (λ x. got x) same)) in
          (
            λ q. absurd (cc (e, q)),
            by_token config body asked found full (
              s,
              ap
                    (λ x.
                      http.head (manifest_url config.manifest_base repo)
                        (some (codes "Bearer " ++ x)))
                    (sym same)
                  ∙ answer,
              accepted,
            ),
          )
    ]
  ]

  anonymous_probe_sound :
      (base : Str)
      → anonymous_probe http base creds repo ≡ probe_ok bearer
      → (repo ≢ []) × Vouches http creds repo bearer (anonymous base)
  unfolding anonymous_probe
  anonymous_probe_sound base h = elim (Bool-cases (is_empty repo)) [
    | inl e ↦ absurd (cc (e, h))
    | inr e ↦
        let (s, answer, accepted, same) =
          read_manifest_status_sound [] bearer (http.head (manifest_url base repo) none)
            (cc (e, h)) in
        (λ q. absurd (cc (e, q)), openly base (sym same) (s, answer, accepted))
  ]

  run_probe_sound :
      (o : Option Adapter)
      → run_probe http o creds repo ≡ probe_ok bearer
      → (repo ≢ []) × (a : Adapter) × (o ≡ some a) × Vouches http creds repo bearer a
  run_probe_sound none h = absurd (unfold run_probe in cc h)
  run_probe_sound (some (token_exchange config)) h =
      let (full, v) = token_exchange_probe_sound config (unfold run_probe in h) in
      (full, token_exchange config, refl, v)
  run_probe_sound (some (anonymous base)) h =
      let (full, v) = anonymous_probe_sound base (unfold run_probe in h) in
      (full, anonymous base, refl, v)

  -- A probe answers with a bearer only for a repository with a name and a host that has an
  -- adapter, and only if that upstream vouches for it: its token endpoint gave that bearer for
  -- pulling the repository with these credentials, or it is open and the bearer is empty, and its
  -- manifest endpoint then answered with a status that shows read access.
  pub probe_host_sound :
      (to_lower : Str → Str) (host : Str)
      → probe_host http to_lower host creds repo ≡ probe_ok bearer
      → (repo ≢ [])
        × (a : Adapter) × (get probes (to_lower host) ≡ some a)
        × Vouches http creds repo bearer a
  probe_host_sound to_lower host h =
      run_probe_sound (get probes (to_lower host)) (unfold probe_host in h)
