-- ===== src/Upstream/Adapters.antt =====
-- auth/src/upstreamAuth/index.ts and adapters/: the probes of the upstream registries.
pub mod Vouched
use aocr.Prelude.{
  String, not, ℕ, Bool, true, false, ◌||◌, ◌&&◌, ◌==◌, leb, ltb, List, [], ◌∷◌, ◌++◌, Option, none,
  some, if◌then◌else◌, length, ◌-◌,
}
use aocr.Text.{Str, codes, is_empty, ends_with, slice}
use aocr.JsMap.{JsMap, get}
use aocr.Upstream.Wrap.{UpstreamCredentials}
use aocr.Upstream.Strategy.{
  Reason, unauthorized, unreachable, unsupported, ProbeResult, probe_ok, probe_err,
}

-- The fields of a token endpoint's body that are strings.
pub record TokenResponse : Type 0 where
  pub token : Option Str
  pub access_token : Option Str

pub record TokenExchangeConfig : Type 0 where
  pub token_endpoint : Str
  pub manifest_base : Str
  pub service : Str

-- The HTTP client and the base64 coder. `request_token url service scope authorization` is the
-- answer to the GET, `head url authorization` the status of the HEAD; `none` where the network
-- fails.
pub record Http : Type 0 where
  pub request_token : Str → Str → Str → Str → Option (ℕ × TokenResponse)
  pub head : Str → Option Str → Option ℕ
  pub base64 : Str → Str

abbrev probe_reference : Str
probe_reference = codes "latest"

-- `validateStatus`: another status throws.
abbrev pub validate_status : ℕ → Bool
validate_status s = leb 200 s && ltb s 500

unfoldable trim_trailing_slash : Str → Str
unfolding ends_with
trim_trailing_slash s = if ends_with s (codes "/") then slice 0 (length s - 1) s else s

pub manifest_url : Str → Str → Str
unfolding trim_trailing_slash
manifest_url manifest_base repo_path =
    trim_trailing_slash manifest_base
    ++ (codes "/v2/" ++ (repo_path ++ (codes "/manifests/" ++ probe_reference)))

abbrev pub is_denied : ℕ → Bool
is_denied s = s == 401 || s == 403

abbrev pub is_accepted : ℕ → Bool
is_accepted s = s == 200 || (s == 202 || s == 404)

-- What the status of the HEAD says; `none` is an error of the request.
unfoldable pub read_manifest_status : Str → Option ℕ → ProbeResult
read_manifest_status bearer none = probe_err unreachable
read_manifest_status bearer (some s) =
    if not (validate_status s)
    then probe_err unreachable
    else if is_denied s
    then probe_err unauthorized
    else if is_accepted s
    then probe_ok bearer
    else probe_err unreachable

-- `token ?? access_token`
abbrev pub bearer_of_body : TokenResponse → Option Str
bearer_of_body body = elim body.token [ some t ↦ some t | none ↦ body.access_token ]

-- The bearer that the token endpoint gives, or why it gives none.
pub data Exchanged : Type 0 where
  got : Str → Exchanged
  missed : Reason → Exchanged

abbrev pub non_blank : Option Str → Exchanged
non_blank (some (c ∷ bearer)) = got (c ∷ bearer)
non_blank _ = missed unreachable

unfoldable pub read_token_answer : Option (ℕ × TokenResponse) → Exchanged
read_token_answer none = missed unreachable
read_token_answer (some (s, body)) =
    if not (validate_status s)
    then missed unreachable
    else if is_denied s
    then missed unauthorized
    else if s == 200
    then non_blank (bearer_of_body body)
    else missed unreachable

abbrev pub basic : Http → UpstreamCredentials → Str
basic http creds = codes "Basic " ++ http.base64 (creds.username ++ (b':' ∷ creds.password))

abbrev pub pull_scope : Str → Str
pull_scope repo_path = codes "repository:" ++ (repo_path ++ codes ":pull")

pub exchange : Http → TokenExchangeConfig → UpstreamCredentials → Str → Exchanged
unfolding read_token_answer
exchange http config creds repo_path = read_token_answer (
    http.request_token config.token_endpoint config.service (pull_scope repo_path)
      (basic http creds))

unfoldable pub token_exchange_probe :
    Http → TokenExchangeConfig → UpstreamCredentials → Str → ProbeResult
unfolding exchange manifest_url read_manifest_status
token_exchange_probe http config creds repo_path =
    if is_empty repo_path
    then probe_err unsupported
    else elim (exchange http config creds repo_path) [
      | missed reason ↦ probe_err reason
      | got bearer ↦ read_manifest_status bearer (
          http.head (manifest_url config.manifest_base repo_path)
            (some (codes "Bearer " ++ bearer)))
    ]

unfoldable pub anonymous_probe : Http → Str → UpstreamCredentials → Str → ProbeResult
unfolding manifest_url read_manifest_status
anonymous_probe http manifest_base creds repo_path =
    if is_empty repo_path
    then probe_err unsupported
    else read_manifest_status [] (http.head (manifest_url manifest_base repo_path) none)

pub data Adapter : Type 0 where
  token_exchange : TokenExchangeConfig → Adapter
  anonymous : Str → Adapter

abbrev config : String → String → String → Adapter
config token_endpoint manifest_base service = token_exchange (record {
  token_endpoint = codes token_endpoint;
  manifest_base = codes manifest_base;
  service = codes service;
})

-- registerDefaultProbes
unfoldable pub probes : JsMap Adapter
probes =
    (
      codes "docker.io",
      config "https://auth.docker.io/token" "https://registry-1.docker.io" "registry.docker.io",
    )
    ∷ (codes "ghcr.io", config "https://ghcr.io/token" "https://ghcr.io" "ghcr.io")
    ∷ (codes "quay.io", config "https://quay.io/v2/auth" "https://quay.io" "quay.io")
    ∷ (codes "gcr.io", config "https://gcr.io/v2/token" "https://gcr.io" "gcr.io")
    ∷ (codes "registry.k8s.io", anonymous (codes "https://registry.k8s.io"))
    ∷ []

unfoldable pub run_probe : Http → Option Adapter → UpstreamCredentials → Str → ProbeResult
unfolding token_exchange_probe anonymous_probe
run_probe http none creds repo_path = probe_err unsupported
run_probe http (some (token_exchange c)) creds repo_path =
    token_exchange_probe http c creds repo_path
run_probe http (some (anonymous base)) creds repo_path = anonymous_probe http base creds repo_path

-- getProbeForHost and its probe
unfoldable pub probe_host : Http → (Str → Str) → Str → UpstreamCredentials → Str → ProbeResult
unfolding run_probe probes get
probe_host http to_lower host creds repo_path =
    run_probe http (get probes (to_lower host)) creds repo_path
