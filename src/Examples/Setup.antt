-- ===== src/Examples/Setup.antt =====
-- A small world for the examples: coders and a cipher that are concrete functions, a ring of one
-- key, an envelope, and upstreams that know one repository.
use aocr.Prelude.{
  ℕ, ◌≡◌, inl, inr, true, List, [], ◌∷◌, ◌++◌, none, some, if◌then◌else◌, Bool-cases,
}
use aocr.Prelude.Int.{pos}
use aocr.Text.{Str, codes, str_eq}
use aocr.Text.Laws.{str_eq_iff}
use aocr.Text.Utf8.{Utf8, Buffer}
use aocr.Auth.Scope.{ScopeParam, one}
use aocr.Auth.ClusterPat.{ClusterPatEntry}
use aocr.Auth.Credentials.{StaticPatConfig}
use aocr.Auth.Validation.{Context}
use aocr.Auth.Token.{Env, Request}
use aocr.Upstream.ProofCache.{ProofCache, new_cache}
use aocr.Upstream.Wrap.{
  Crypto, WrapKey, UpstreamCredentials, Envelope, envelope_json, cred_identity, null,
}
use aocr.Upstream.Strategy.{World, ProbeResult, probe_ok, probe_err, unauthorized}

abbrev pub utf8 : Utf8
utf8 = record { encode = λ s. s; decode = λ b. b }

abbrev pub creds : UpstreamCredentials
creds = record {
  upstream_host = codes "docker.io";
  username = codes "alice";
  password = codes "pw";
  scope = [];
}

abbrev pub nonce : Buffer
nonce = 0 ∷ 0 ∷ 0 ∷ 0 ∷ 0 ∷ 0 ∷ 0 ∷ 0 ∷ 0 ∷ 0 ∷ 0 ∷ 0 ∷ []

abbrev pub tag : Buffer
tag = 0 ∷ 0 ∷ 0 ∷ 0 ∷ 0 ∷ 0 ∷ 0 ∷ 0 ∷ 0 ∷ 0 ∷ 0 ∷ 0 ∷ 0 ∷ 0 ∷ 0 ∷ 0 ∷ []

abbrev pub key : WrapKey
key = record { id = codes "k0"; bytes = 1 ∷ 2 ∷ 3 ∷ [] }

abbrev pub old_key : WrapKey
old_key = record { id = codes "k1"; bytes = 4 ∷ 5 ∷ 6 ∷ [] }

abbrev pub envelope : Envelope
envelope = record { v = pos 1; ts = pos 5000; creds = creds }

abbrev pub plaintext : Buffer
plaintext = 7 ∷ []

-- One text stands for the envelope; the cipher opens what one key sealed.
abbrev pub crypto : Crypto
crypto = record {
  seal_gcm = λ k n text. (text, tag);
  open_gcm = λ k n text t. if str_eq k (1 ∷ 2 ∷ 3 ∷ []) then some text else none;
  sha256_hex = λ s. s;
  to_base64url = λ b. b;
  from_base64url = λ s. s;
  from_base64 = λ s. s;
  stringify = λ j. plaintext;
  parse = λ b. if str_eq b plaintext then some (envelope_json envelope) else none;
}

-- The upstreams know one repository.
abbrev pub probe : ℕ → Str → UpstreamCredentials → Str → ProbeResult
probe i host up repo =
    if str_eq repo (codes "library/alpine")
    then probe_ok (codes "bearer")
    else probe_err unauthorized

abbrev pub world : World
world = record {
  crypto = crypto;
  utf8 = utf8;
  to_lower = λ s. s;
  now = pos 6000;
  looks_at = λ i. 10;
  records_at = λ i. 20;
  probe = probe;
  others = λ i c. c;
}

abbrev pub IsKnown : Str → Str → Type 0
IsKnown identity repo = repo ≡ codes "library/alpine"

pub probe-IsKnown :
    (i : ℕ) (host repo bearer : Str) (up : UpstreamCredentials)
    → probe i host up repo ≡ probe_ok bearer
    → IsKnown (cred_identity crypto up) repo
probe-IsKnown i host repo bearer up h = elim (Bool-cases (str_eq repo (codes "library/alpine"))) [
  | inl e ↦ (str_eq_iff repo (codes "library/alpine")).0 e
  | inr e ↦ absurd (cc (e, h))
]

abbrev pub cache : ProofCache
cache = new_cache 300 2

abbrev pub token : Str
token = codes "aocrwrap:" ++ (nonce ++ (plaintext ++ tag))

abbrev pub alpine : ScopeParam
alpine = one (codes "repository:library/alpine:pull")

abbrev pub entries : List ClusterPatEntry
entries = record { cluster_id = codes "blue"; token = codes "secret" } ∷ []

abbrev pub static_config : StaticPatConfig
static_config = record {
  tokens = codes "first" ∷ codes "second" ∷ [];
  user_profile = record {
    external_id = codes "static-pat";
    username = none;
    email = none;
    display_name = none;
    avatar_url = none;
    auth_provider = none;
    raw_profile = null;
  };
}

abbrev pub context : Context
context = record {
  static_pat_config = some static_config;
  cluster_pat_config = some entries;
  validation_service_url = none;
  key_ring = key ∷ [];
  axios_get = λ url t. none;
  to_string = λ j. [];
}

abbrev pub env : Env
env = record {
  world = world;
  context = context;
  standard_module_namespace = none;
  issuer = codes "aocr-auth";
  default_registry_service = codes "aocr";
  jwt_private_key = some (codes "pem");
  base64_text = λ s. s;
  connects = true;
  rolls_back = true;
  sign = λ k p. some (codes "jwt");
  issues_at = 100;
  expires_from = 100;
}

abbrev pub request : Str → Str → Request
request scope authorization = record {
  account = none;
  service = none;
  scope = one scope;
  authorization = some authorization;
}
