-- ===== src/Auth/Credentials.antt =====
-- auth/src/serverHelpers.ts: presented credentials, configured tokens, identities.
pub mod Laws
use aocr.Prelude.{
  ℕ, suc, Bool, true, false, not, ◌&&◌, ◌||◌, List, [], ◌∷◌, ◌++◌, Option, none, some, ◌==◌,
  if◌then◌else◌, all, length,
}
use aocr.Text.{
  Str, codes, str_eq, is_empty, contains, starts_with, index_of, slice, slice_from, split_on, trim,
}
use aocr.Text.Utf8.{Utf8, Buffer}
use aocr.Upstream.Wrap.{Json, null, str, num, bool, arr, obj, field, end}
use aocr.Auth.ClusterPat.{ClusterPatEntry, parse_cluster_pat_entries}

pub record ValidationUserProfile : Type 0 where
  pub external_id : Str
  pub username : Option Str
  pub email : Option Str
  pub display_name : Option Str
  pub avatar_url : Option Str
  pub auth_provider : Option Str
  pub raw_profile : Json

pub record StaticPatConfig : Type 0 where
  pub tokens : List Str
  pub user_profile : ValidationUserProfile

pub data AuthError : Type 0 where
  token_required invalid_basic_payload registry_token_required unsupported_scheme : AuthError

pub record PresentedCredentials : Type 0 where
  pub validation_token : Str
  pub presented_identity : Option Str

pub data Extracted : Type 0 where
  extracted : PresentedCredentials → Extracted
  refused : AuthError → Extracted

-- `s || null`
abbrev pub or_null : Str → Option Str
or_null [] = none
or_null (c ∷ s) = some (c ∷ s)

abbrev from_password : Str → Str → Extracted
from_password username password =
    if is_empty password
    then refused registry_token_required
    else extracted (record { validation_token = password; presented_identity = or_null username })

-- The decoded `user:password` text, cut at its first colon.
unfoldable pub read_basic : Str → Extracted
unfolding index_of trim
read_basic decoded = elim (index_of b':' decoded) [
  | none ↦ refused invalid_basic_payload
  | some colon ↦
      from_password (trim (slice 0 colon decoded)) (trim (slice_from (suc colon) decoded))
]

-- `base64_text` is `Buffer.from(s, 'base64').toString('utf8')`.
unfoldable pub extract_from : (Str → Str) → Str → Extracted
unfolding starts_with read_basic trim
extract_from base64_text auth_header =
    if is_empty auth_header
    then refused token_required
    else if starts_with auth_header (codes "Bearer ")
    then extracted
        (record { validation_token = trim (slice_from 7 auth_header); presented_identity = none })
    else if starts_with auth_header (codes "Basic ")
    then read_basic (base64_text (trim (slice_from 6 auth_header)))
    else refused unsupported_scheme

unfoldable pub extract_presented_credentials : (Str → Str) → Option Str → Extracted
unfolding extract_from
extract_presented_credentials base64_text none = refused token_required
extract_presented_credentials base64_text (some auth_header) = extract_from base64_text auth_header

-- The loops of `parseStaticPatTokens`; `seen` keeps the order of insertion.
unfoldable add_tokens : List Str → List Str → List Str
unfolding trim contains str_eq
add_tokens seen [] = seen
add_tokens seen (token ∷ tokens) =
    let trimmed = trim token in
    add_tokens
      (if is_empty trimmed
        then seen
        else if contains seen trimmed
        then seen
        else seen ++ trimmed ∷ [])
      tokens

abbrev is_separator : ℕ → Bool
is_separator c = c == 10 || c == b','

unfoldable parse_from : List Str → List (Option Str) → List Str
unfolding add_tokens split_on
parse_from seen [] = seen
parse_from seen (none ∷ raws) = parse_from seen raws
parse_from seen (some raw ∷ raws) =
    parse_from (if is_empty raw then seen else add_tokens seen (split_on is_separator raw)) raws

unfoldable parse_static_pat_tokens : List (Option Str) → List Str
unfolding parse_from
parse_static_pat_tokens raws = parse_from [] raws

abbrev static_pat_subject : Str
static_pat_subject = codes "static-pat"

abbrev cluster_pat_provider : Str
cluster_pat_provider = codes "cluster-pat"

abbrev wrapped_upstream_provider : Str
wrapped_upstream_provider = codes "wrapped-upstream"

static_profile : ValidationUserProfile
static_profile = record {
  external_id = static_pat_subject;
  username = none;
  email = none;
  display_name = some static_pat_subject;
  avatar_url = none;
  auth_provider = some static_pat_subject;
  raw_profile = obj (
      field (codes "source") (str static_pat_subject) (
        field (codes "user") (obj (field (codes "id") (str static_pat_subject) end))
          (field (codes "authProvider") (str static_pat_subject) end)));
}

abbrev static_config : List Str → Option StaticPatConfig
static_config [] = none
static_config (t ∷ ts) = some (record { tokens = t ∷ ts; user_profile = static_profile })

unfoldable pub build_static_pat_config : Option Str → Option Str → Option StaticPatConfig
unfolding parse_static_pat_tokens static_profile
build_static_pat_config auth_pat_token auth_pat_tokens =
    static_config (parse_static_pat_tokens (auth_pat_token ∷ auth_pat_tokens ∷ []))

abbrev cluster_config : List ClusterPatEntry → Option (List ClusterPatEntry)
cluster_config [] = none
cluster_config (e ∷ es) = some (e ∷ es)

unfoldable pub build_cluster_pat_config : Option Str → Option (List ClusterPatEntry)
unfolding parse_cluster_pat_entries
build_cluster_pat_config auth_cluster_pat_tokens =
    cluster_config (parse_cluster_pat_entries auth_cluster_pat_tokens)

abbrev subject_profile : Str → Str → Json → ValidationUserProfile
subject_profile subject provider raw = record {
  external_id = subject;
  username = none;
  email = none;
  display_name = some subject;
  avatar_url = none;
  auth_provider = some provider;
  raw_profile = raw;
}

unfoldable pub build_cluster_pat_profile : Str → ValidationUserProfile
build_cluster_pat_profile cluster_id =
    let subject = codes "cluster:" ++ cluster_id in
    subject_profile subject cluster_pat_provider (
      obj (
        field (codes "source") (str cluster_pat_provider) (
          field (codes "user") (obj (field (codes "id") (str subject) end)) (
            field (codes "authProvider") (str cluster_pat_provider)
              (field (codes "clusterId") (str cluster_id) end)))))

unfoldable pub build_wrapped_upstream_profile : Str → ValidationUserProfile
build_wrapped_upstream_profile identity =
    let subject = codes "wrapped:" ++ slice 0 16 identity in
    subject_profile subject wrapped_upstream_provider (
      obj (
        field (codes "source") (str wrapped_upstream_provider) (
          field (codes "user") (obj (field (codes "id") (str subject) end))
            (field (codes "authProvider") (str wrapped_upstream_provider) end))))

-- `crypto.timingSafeEqual` compares buffers of one length.
unfoldable pub tokens_match : Utf8 → Str → Str → Bool
unfolding str_eq
tokens_match utf8 expected_token presented_token =
    let expected = utf8.encode expected_token in
    let presented = utf8.encode presented_token in
    if length expected == length presented then str_eq expected presented else false

-- `identity != null && identity.trim() !== ''`, then trimmed and in lower case
unfoldable pub normalized : (Str → Str) → List (Option Str) → List Str
unfolding trim
normalized to_lower [] = []
normalized to_lower (none ∷ rest) = normalized to_lower rest
normalized to_lower (some s ∷ rest) =
    let more = normalized to_lower rest in
    if is_empty (trim s) then more else to_lower (trim s) ∷ more

-- `account` is `none` unless the query parameter is one string.
unfoldable pub presented_identity_matches_user :
    (Str → Str) → Option Str → Option Str → ValidationUserProfile → Bool
unfolding normalized all contains str_eq
presented_identity_matches_user to_lower presented_identity account profile =
    let valid =
      normalized to_lower (some profile.external_id ∷ profile.username ∷ profile.email ∷ []) in
    all (contains valid) (normalized to_lower (presented_identity ∷ account ∷ []))
