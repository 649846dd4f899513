-- ===== src/Upstream/Wrap.antt =====
-- auth/src/upstreamAuth/wrap.ts: the key ring, and envelopes of upstream credentials.
pub mod RoundTrip
use aocr.Prelude.{
  ℕ, suc, ◌+◌, ◌-◌, ◌<◌, Bool, true, false, ◌&&◌, not, List, [], ◌∷◌, ◌++◌, Option, none, some,
  ◌==◌, ltb, leb, if◌then◌else◌, filter, map, length, take, drop, ◌>>=◌,
}
use aocr.Prelude.Int.{ℤ, pos, negsuc, ◌-ℤ◌}
use aocr.Text.{Str, codes, str_eq, is_empty, index_of, slice, slice_from, split_on, trim}
use aocr.Text.Utf8.{Buffer}

-- What `JSON.parse` makes; a number is modelled where it is an integer.
mutual
  pub data Json : Type 0 where
    null : Json
    bool : Bool → Json
    num : ℤ → Json
    str : Str → Json
    arr : Items → Json
    obj : Fields → Json

  pub data Items : Type 0 where
    nil : Items
    cons : Json → Items → Items

  pub data Fields : Type 0 where
    end : Fields
    field : Str → Json → Fields → Fields

-- obj[name]
unfoldable pub get_field : Str → Fields → Option Json
unfolding str_eq
get_field name end = none
get_field name (field k v rest) = if str_eq k name then some v else get_field name rest

-- The runtime's cryptography and coders. `open_gcm` answers `none` where the decipher throws.
pub record Crypto : Type 0 where
  pub seal_gcm : Buffer → Buffer → Buffer → Buffer × Buffer
  pub open_gcm : Buffer → Buffer → Buffer → Buffer → Option Buffer
  pub sha256_hex : Str → Str
  pub to_base64url : Buffer → Str
  pub from_base64url : Str → Buffer
  pub from_base64 : Str → Buffer
  pub stringify : Json → Buffer
  pub parse : Buffer → Option Json

abbrev aes_key_len : ℕ
aes_key_len = 32

abbrev nonce_len : ℕ
nonce_len = 12

abbrev tag_len : ℕ
tag_len = 16

abbrev pub envelope_version : ℤ
envelope_version = pos 1

pub record UpstreamCredentials : Type 0 where
  pub upstream_host : Str
  pub username : Str
  pub password : Str
  pub scope : Str

pub record Envelope : Type 0 where
  pub v : ℤ
  pub ts : ℤ
  pub creds : UpstreamCredentials

pub record WrapKey : Type 0 where
  pub id : Str
  pub bytes : Buffer

pub data WrapError : Type 0 where
  invalid_format unknown_key bad_envelope : WrapError

pub data Result {ℓ} (A : Type ℓ) : Type ℓ where
  ok : A → Result A
  err : WrapError → Result A

pub record UnwrapResult : Type 0 where
  pub creds : UpstreamCredentials
  pub wrapped_at : ℤ
  pub age_ms : ℤ
  pub key_id : Str

abbrev as_string : Option Json → Option Str
as_string (some (str s)) = some s
as_string _ = none

abbrev as_number : Option Json → Option ℤ
as_number (some (num n)) = some n
as_number _ = none

read_creds : Fields → Option UpstreamCredentials
unfolding get_field str_eq
read_creds c = do
  host ← as_string (get_field (codes "upstreamHost") c)
  user ← as_string (get_field (codes "username") c)
  pass ← as_string (get_field (codes "password") c)
  scope ← as_string (get_field (codes "scope") c)
  some (record { upstream_host = host; username = user; password = pass; scope = scope })

-- An array is an object too, but has none of the fields.
abbrev as_object : Option Json → Option Fields
as_object (some (obj fs)) = some fs
as_object _ = none

-- isEnvelope, with the envelope that it finds
unfoldable pub as_envelope : Json → Option Envelope
unfolding read_creds
as_envelope json = do
  top ← as_object (some json)
  v ← as_number (get_field (codes "v") top)
  ts ← as_number (get_field (codes "ts") top)
  fields ← as_object (get_field (codes "creds") top)
  creds ← read_creds fields
  some (record { v = v; ts = ts; creds = creds })

abbrev is_current : ℤ → Bool
is_current (pos n) = n == 1
is_current (negsuc n) = false

check_version : Option Envelope → Result Envelope
check_version none = err bad_envelope
check_version (some e) = if is_current e.v then ok e else err bad_envelope

abbrev from_json : Option Json → Option Envelope
from_json none = none
from_json (some json) = as_envelope json

unfoldable pub parse_envelope : Crypto → Buffer → Result Envelope
unfolding check_version as_envelope
parse_envelope crypto plaintext = check_version (from_json (crypto.parse plaintext))

-- The entry's id and base64 text; `i` is its place in the list.
unfoldable pub split_key : Str → Str → Str × Str
unfolding index_of
split_key default_id entry = elim (index_of b':' entry) [
  | none ↦ (default_id, entry)
  | some colon ↦
      if ltb 0 colon && ltb colon 16
      then (slice 0 colon entry, slice_from (suc colon) entry)
      else (default_id, entry)
]

-- The loop of `parseWrapKeyRing`; `show` is the runtime's decimal notation of the index.
unfoldable pub read_keys : Crypto → (ℕ → Str) → ℕ → List Str → List WrapKey
unfolding split_key
read_keys crypto show i [] = []
read_keys crypto show i (entry ∷ entries) =
    let (id, b64) = split_key (b'k' ∷ show i) entry in
    let bytes = crypto.from_base64 b64 in
    let rest = read_keys crypto show (i + 1) entries in
    if length bytes == aes_key_len then record { id = id; bytes = bytes } ∷ rest else rest

unfoldable pub parse_wrap_key_ring : Crypto → (ℕ → Str) → Option Str → List WrapKey
unfolding read_keys split_on trim
parse_wrap_key_ring crypto show none = []
parse_wrap_key_ring crypto show (some raw) =
    read_keys crypto show 0
      (filter (λ e. not (is_empty e)) (map trim (split_on (λ c. c == b',') raw)))

creds_json : UpstreamCredentials → Fields
creds_json c = field (codes "upstreamHost") (str c.upstream_host) (
    field (codes "username") (str c.username)
      (field (codes "password") (str c.password) (field (codes "scope") (str c.scope) end)))

unfoldable pub envelope_json : Envelope → Json
unfolding creds_json
envelope_json e = obj (
    field (codes "v") (num e.v)
      (field (codes "ts") (num e.ts) (field (codes "creds") (obj (creds_json e.creds)) end)))

-- `nonce` is what `randomBytes` drew.
unfoldable pub wrap : Crypto → List WrapKey → UpstreamCredentials → ℤ → Buffer → Result Str
unfolding envelope_json
wrap crypto [] creds now nonce = err unknown_key
wrap crypto (key ∷ keys) creds now nonce =
    let envelope : Envelope = record { v = envelope_version; ts = now; creds = creds } in
    let sealed = crypto.seal_gcm key.bytes nonce (crypto.stringify (envelope_json envelope)) in
    ok (crypto.to_base64url (nonce ++ (sealed.0 ++ sealed.1)))

abbrev opened : WrapKey → ℤ → Result Envelope → Result UnwrapResult
opened key now (err e) = err e
opened key now (ok e) =
    ok (record { creds = e.creds; wrapped_at = e.ts; age_ms = now -ℤ e.ts; key_id = key.id })

-- the loop over the keys: a key that does not open the blob is passed over
unfoldable pub try_keys : Crypto → ℤ → Buffer → Buffer → Buffer → List WrapKey → Result UnwrapResult
unfolding parse_envelope
try_keys crypto now nonce ciphertext tag [] = err unknown_key
try_keys crypto now nonce ciphertext tag (key ∷ keys) =
    elim (crypto.open_gcm key.bytes nonce ciphertext tag) [
      | none ↦ try_keys crypto now nonce ciphertext tag keys
      | some plaintext ↦ opened key now (parse_envelope crypto plaintext)
    ]

unwrap_raw : Crypto → List WrapKey → ℤ → Buffer → Result UnwrapResult
unfolding try_keys
unwrap_raw crypto keys now raw =
    if ltb (length raw) (nonce_len + tag_len + 1)
    then err invalid_format
    else try_keys crypto now (take nonce_len raw) (drop nonce_len (take (length raw - tag_len) raw))
        (drop (length raw - tag_len) raw) keys

unfoldable pub unwrap : Crypto → List WrapKey → ℤ → Str → Result UnwrapResult
unfolding unwrap_raw
unwrap crypto [] now blob = err unknown_key
unwrap crypto (key ∷ keys) now blob =
    unwrap_raw crypto (key ∷ keys) now (crypto.from_base64url blob)

-- host || 0 || username || 0 || password, hashed
unfoldable pub cred_preimage : UpstreamCredentials → Str
cred_preimage c = c.upstream_host ++ (0 ∷ (c.username ++ (0 ∷ c.password)))

unfoldable pub cred_identity : Crypto → UpstreamCredentials → Str
unfolding cred_preimage
cred_identity crypto c = crypto.sha256_hex (cred_preimage c)
