-- ===== src/Upstream/Wrap/RoundTrip.antt =====
-- Envelopes come back from the ring, also after a rotation of the keys.
use aocr.Prelude.{
  ℕ, ◌+◌, ◌-◌, ◌<◌, ◌≡◌, refl, ◌∙◌, ap, subst, inl, inr, false, List, [], ◌∷◌, ◌++◌, Option, none,
  some, arith, ◌==◌, ltb, length, take, drop, length-append, take-length-append, drop-length-append,
  append_assoc, ==_iff, Bool-cases, All,
}
use aocr.Prelude.Int.{ℤ, ◌-ℤ◌}
use aocr.Text.{Str}
use aocr.Text.Laws.{Lacks, separator_injective}
use aocr.Text.Utf8.{Buffer}
use aocr.Upstream.Wrap.{
  Crypto, WrapKey, UpstreamCredentials, Envelope, ok, envelope_json, envelope_version, as_envelope,
  parse_envelope, wrap, opened, check_version, split_key, unwrap, unwrap_raw, try_keys, read_keys,
  parse_wrap_key_ring, cred_preimage,
}

-- What the library documents of one sealing: it opens under its key, and its tag has its length.
pub record Seals (crypto : Crypto) (key nonce plaintext : Buffer) : Type 0 where
  pub opens :
      crypto.open_gcm key nonce
        (crypto.seal_gcm key nonce plaintext).0
        (crypto.seal_gcm key nonce plaintext).1
      ≡ some plaintext
  pub tag : length (crypto.seal_gcm key nonce plaintext).1 ≡ 16
  pub some_text : 0 < length (crypto.seal_gcm key nonce plaintext).0

abbrev envelope_of : UpstreamCredentials → ℤ → Envelope
envelope_of creds now = record { v = envelope_version; ts = now; creds = creds }

as_envelope-envelope_json : (e : Envelope) → as_envelope (envelope_json e) ≡ some e
unfolding as_envelope envelope_json
as_envelope-envelope_json e = refl

-- Cutting a blob gives its three parts.
cut_nonce : (n c t : Buffer) → length n ≡ 12 → take 12 (n ++ (c ++ t)) ≡ n
cut_nonce n c t h = subst (λ k. take k (n ++ (c ++ t)) ≡ n) h (take-length-append n (c ++ t))

length-blob : (n c t : Buffer) → length (n ++ (c ++ t)) ≡ length n + (length c + length t)
length-blob n c t = ground (arith, length-append n (c ++ t), length-append c t)

front : (n c t : Buffer) → length t ≡ 16 → length (n ++ (c ++ t)) - 16 ≡ length (n ++ c)
front n c t h = ground (arith, length-blob n c t, length-append n c)

cut_tag : (n c t : Buffer) → length t ≡ 16 → drop (length (n ++ (c ++ t)) - 16) (n ++ (c ++ t)) ≡ t
cut_tag n c t h = rw (front n c t h, ← (append_assoc n c t)) (drop-length-append (n ++ c) t)

cut_text :
    (n c t : Buffer)
    → length n ≡ 12
    → length t ≡ 16
    → drop 12 (take (length (n ++ (c ++ t)) - 16) (n ++ (c ++ t))) ≡ c
cut_text n c t hn ht =
    rw (front n c t ht, ← (append_assoc n c t), take-length-append (n ++ c) t)
      (subst (λ k. drop k (n ++ c) ≡ c) hn (drop-length-append n c))

module _ (crypto : Crypto) (now : ℤ) (nonce ciphertext tag : Buffer) where
  -- Keys that do not open the blob are passed over.
  try_keys-append :
      (pre keys : List WrapKey)
      → All (λ (k : WrapKey). crypto.open_gcm k.bytes nonce ciphertext tag ≡ none) pre
      → try_keys crypto now nonce ciphertext tag (pre ++ keys)
        ≡ try_keys crypto now nonce ciphertext tag keys
  unfolding try_keys
  try_keys-append [] keys h = refl
  try_keys-append (k ∷ pre) keys (e, h) = rw (e, try_keys) (try_keys-append pre keys h)

  try_keys-opened :
      (key : WrapKey) (keys : List WrapKey) (plaintext : Buffer)
      → crypto.open_gcm key.bytes nonce ciphertext tag ≡ some plaintext
      → try_keys crypto now nonce ciphertext tag (key ∷ keys)
        ≡ opened key now (parse_envelope crypto plaintext)
  unfolding try_keys
  try_keys-opened key keys plaintext h = rw (h, try_keys)

parse_envelope-stringify :
    (crypto : Crypto) (creds : UpstreamCredentials) (now : ℤ)
    → crypto.parse (crypto.stringify (envelope_json (envelope_of creds now)))
      ≡ some (envelope_json (envelope_of creds now))
    → parse_envelope crypto (crypto.stringify (envelope_json (envelope_of creds now)))
      ≡ ok (envelope_of creds now)
unfolding parse_envelope
parse_envelope-stringify crypto creds now h =
    rw h (ap check_version (as_envelope-envelope_json (envelope_of creds now)))

unwrap_raw-parts :
    (crypto : Crypto) (keys : List WrapKey) (now : ℤ) (n c t : Buffer)
    → length n ≡ 12
    → length t ≡ 16
    → 0 < length c
    → unwrap_raw crypto keys now (n ++ (c ++ t)) ≡ try_keys crypto now n c t keys
unfolding unwrap_raw
unwrap_raw-parts crypto keys now n c t hn ht hc =
    let long : ltb (length (n ++ (c ++ t))) (12 + 16 + 1) ≡ false =
      ground (arith, length-blob n c t) in
    rw (long, cut_nonce n c t hn, cut_text n c t hn ht, cut_tag n c t ht)

unwrap_cons :
    (crypto : Crypto) (pre post : List WrapKey) (key : WrapKey) (now : ℤ) (blob : Str)
    → unwrap crypto (pre ++ key ∷ post) now blob
      ≡ unwrap_raw crypto (pre ++ key ∷ post) now (crypto.from_base64url blob)
unfolding unwrap
unwrap_cons crypto [] post key now blob = refl
unwrap_cons crypto (k ∷ pre) post key now blob = refl

-- What the first key of a ring wrapped, a ring with that key anywhere unwraps, if no key before it
-- opens the blob: the credentials and the time come back, with the id of the key. The nonce has
-- its length, the cipher opens what it sealed, and the coders of the envelope's text and of the
-- blob give back what they were given.
pub unwrap-wrap :
    (crypto : Crypto) (key : WrapKey) (pre post keys : List WrapKey) (creds : UpstreamCredentials)
    (then_ms now : ℤ) (nonce : Buffer)
    → length nonce ≡ 12
    → Seals crypto key.bytes nonce (crypto.stringify (envelope_json (envelope_of creds then_ms)))
    → crypto.parse (crypto.stringify (envelope_json (envelope_of creds then_ms)))
      ≡ some (envelope_json (envelope_of creds then_ms))
    → ((b : Buffer) → crypto.from_base64url (crypto.to_base64url b) ≡ b)
    → All
        (λ (k : WrapKey).
          let sealed =
            crypto.seal_gcm key.bytes nonce
              (crypto.stringify (envelope_json (envelope_of creds then_ms))) in
          crypto.open_gcm k.bytes nonce sealed.0 sealed.1 ≡ none)
        pre
    → (blob : Str) × (wrap crypto (key ∷ keys) creds then_ms nonce ≡ ok blob)
      × (unwrap crypto (pre ++ key ∷ post) now blob
          ≡ ok (record {
            creds = creds;
            wrapped_at = then_ms;
            age_ms = now -ℤ then_ms;
            key_id = key.id;
          }))
unfolding wrap
unwrap-wrap crypto key pre post keys creds then_ms now nonce hn seals parses coded others =
    let text = crypto.stringify (envelope_json (envelope_of creds then_ms)) in
    let sealed = crypto.seal_gcm key.bytes nonce text in
    let raw = nonce ++ (sealed.0 ++ sealed.1) in
    (
      crypto.to_base64url raw,
      refl,
      unwrap_cons crypto pre post key now (crypto.to_base64url raw)
          ∙ ap (unwrap_raw crypto (pre ++ key ∷ post) now) (coded raw)
          ∙ unwrap_raw-parts crypto (pre ++ key ∷ post) now nonce sealed.0 sealed.1 hn seals.tag
              seals.some_text
          ∙ try_keys-append crypto now nonce sealed.0 sealed.1 pre (key ∷ post) others
          ∙ try_keys-opened crypto now nonce sealed.0 sealed.1 key post text seals.opens
          ∙ ap (opened key now) (parse_envelope-stringify crypto creds then_ms parses),
    )

-- Credentials whose host and user name hold no NUL are told apart by what is hashed.
cred_preimage_injective :
    (a b : UpstreamCredentials)
    → Lacks 0 a.upstream_host
    → Lacks 0 b.upstream_host
    → Lacks 0 a.username
    → Lacks 0 b.username
    → cred_preimage a ≡ cred_preimage b
    → (a.upstream_host ≡ b.upstream_host) × (a.username ≡ b.username) × (a.password ≡ b.password)
unfolding cred_preimage
cred_preimage_injective a b ha hb ua ub e =
    let (host, rest) = separator_injective 0 a.upstream_host _ b.upstream_host _ ha hb e in
    let (user, pass) =
      separator_injective 0 a.username a.password b.username b.password ua ub rest in
    (host, user, pass)

read_keys-fit :
    (crypto : Crypto) (show : ℕ → Str) (i : ℕ) (entries : List Str)
    → All (λ (k : WrapKey). length k.bytes ≡ 32) (read_keys crypto show i entries)
unfolding read_keys
read_keys-fit crypto show i [] = tt
read_keys-fit crypto show i (entry ∷ entries) =
    elim (Bool-cases (length (crypto.from_base64 (split_key (b'k' ∷ show i) entry).1) == 32)) [
      | inl e ↦ rw (e, read_keys) ((==_iff _ 32).0 e, read_keys-fit crypto show (i + 1) entries)
      | inr e ↦ rw (e, read_keys) (read_keys-fit crypto show (i + 1) entries)
    ]

-- Every key of a parsed ring has the length of an AES-256 key.
parse_wrap_key_ring-fit :
    (crypto : Crypto) (show : ℕ → Str) (raw : Option Str)
    → All (λ (k : WrapKey). length k.bytes ≡ 32) (parse_wrap_key_ring crypto show raw)
unfolding parse_wrap_key_ring
parse_wrap_key_ring-fit crypto show none = tt
parse_wrap_key_ring-fit crypto show (some raw) = read_keys-fit crypto show 0 _
