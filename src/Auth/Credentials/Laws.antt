-- ===== src/Auth/Credentials/Laws.antt =====
-- What the header gives, which tokens are configured, and which identities fit.
use aocr.Prelude.{
  ◌≡◌, refl, ◌∙◌, ap, ◌≢◌, ◌↔◌, true, [], ◌∷◌, ◌++◌, Option, some, arith, ==_iff, All, all→All,
  All→all, length, take-length-append, past_prefix,
}
use aocr.Text.{Str, codes, contains, trim}
use aocr.Text.Laws.{str_eq_iff, Lacks, index_of-append}
use aocr.Text.Utf8.{Utf8}
use aocr.Auth.Credentials.{
  ValidationUserProfile, extracted, read_basic, extract_presented_credentials, extract_from,
  from_password, or_null, tokens_match, normalized, presented_identity_matches_user,
}

-- Two tokens match exactly when their encodings are the same bytes.
pub tokens_match_iff :
    (utf8 : Utf8) (expected presented : Str)
    → (tokens_match utf8 expected presented ≡ true) ↔ (utf8.encode expected ≡ utf8.encode presented)
unfolding tokens_match
tokens_match_iff utf8 expected presented = (to, from)
  where
    to : tokens_match utf8 expected presented ≡ true → utf8.encode expected ≡ utf8.encode presented
    to h = ground (arith, h, str_eq_iff (utf8.encode expected) (utf8.encode presented))

    from :
        utf8.encode expected ≡ utf8.encode presented → tokens_match utf8 expected presented ≡ true
    from e =
        rw
          ((==_iff (length (utf8.encode expected)) (length (utf8.encode presented))).1
            (ap (λ (z : Str). length z) e))
          ((str_eq_iff (utf8.encode expected) (utf8.encode presented)).1 e)

read_basic-cut :
    (user password : Str)
    → Lacks b':' user
    → read_basic (user ++ (b':' ∷ password)) ≡ from_password (trim user) (trim password)
unfolding read_basic
read_basic-cut user password h =
    rw (index_of-append b':' user password h, read_basic)
      (rw (take-length-append user (b':' ∷ password), past_prefix user b':' password))

full :
    (user password : Str)
    → password ≢ []
    → from_password user password
      ≡ extracted (record { validation_token = password; presented_identity = or_null user })
full user [] h = absurd (h refl)
full user (c ∷ password) h = refl

-- A basic header whose text decodes to a user name without a colon, a colon and a password that is
-- not blank gives that password as the token and that user as the presented identity, both
-- trimmed; the password may hold colons, and a blank user name counts as none.
pub extract-basic :
    (base64_text : Str → Str) (encoded user password : Str)
    → Lacks b':' user
    → trim password ≢ []
    → base64_text (trim encoded) ≡ user ++ (b':' ∷ password)
    → extract_presented_credentials base64_text (some (codes "Basic " ++ encoded))
      ≡ extracted
          (record { validation_token = trim password; presented_identity = or_null (trim user) })
unfolding extract_presented_credentials extract_from read_basic
extract-basic base64_text encoded user password h ne decoded =
    ap read_basic decoded ∙ read_basic-cut user password h ∙ full (trim user) (trim password) ne

-- An identity fits exactly when each presented name, trimmed and in lower case, is one of the
-- user's external id, name and address in that form; no name at all fits.
presented_identity_matches_user_iff :
    (to_lower : Str → Str) (presented account : Option Str) (profile : ValidationUserProfile)
    → (presented_identity_matches_user to_lower presented account profile ≡ true)
      ↔ All
          (λ s.
            contains
              (normalized to_lower
                (some profile.external_id ∷ profile.username ∷ profile.email ∷ []))
              s
            ≡ true)
          (normalized to_lower (presented ∷ account ∷ []))
unfolding presented_identity_matches_user
presented_identity_matches_user_iff to_lower presented account profile = (
  all→All _ (normalized to_lower (presented ∷ account ∷ [])),
  All→all _ (normalized to_lower (presented ∷ account ∷ [])),
)
