-- ===== src/Auth/Profile.antt =====
-- auth/src/serverHelpers.ts: the answer of the validation service, as a user profile.
use aocr.Prelude.{Bool, true, false, [], ◌∷◌, ◌++◌, Option, none, some, if◌then◌else◌, ◌==◌}
use aocr.Prelude.Int.{ℤ, pos, negsuc}
use aocr.Text.{Str, codes, strip_slashes, ends_with}
use aocr.Upstream.Wrap.{Json, null, str, num, bool, arr, obj, get_field}
use aocr.Auth.Credentials.{ValidationUserProfile}

abbrev info_path : Str
info_path = codes "/api/auth/info"

-- `none` where it throws.
unfoldable pub get_validation_info_url : Option Str → Option Str
unfolding strip_slashes ends_with
get_validation_info_url none = none
get_validation_info_url (some []) = none
get_validation_info_url (some (c ∷ s)) =
    let trimmed_url = strip_slashes (c ∷ s) in
    some (if ends_with trimmed_url info_path then trimmed_url else trimmed_url ++ info_path)

-- `payload?.name`, with `null` for `undefined`.
unfoldable pub property : Str → Json → Json
unfolding get_field
property name (obj fields) = elim (get_field name fields) [ some v ↦ v | none ↦ null ]
property name _ = null

abbrev is_zero : ℤ → Bool
is_zero (pos n) = n == 0
is_zero (negsuc n) = false

-- `x ? String(x) : null`, where `to_string` is `String` on what is no string.
unfoldable text_of : (Json → Str) → Json → Option Str
text_of to_string null = none
text_of to_string (bool false) = none
text_of to_string (bool true) = some (codes "true")
text_of to_string (num n) = if is_zero n then none else some (to_string (num n))
text_of to_string (str []) = none
text_of to_string (str (c ∷ s)) = some (c ∷ s)
text_of to_string (arr items) = some (to_string (arr items))
text_of to_string (obj fields) = some (to_string (obj fields))

abbrev or_else : Option Str → Option Str → Option Str
or_else none b = b
or_else (some a) b = some a

-- `a ?? b`
abbrev nullish : Json → Json → Json
nullish null b = b
nullish a b = a

profile_of : (Json → Str) → Json → Json → Option Str → Option ValidationUserProfile
unfolding property text_of
profile_of to_string payload user none = none
profile_of to_string payload user (some id) = some (record {
  external_id = id;
  username = text_of to_string (property (codes "username") user);
  email = text_of to_string (property (codes "email") user);
  display_name =
      or_else (text_of to_string (property (codes "name") user))
        (text_of to_string (property (codes "username") user));
  avatar_url = text_of to_string (property (codes "avatar") user);
  auth_provider =
      or_else (text_of to_string (property (codes "authProvider") payload))
        (text_of to_string (property (codes "authProvider") user));
  raw_profile = payload;
})

unfoldable pub normalize_validation_profile : (Json → Str) → Json → Option ValidationUserProfile
unfolding profile_of property text_of
normalize_validation_profile to_string payload =
    let user = nullish (property (codes "user") payload) payload in
    profile_of to_string payload user (text_of to_string (property (codes "id") user))
