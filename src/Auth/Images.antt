-- ===== src/Auth/Images.antt =====
-- auth/src/imageList.ts and the handler of /v1/images in auth/src/createApp.ts.
pub mod Paging
use aocr.Prelude.{
  ℕ, zero, suc, ◌+◌, ◌*◌, ◌-◌, Bool, true, false, ◌&&◌, ◌||◌, not, ◌==◌, leb, ltb, List, [], ◌∷◌,
  Option, none, some, if◌then◌else◌, length, take,
}
use Prim.Native.Nat.{◌^◌}
use aocr.Prelude.Int.{ℤ, pos, negsuc}
use aocr.Text.{Str, is_space, drop_start}
use aocr.Auth.Scope.{other}
use aocr.Auth.Credentials.{
  ValidationUserProfile, Extracted, extracted, refused, extract_presented_credentials,
}
use aocr.Auth.Validation.{
  Strategy, api, pat, cluster_pat, wrapped_upstream, ValidationResult, Validated, valid, invalid,
  validate_presented_token,
}
use aocr.Auth.Token.{Env}
use aocr.Upstream.ProofCache.{ProofCache}

abbrev min_limit : ℕ
min_limit = 1

abbrev max_limit : ℕ
max_limit = 1000

abbrev default_limit : ℕ
default_limit = 100

abbrev is_digit : ℕ → Bool
is_digit c = leb 48 c && leb c 57

-- The leading decimal digits, as a number; `none` where there is none.
abbrev value_of : Option ℕ → ℕ
value_of none = 0
value_of (some n) = n

digits_from : Option ℕ → Str → Option ℕ
digits_from so_far [] = so_far
digits_from so_far (c ∷ s) =
    let rest = digits_from (some (value_of so_far * 10 + (c - 48))) s in
    if is_digit c then rest else so_far

abbrev negated : ℕ → ℤ
negated zero = pos 0
negated (suc n) = negsuc n

abbrev as_pos : Option ℕ → Option ℤ
as_pos none = none
as_pos (some n) = some (pos n)

abbrev as_neg : Option ℕ → Option ℤ
as_neg none = none
as_neg (some n) = some (negated n)

unfoldable parse_signed : Str → Option ℤ
unfolding digits_from
parse_signed [] = none
parse_signed (c ∷ s) =
    if c == b'-'
    then as_neg (digits_from none s)
    else if c == b'+'
    then as_pos (digits_from none s)
    else as_pos (digits_from none (c ∷ s))

-- parseInt(s, 10), with `none` for NaN; the number is exact.
unfoldable pub parse_int : Str → Option ℤ
unfolding parse_signed drop_start is_space
parse_int s = parse_signed (drop_start is_space s)

-- From this number on, the runtime's numbers are infinite.
abbrev infinity : ℕ
infinity = 2 ^ 1024 - 2 ^ 970

unfoldable pub is_finite : ℕ → Bool
is_finite n = ltb n infinity

-- Math.max(MIN_LIMIT, Math.min(MAX_LIMIT, n))
abbrev pub clamp : ℕ → ℕ
clamp n = if leb n min_limit then min_limit else if leb max_limit n then max_limit else n

-- clampLimit and clampOffset, on the whole numbers that are not negative
unfoldable pub clamp_limit : ℕ → ℕ
unfolding is_finite
clamp_limit n = if is_finite n then clamp n else default_limit

unfoldable clamp_offset : ℕ → ℕ
unfolding is_finite
clamp_offset n = if is_finite n then n else 0

abbrev pub text_or_blank : Option Str → Str
text_or_blank none = []
text_or_blank (some s) = s

unfoldable pub limit_of : Option ℤ → ℕ
unfolding clamp_limit is_finite
limit_of none = default_limit
limit_of (some (negsuc n)) = default_limit
limit_of (some (pos n)) = if n == 0 || not (is_finite n) then default_limit else clamp_limit n

-- The parameter of the query as text; `none` where it is missing.
unfoldable pub parse_limit : Option Str → ℕ
unfolding parse_int limit_of
parse_limit raw = limit_of (parse_int (text_or_blank raw))

offset_of : Option ℤ → ℕ
unfolding clamp_offset is_finite
offset_of none = 0
offset_of (some (negsuc n)) = 0
offset_of (some (pos n)) = if is_finite n then clamp_offset n else 0

unfoldable parse_offset : Option Str → ℕ
unfolding parse_int offset_of
parse_offset raw = offset_of (parse_int (text_or_blank raw))

-- A query with its values: the rows of all images, or of one user's, from an offset on.
pub data ListQuery : Type 0 where
  admin_list : ℕ → ℕ → ListQuery
  user_list : Str → ℕ → ℕ → ListQuery

pub record ImageListPage {ℓ} (Row : Type ℓ) : Type ℓ where
  pub rows : List Row
  pub has_more : Bool

unfoldable pub trim_overflow {ℓ} : {Row : Type ℓ} → List Row → ℕ → ImageListPage Row
trim_overflow rows limit =
    if ltb limit (length rows)
    then record { rows = take limit rows; has_more = true }
    else record { rows = rows; has_more = false }

pub record UserOut : Type 0 where
  pub external_id : Str
  pub username : Option Str
  pub email : Option Str

-- The body of a page; no user stands for the scope of an administrator.
pub record Listing {ℓ} (Row : Type ℓ) : Type ℓ where
  pub user : Option UserOut
  pub limit : ℕ
  pub offset : ℕ
  pub count : ℕ
  pub has_more : Bool
  pub next_offset : Option ℕ
  pub images : List Row

pub data ImagesResponse {ℓ} (Row : Type ℓ) : Type ℓ where
  unsupported_scope db_error unauthenticated : ImagesResponse Row
  listed : Listing Row → ImagesResponse Row

-- `query` is `pool.query`; `none` where it throws.
module _ {ℓ} {Row : Type ℓ} (query : ListQuery → Option (List Row)) where
  unfoldable pub page_of : ℕ → Option (List Row) → Option (ImageListPage Row)
  unfolding trim_overflow
  page_of limit none = none
  page_of limit (some rows) = some (trim_overflow rows limit)

  unfoldable pub list_all_images : ℕ → ℕ → Option (ImageListPage Row)
  unfolding page_of
  list_all_images limit offset = page_of limit (query (admin_list (limit + 1) offset))

  unfoldable list_images_for_external_id : Str → ℕ → ℕ → Option (ImageListPage Row)
  unfolding page_of
  list_images_for_external_id id limit offset =
      page_of limit (query (user_list id (limit + 1) offset))

  abbrev pub listing_body : Option UserOut → ℕ → ℕ → ImageListPage Row → Listing Row
  listing_body user limit offset page = record {
    user = user;
    limit = limit;
    offset = offset;
    count = length page.rows;
    has_more = page.has_more;
    next_offset = if page.has_more then some (offset + length page.rows) else none;
    images = page.rows;
  }

  unfoldable pub listing : Option UserOut → ℕ → ℕ → Option (ImageListPage Row) → ImagesResponse Row
  listing user limit offset none = db_error
  listing user limit offset (some page) = listed (listing_body user limit offset page)

  abbrev user_out : ValidationUserProfile → UserOut
  user_out p = record { external_id = p.external_id; username = p.username; email = p.email }

  unfoldable list_for : ValidationResult → ℕ → ℕ → ImagesResponse Row
  unfolding listing list_all_images list_images_for_external_id
  list_for result limit offset = elim result.strategy [
    | cluster_pat ↦ unsupported_scope
    | wrapped_upstream ↦ unsupported_scope
    | pat ↦ listing none limit offset (list_all_images limit offset)
    | api ↦
        listing (some (user_out result.user_profile)) limit offset
          (list_images_for_external_id result.user_profile.external_id limit offset)
  ]

  abbrev after_auth : Option Str → Option Str → Validated → ImagesResponse Row
  after_auth raw_limit raw_offset (invalid e) = unauthenticated
  after_auth raw_limit raw_offset (valid result) =
      list_for result (parse_limit raw_limit) (parse_offset raw_offset)

  unfoldable handle_images :
      Env → ProofCache → Option Str → Option Str → Option Str → ImagesResponse Row × ProofCache
  unfolding extract_presented_credentials validate_presented_token list_for parse_limit parse_offset
  handle_images env c authorization raw_limit raw_offset =
      elim (extract_presented_credentials env.base64_text authorization) [
        | refused e ↦ (unauthenticated, c)
        | extracted creds ↦
            let (outcome, c') =
              validate_presented_token env.world env.context c creds.validation_token other in
            (after_auth raw_limit raw_offset outcome, c')
      ]
