-- ===== src/Hooks/TagRetention.antt =====
-- hooks/src/util/tagRetention.ts: the retention that a tag asks for by its suffix.
pub mod Exec
pub mod Laws
use aocr.Prelude.{
  ℕ, suc, ◌+◌, ◌*◌, Bool, true, false, ◌&&◌, ◌||◌, not, List, [], ◌∷◌, ◌++◌, Option, none, some,
  ◌==◌, leb, if◌then◌else◌, all, take, drop,
}
use aocr.Text.{Str, codes, str_eq, is_empty, last_index_of}
use aocr.Text.Suffix.{strip_end}
use aocr.JsMap.{JsMap, get}

-- TTL_SUFFIX_SECONDS
unfoldable pub ttl_suffix_seconds : JsMap ℕ
ttl_suffix_seconds =
    (codes "1h", 60 * 60)
    ∷ (codes "6h", 6 * 60 * 60)
    ∷ (codes "24h", 24 * 60 * 60)
    ∷ (codes "7d", 7 * 24 * 60 * 60)
    ∷ (codes "30d", 30 * 24 * 60 * 60)
    ∷ (codes "90d", 90 * 24 * 60 * 60)
    ∷ (codes "180d", 180 * 24 * 60 * 60)
    ∷ (codes "365d", 365 * 24 * 60 * 60)
    ∷ (codes "1month", 30 * 24 * 60 * 60)
    ∷ (codes "3month", 90 * 24 * 60 * 60)
    ∷ (codes "6month", 180 * 24 * 60 * 60)
    ∷ (codes "12month", 365 * 24 * 60 * 60)
    ∷ []

-- TTL_CANONICAL_SUFFIX
unfoldable pub ttl_canonical_suffix : JsMap Str
ttl_canonical_suffix =
    (codes "1h", codes "1h")
    ∷ (codes "6h", codes "6h")
    ∷ (codes "24h", codes "24h")
    ∷ (codes "7d", codes "7d")
    ∷ (codes "30d", codes "30d")
    ∷ (codes "90d", codes "90d")
    ∷ (codes "180d", codes "180d")
    ∷ (codes "365d", codes "365d")
    ∷ (codes "1month", codes "30d")
    ∷ (codes "3month", codes "90d")
    ∷ (codes "6month", codes "180d")
    ∷ (codes "12month", codes "365d")
    ∷ []

-- What `table[key]` gives for an object literal: nothing, a value of its own, or a function that
-- the literal inherits from `Object.prototype`.
pub data Property {ℓ} (A : Type ℓ) : Type ℓ where
  missing inherited : Property A
  own : A → Property A

-- The one inherited name that is all of lower case letters and digits, as the suffixes are.
unfoldable pub read_property {ℓ} : {A : Type ℓ} → JsMap A → Str → Property A
unfolding get str_eq
read_property table key = elim (get table key) [
  | some value ↦ own value
  | none ↦ if str_eq key (codes "constructor") then inherited else missing
]

pub data RetentionMode : Type 0 where
  keep_latest ttl idle : RetentionMode

-- A date, none, or an invalid date.
pub data Expiry : Type 0 where
  never invalid_date : Expiry
  at_ms : ℕ → Expiry

pub record ParsedTagRetention : Type 0 where
  pub retention_mode : RetentionMode
  pub retention_value_seconds : Property ℕ
  pub expires_at : Expiry
  pub raw_retention_suffix : Option Str
  pub canonical_retention_suffix : Property Str

-- `(ttl|idle)`
pub data Kind : Type 0 where
  by_ttl by_idle : Kind

pub record TagMatch : Type 0 where
  pub stem : Str
  pub kind : Kind
  pub suffix : Str

abbrev pub marker : Kind → Str
marker by_ttl = codes "--ttl"
marker by_idle = codes "--idle"

-- `[a-z0-9]`
abbrev pub is_suffix_char : ℕ → Bool
is_suffix_char c = (leb b'a' c && leb c b'z') || (leb b'0' c && leb c b'9')

-- `.`
abbrev pub is_any_char : ℕ → Bool
is_any_char c = not (c == 10 || (c == 13 || (c == 0x2028 || c == 0x2029)))

abbrev pub of_stem : Kind → Str → Str → Option TagMatch
of_stem kind suffix stem =
    if all is_any_char stem
    then some (record { stem = stem; kind = kind; suffix = suffix })
    else none

unfoldable pub match_head : Str → Str → Option TagMatch
unfolding strip_end all
match_head suffix head = elim (strip_end (marker by_ttl) head) [
  | some stem ↦ of_stem by_ttl suffix stem
  | none ↦ elim (strip_end (marker by_idle) head) [
    | some stem ↦ of_stem by_idle suffix stem
    | none ↦ none
  ]
]

-- TTL_TAG_PATTERN, `^(.*)--(ttl|idle)-([a-z0-9]+)$`: the last group holds no dash, so it stands
-- behind the last one.
unfoldable pub exec_tag : Str → Option TagMatch
unfolding last_index_of match_head all
exec_tag tag = elim (last_index_of b'-' tag) [
  | none ↦ none
  | some dash ↦
      let suffix = drop (suc dash) tag in
      if not (is_empty suffix) && all is_suffix_char suffix
      then match_head suffix (take dash tag)
      else none
]

abbrev plain_retention : ParsedTagRetention
plain_retention = record {
  retention_mode = keep_latest;
  retention_value_seconds = missing;
  expires_at = never;
  raw_retention_suffix = none;
  canonical_retention_suffix = missing;
}

abbrev pub mode_of : Kind → RetentionMode
mode_of by_ttl = ttl
mode_of by_idle = idle

-- `new Date(referenceTime + seconds * 1000)`; arithmetic on a function gives no number.
abbrev pub expiry_of : Kind → ℕ → Property ℕ → Expiry
expiry_of by_ttl now (own seconds) = at_ms (now + seconds * 1000)
expiry_of by_ttl now missing = never
expiry_of by_ttl now inherited = invalid_date
expiry_of by_idle now seconds = never

abbrev retention_of : TagMatch → ℕ → Property ℕ → ParsedTagRetention
retention_of m now missing = plain_retention
retention_of m now seconds = record {
  retention_mode = mode_of m.kind;
  retention_value_seconds = seconds;
  expires_at = expiry_of m.kind now seconds;
  raw_retention_suffix = some m.suffix;
  canonical_retention_suffix = read_property ttl_canonical_suffix m.suffix;
}

unfoldable pub parse_tag_retention : Str → ℕ → ParsedTagRetention
unfolding exec_tag read_property ttl_suffix_seconds ttl_canonical_suffix
parse_tag_retention tag reference_time = elim (exec_tag tag) [
  | none ↦ plain_retention
  | some m ↦ retention_of m reference_time (read_property ttl_suffix_seconds m.suffix)
]
