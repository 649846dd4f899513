-- ===== src/Hooks/Reaper/Settings.antt =====
-- The settings of the reaper: retention of mirrors, protected namespaces, repositories.
use aocr.Prelude.{
  ℕ, ◌*◌, Bool, not, ◌||◌, List, [], ◌∷◌, Option, none, some, ◌==◌, filter, map, if◌then◌else◌,
}
use aocr.Text.{Str, codes, is_empty, split_on, trim, strip_slashes, unique}
use aocr.JsMap.{JsMap, set}

abbrev default_mirror_idle_seconds : ℕ
default_mirror_idle_seconds = 30 * 24 * 60 * 60

-- JavaScript's numbers: `Number` of a text and of a JSON value, `Number.isFinite`, `x > 0`,
-- `Math.floor` of a positive number; and `JSON.parse`, where it gives an object that is no array.
pub record Numbers : Type 1 where
  pub Number : Type 0
  pub Value : Type 0
  pub of_text : Str → Number
  pub of_value : Value → Number
  pub is_finite : Number → Bool
  pub is_positive : Number → Bool
  pub floor : Number → ℕ
  pub parse_object : Str → Option (JsMap Value)

-- `x || fallback`
abbrev pub or_text : Option Str → Str → Str
or_text none fallback = fallback
or_text (some s) fallback = if is_empty s then fallback else s

module _ (js : Numbers) where
  -- The number rounded down, where it is finite and positive.
  unfoldable seconds_of : js.Number → Option ℕ
  seconds_of n = if not (js.is_finite n) || not (js.is_positive n) then none else some (js.floor n)

  unfoldable pub parse_mirror_default_idle_seconds : Option Str → ℕ
  unfolding seconds_of trim
  parse_mirror_default_idle_seconds env =
      let raw = trim (or_text env []) in
      if is_empty raw then default_mirror_idle_seconds else elim (seconds_of (js.of_text raw)) [
        | none ↦ default_mirror_idle_seconds
        | some seconds ↦ seconds
      ]

  unfoldable collect_overrides : JsMap ℕ → List (Str × js.Value) → JsMap ℕ
  unfolding seconds_of
  collect_overrides out [] = out
  collect_overrides out ((upstream, value) ∷ rest) = elim (seconds_of (js.of_value value)) [
    | none ↦ collect_overrides out rest
    | some seconds ↦ collect_overrides (set out upstream seconds) rest
  ]

  -- `raw` is the argument, or MIRROR_UPSTREAM_RETENTION_JSON.
  unfoldable pub parse_mirror_upstream_retention_map : Option Str → JsMap ℕ
  unfolding collect_overrides trim
  parse_mirror_upstream_retention_map raw =
      let trimmed = trim (or_text raw []) in
      if is_empty trimmed
      then []
      else elim (js.parse_object trimmed) [ none ↦ [] | some parsed ↦ collect_overrides [] parsed ]

abbrev default_protected_namespace : Str
default_protected_namespace = codes "wasm/std"

abbrev pub is_separator : ℕ → Bool
is_separator c = c == 10 || c == b','

abbrev pub non_empty : Str → Bool
non_empty s = not (is_empty s)

-- `source && source.trim().length > 0 ? source : fallback`
abbrev source_or : Option Str → Str → Str
source_or none fallback = fallback
source_or (some source) fallback = if is_empty (trim source) then fallback else source

-- `std` is AOCR_WASM_STD_NAMESPACE, and `raw` the argument or AOCR_RETENTION_PROTECTED_NAMESPACES.
unfoldable pub parse_protected_namespaces : Option Str → Option Str → List Str
unfolding trim strip_slashes split_on filter unique
parse_protected_namespaces std raw =
    let fallback = trim (or_text std default_protected_namespace) in
    unique (
      filter non_empty (
        map (λ entry. strip_slashes (trim entry)) (split_on is_separator (source_or raw fallback))))

unfoldable pub normalize_repository_ids : List Str → List Str
unfolding trim filter
normalize_repository_ids ids = filter non_empty (map trim ids)

-- REPOSITORY_IDS, or REPOSITORY_ID
unfoldable get_configured_repository_ids : Option Str → Option Str → List Str
unfolding normalize_repository_ids split_on
get_configured_repository_ids ids id =
    normalize_repository_ids (split_on (λ c. c == b',') (or_text ids (or_text id [])))
