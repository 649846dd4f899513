-- ===== src/Auth/Scope.antt =====
-- auth/src/scope.ts: the `scope` parameter of the token endpoint.
pub mod Parse
pub mod Merge
pub mod Order
use aocr.Prelude.{
  ℕ, suc, Bool, true, false, not, List, [], ◌∷◌, ◌++◌, Option, none, some, ◌==◌, if◌then◌else◌,
  filter, filter_map,
}
use aocr.Text.{
  Str, codes, str_eq, contains, is_empty, index_of, last_index_of, slice, slice_from, split_on,
  split_runs, is_space,
}
use aocr.JsMap.{JsMap, get, set, values}

pub record RequestedScope : Type 0 where
  pub type : Str
  pub name : Str
  pub actions : List Str

abbrev pub max_requested_scopes : ℕ
max_requested_scopes = 20

-- A query parameter: one string, an array (`none` for an element that is no string), or neither.
pub data ScopeParam : Type 0 where
  one : Str → ScopeParam
  many : List (Option Str) → ScopeParam
  other : ScopeParam

abbrev non_empty : Str → Bool
non_empty s = not (is_empty s)

abbrev identity : Option Str → Option Str
identity v = v

strings : ScopeParam → List Str
unfolding filter_map
strings (one s) = s ∷ []
strings (many vs) = filter_map identity vs
strings other = []

-- The resource scopes of the parameter, in order.
split_words : List Str → List Str
unfolding split_runs is_space
split_words [] = []
split_words (v ∷ vs) = split_runs is_space v ++ split_words vs

unfoldable pub scope_values : ScopeParam → List Str
unfolding strings split_words filter
scope_values raw = filter non_empty (split_words (strings raw))

-- The text behind the last colon, cut at commas.
unfoldable pub actions_of : Str → List Str
unfolding split_on filter
actions_of s = filter non_empty (split_on (λ c. c == b',') s)

-- `firstColon <= 0`, `lastColon === firstColon`, and an empty name, answer null
pub parse_at : Str → ℕ → ℕ → Option RequestedScope
parse_at value first last =
    if first == 0
    then none
    else if last == first
    then none
    else let name = slice (suc first) last value in
      if is_empty name
      then none
      else some (record {
        type = slice 0 first value;
        name = name;
        actions = actions_of (slice_from (suc last) value);
      })

unfoldable pub parse_scope : Str → Option RequestedScope
unfolding index_of last_index_of parse_at actions_of
parse_scope value = elim (index_of b':' value) [
  | none ↦ none
  | some first ↦ elim (last_index_of b':' value) [
    | none ↦ none
    | some last ↦ parse_at value first last
  ]
]

unfoldable pub scope_key : RequestedScope → Str
scope_key r = r.type ++ (b':' ∷ r.name)

-- `if (!actions.includes(action)) actions.push(action)` for each action
unfoldable pub add_actions : List Str → List Str → List Str
unfolding contains str_eq
add_actions have [] = have
add_actions have (a ∷ more) = add_actions (if contains have a then have else have ++ a ∷ []) more

abbrev entry_or_new : Option RequestedScope → RequestedScope → RequestedScope
entry_or_new none r = record { type = r.type; name = r.name; actions = [] }
entry_or_new (some e) r = e

-- one round of the loop of `parseRequestedScopes`
pub add_scope : JsMap RequestedScope → RequestedScope → JsMap RequestedScope
unfolding get set scope_key add_actions str_eq
add_scope merged parsed =
    let key = scope_key parsed in
    let entry = entry_or_new (get merged key) parsed in
    set merged key (record entry { actions = add_actions entry.actions parsed.actions })

pub merge_scopes : JsMap RequestedScope → List Str → JsMap RequestedScope
unfolding add_scope parse_scope
merge_scopes merged [] = merged
merge_scopes merged (value ∷ rest) =
    merge_scopes
      (elim (parse_scope value) [ none ↦ merged | some parsed ↦ add_scope merged parsed ]) rest

unfoldable pub parse_requested_scopes : ScopeParam → List RequestedScope
unfolding merge_scopes scope_values
parse_requested_scopes raw = values (merge_scopes [] (scope_values raw))
